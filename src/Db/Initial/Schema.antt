-- ===== src/Db/Initial/Schema.antt =====
-- What sqlite_db_initial of src/util/db_util.cpp reads from config/1.json. jsmn is a parameter: the
-- array of 2048 tokens as it leaves them.
use tau_shell.Prelude.{
  ℕ, zero, suc, Bool, Option, none, some, [], ◌∷◌, ◌++◌, Bytes, codes, ◌==◌, if◌then◌else◌,
}
use tau_shell.Prelude.Int.{ℤ, pos, negsuc, ◌+ℤ◌, ◌-ℤ◌}
use tau_shell.Fault.{Res, ok, fault, out_of_bounds, length_error, ◌>>=◌}
use tau_shell.Memory.{store, slice, until_nul, or_out_of_bounds}
use tau_shell.Json.{Token, Tokens, object, array, string, deref, find_key, find_key_in_array}
use tau_shell.Db.CreateSql.{sql_process}

-- The characters that are pushed until feof: the last one is EOF, cut to a char. Nothing is read of a
-- file that cannot be opened.
abbrev pub file_chars : Option Bytes → Bytes
file_chars none = []
file_chars (some s) = s ++ 255 ∷ []

-- while (sql_info[i] != '}') sql_info.pop_back(): what is left, or none where the index gets below 0
unfoldable pub up_to_brace : Bytes → Option Bytes
up_to_brace [] = none
up_to_brace (c ∷ cs) = elim (up_to_brace cs) [
  | some s ↦ some (c ∷ s)
  | none ↦ if c == b'}' then some (c ∷ []) else none
]

-- The text with the NUL behind it, which stands in the room that pop_back left.
abbrev pub sql_text : Option Bytes → Res Bytes
sql_text none = fault out_of_bounds
sql_text (some s) = ok (s ++ 0 ∷ [])

-- A token that jsmn did not fill ends at -1. The byte there is not part of the array: `in_front` says
-- whether the heap has one that can be written and that nothing of the program reads.
unfoldable pub end_token : Bool → Bytes → ℤ → Res Bytes
end_token in_front buf (negsuc zero) = if in_front then ok buf else fault out_of_bounds
end_token in_front buf (negsuc (suc n)) = fault out_of_bounds
end_token in_front buf (pos n) = store buf (pos n) 0

unfoldable pub end_tokens : Bool → Tokens → Bytes → Res Bytes
unfolding end_token
end_tokens in_front [] buf = ok buf
end_tokens in_front (t ∷ tokens) buf = do
  buf' ← end_token in_front buf t.end
  end_tokens in_front tokens buf'

-- new char[size] and memcpy of as many characters
abbrev copy : Bytes → ℤ → ℤ → Res Bytes
copy buf at (negsuc n) = fault length_error
copy buf at (pos n) = slice buf at n

-- The characters of a token with the one behind it, which is a NUL by now.
unfoldable pub copy_token : Bytes → Token → Res Bytes
copy_token buf t = copy buf t.start (t.end -ℤ t.start +ℤ pos 1)

-- The name and the template of the i-th table, looked up from the start of all tokens, and the C string
-- that is made of them.
unfoldable pub table_sql : Tokens → ℕ → Bytes → Res (Bytes × Bytes)
unfolding copy_token
table_sql tokens i buf = do
  (table_name, buf') ← find_key_in_array (some tokens) buf (codes "tableName") i 2048 string
  n ← deref table_name
  tn ← copy_token buf' n
  (sql_table, buf'') ← find_key_in_array (some tokens) buf' (codes "createSql") i 2048 string
  t ← deref sql_table
  sql_temp ← copy_token buf'' t
  made ← sql_process sql_temp tn
  sql ← or_out_of_bounds (until_nul made)
  ok (sql, buf'')

-- The objects "database" and "entities"; a missing one is dereferenced, as NULL.
unfoldable pub find_tables : Tokens → Bytes → Res (ℕ × Bytes)
find_tables tokens buf = do
  (database, buf') ← find_key (some tokens) buf (codes "database") object
  (tables, buf'') ← find_key database buf' (codes "entities") array
  t ← deref tables
  ok (t.size, buf'')

-- What jsmn answers is printed, and the tokens are used whatever it is.
unfoldable pub config_tokens : Bool → (Bytes → Tokens) → Option Bytes → Res (Tokens × Bytes)
unfolding up_to_brace end_tokens
config_tokens in_front jsmn file = do
  text ← sql_text (up_to_brace (file_chars file))
  buf ← end_tokens in_front (jsmn text) text
  ok (jsmn text, buf)
