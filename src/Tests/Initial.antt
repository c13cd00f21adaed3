-- ===== src/Tests/Initial.antt =====
-- A config file with one table, as src/util/db_util.cpp reads it.
use tau_shell.Prelude.{ℕ, ◌≡◌, refl, true, some, [], ◌∷◌, ◌++◌, Bytes, codes, arith, get_elem?}
use tau_shell.Prelude.Int.{pos, negsuc, ◌+ℤ◌, ◌-ℤ◌}
use tau_shell.Fault.{ok}
use tau_shell.Memory.{store, c_string, slice}
use tau_shell.Json.{
  Token, TokenType, Tokens, object, array, string, primitive, find_key, find_key_in_array,
}
use tau_shell.Json.InArray.{values, AllEnded, ended, find_key_in_array-values}
use tau_shell.Db.CreateSql.{requote}
use tau_shell.Db.Initial.{sqlite_db_initial}
use tau_shell.Db.Initial.Schema.{config_tokens, find_tables, copy_token}
use tau_shell.Db.Initial.Laws.{Table, HasTables, statement, sqlite_db_initial-statements}
use tau_shell.Tests.Db.{engine, empty_sql}

abbrev token : TokenType → ℕ → ℕ → ℕ → Token
token type start end size = record { type = type; start = pos start; end = pos end; size = size }

abbrev table : Table
table = record { name = codes "T"; before = codes "CREATE TABLE "; after = codes "` (`id` INT)" }

abbrev file : Bytes
file =
    codes
      "{\"database\":{\"entities\":[{\"tableName\":\"T\",\"createSql\":\"CREATE TABLE `${TABLE_NAME}` (`id` INT)\"}]}}"

-- the last token was not filled
abbrev tokens : Tokens
tokens =
    token object 0 99 2
    ∷ token string 2 10 0
    ∷ token object 12 98 2
    ∷ token string 14 22 0
    ∷ token array 24 97 1
    ∷ token object 25 96 4
    ∷ token string 27 36 0
    ∷ token string 39 40 0
    ∷ token string 43 52 0
    ∷ token string 55 94 0
    ∷ record { type = primitive; start = negsuc 0; end = negsuc 0; size = 0 }
    ∷ []

abbrev name_token : Token
name_token = token string 39 40 0

abbrev sql_token : Token
sql_token = token string 55 94 0

-- the text with a NUL at the end of each token
abbrev cut : Bytes
cut =
    codes "{\"database"
    ++ (0
        ∷ (codes ":{\"entities"
            ++ (0
                ∷ (codes ":[{\"tableName"
                    ++ (0
                        ∷ (codes ":\"T"
                            ++ (0
                                ∷ (codes ",\"createSql"
                                    ++ (0
                                        ∷ (codes ":\"CREATE TABLE `${TABLE_NAME}` (`id` INT)"
                                            ++ (0 ∷ (b'}' ∷ 0 ∷ 0 ∷ 0 ∷ 0 ∷ []))))))))))))

read : config_tokens true (λ text. tokens) (some (file ++ codes "\n")) ≡ ok (tokens, cut)
unfolding config_tokens store
read = refl

found : find_tables tokens cut ≡ ok (1, cut)
unfolding find_tables find_key store c_string
found = refl

name_found :
    find_key_in_array (some tokens) cut (codes "tableName") 0 2048 string
    ≡ ok (
      some (
          name_token
          ∷ token string 43 52 0
          ∷ sql_token
          ∷ record { type = primitive; start = negsuc 0; end = negsuc 0; size = 0 }
          ∷ []),
      cut,
    )
unfolding find_key_in_array store c_string
name_found = refl

sql_found :
    find_key_in_array (some tokens) cut (codes "createSql") 0 2048 string
    ≡ ok (
      some (
          sql_token ∷ record { type = primitive; start = negsuc 0; end = negsuc 0; size = 0 } ∷ []),
      cut,
    )
unfolding find_key_in_array store c_string
sql_found = refl

name_copied : copy_token cut name_token ≡ ok (codes "T" ++ 0 ∷ [])
unfolding copy_token slice ◌+ℤ◌ ◌-ℤ◌
name_copied = refl

sql_copied :
    copy_token cut sql_token ≡ ok (codes "CREATE TABLE `${TABLE_NAME}` (`id` INT)" ++ 0 ∷ [])
unfolding copy_token slice ◌+ℤ◌ ◌-ℤ◌
sql_copied = refl

has_table : HasTables tokens cut 0 (table ∷ [])
unfolding requote
has_table = (
  record {
    named = name_token;
    made = sql_token;
    rest =
        token string 43 52 0
        ∷ sql_token
        ∷ record { type = primitive; start = negsuc 0; end = negsuc 0; size = 0 }
        ∷ [];
    more = record { type = primitive; start = negsuc 0; end = negsuc 0; size = 0 } ∷ [];
    finds_name = name_found;
    finds_sql = sql_found;
    copies_name = name_copied;
    copies_sql = sql_copied;
    plain = ground arith;
    clean = ground arith;
  },
  tt,
)

sqlite_db_initial-statements_example :
    sqlite_db_initial engine true (λ text. tokens) (some (file ++ codes "\n")) empty_sql
    ≡ ok (tt, record empty_sql { statements = statement table ∷ [] })
sqlite_db_initial-statements_example =
    sqlite_db_initial-statements engine true (λ text. tokens) (some (file ++ codes "\n")) tokens cut
      cut (table ∷ []) empty_sql read found has_table

statement_of_table : statement table ≡ codes "CREATE TABLE \"T\" (\"id\" INT)"
unfolding requote
statement_of_table = refl

abbrev after_key : Tokens
after_key = name_token ∷ sql_token ∷ []

key_ended : store cut (pos 36) 0 ≡ ok cut
unfolding store
key_ended = refl

value_ended : store cut (pos 40) 0 ≡ ok cut
unfolding store
value_ended = refl

key_text : c_string cut (pos 27) ≡ ok (codes "tableName")
unfolding c_string
key_text = refl

value_text : c_string cut (pos 39) ≡ ok (codes "T")
unfolding c_string
value_text = refl

two_ended : AllEnded 2 cut (token string 27 36 0 ∷ after_key)
two_ended = (
  ended 27 refl key_ended (codes "tableName") key_text,
  (ended 39 refl value_ended (codes "T") value_text, tt),
)

find_key_in_array-values_example :
    find_key_in_array
      (some (token object 0 99 2 ∷ token string 27 36 0 ∷ after_key))
      cut
      (codes "tableName")
      0
      2
      string
    ≡ ok (
      get_elem? (values 2 cut (codes "tableName") string (token string 27 36 0 ∷ after_key)) 0,
      cut,
    )
find_key_in_array-values_example =
    find_key_in_array-values cut (codes "tableName") string (token object 0 99 2)
      (token string 27 36 0 ∷ after_key) 0 2 refl two_ended
