-- ===== src/Json.antt =====
-- src/util/json_util.cpp: looking up keys in the tokens of jsmn. A `jsmntok_t*` is the rest of the
-- token array from where it points (`none` for NULL), so `i + 1` is the tail and reading past the
-- array is a fault. The lookups write NULs into the text, so each returns the buffer too.
pub mod Skip
pub mod Fields
pub mod Within
pub mod InArray
pub mod Flat
use tau_shell.Prelude.{
  ℕ, zero, suc, ◌/◌, Bool, true, false, not, ◌&&◌, Option, none, some, List, [], ◌∷◌, Bytes, length,
  drop, bytes_eq, codes, ◌==◌, if◌then◌else◌,
}
use tau_shell.Prelude.Int.{ℤ, pos, negsuc}
use tau_shell.Fault.{Res, ok, fault, null_pointer, out_of_bounds, no_fuel, ◌>>=◌}
use tau_shell.Memory.{store, c_string}
use tau_shell.Text.{parse_number, clamp_int64}

-- jsmntype_t and jsmntok_t of include/util/jsmn.h
pub data TokenType : Type 0 where
  primitive object array string : TokenType

pub record Token : Type 0 where
  pub type : TokenType
  pub start : ℤ
  pub end : ℤ
  pub size : ℕ

abbrev pub Tokens : Type 0
Tokens = List Token

abbrev pub type_eq : TokenType → TokenType → Bool
type_eq primitive primitive = true
type_eq object object = true
type_eq array array = true
type_eq string string = true
type_eq _ _ = false

-- the loop of `skip_item`: `skip` is its recursive call
unfoldable pub skip_items : (Tokens → Res Tokens) → ℕ → Tokens → Res Tokens
skip_items skip zero i = ok i
skip_items skip (suc n) i = do i' ← skip i; skip_items skip n i'

unfoldable pub skip_item_fuel : ℕ → Tokens → Res Tokens
unfolding skip_items
skip_item_fuel zero i = fault no_fuel
skip_item_fuel (suc fuel) [] = fault out_of_bounds
skip_item_fuel (suc fuel) (t ∷ i) =
    let rest = skip_items (skip_item_fuel fuel) t.size i in if t.size == 0 then ok i else rest

-- A call consumes a token, so the number of tokens bounds the depth of the recursion.
unfoldable pub skip_item : Tokens → Res Tokens
unfolding skip_item_fuel
skip_item i = skip_item_fuel (suc (length i)) i

-- `tokens[0].type != JSMN_OBJECT`, where `tokens` may be NULL
abbrev pub deref : Option Tokens → Res Token
deref none = fault null_pointer
deref (some []) = fault out_of_bounds
deref (some (t ∷ i)) = ok t

-- buf[i->end] = 0; strcmp(key, buf + i->start) == 0 && i[1].type == type
unfoldable pub key_matches : Tokens → Bytes → Bytes → TokenType → Res (Bool × Bytes)
key_matches [] buf key type = fault out_of_bounds
key_matches (t ∷ i) buf key type = do
  buf' ← store buf t.end 0
  text ← c_string buf' t.start
  if not (bytes_eq key text)
      then ok (false, buf')
      else do value ← deref (some i); ok (type_eq value.type type, buf')

-- one round of the loop of `find_key`, which passes by what is no string
unfoldable pub object_round : Tokens → Bytes → Bytes → TokenType → Res (Bool × Bytes)
unfolding key_matches
object_round i buf key type = do
  t ← deref (some i)
  if type_eq t.type string then key_matches i buf key type else ok (false, buf)

abbrev pub tail : Tokens → Tokens
tail [] = []
tail (t ∷ i) = i

unfoldable pub find_key_loop : ℕ → Tokens → Bytes → Bytes → TokenType → Res (Option Tokens × Bytes)
unfolding object_round skip_item
find_key_loop zero i buf key type = ok (none, buf)
find_key_loop (suc num_keys) i buf key type = do
  (hit, buf') ← object_round i buf key type
  if hit
      then ok (some (tail i), buf')
      else do value ← skip_item i; next ← skip_item value; find_key_loop num_keys next buf' key type

unfoldable pub find_key : Option Tokens → Bytes → Bytes → TokenType → Res (Option Tokens × Bytes)
unfolding find_key_loop
find_key tokens buf key type = do
  t ← deref tokens
  if not (type_eq t.type object) then ok (none, buf) else (elim tokens [
    | none ↦ fault null_pointer
    | some i ↦ find_key_loop (t.size / 2) (tail i) buf key type
  ])

-- one round of the loop of `find_key_in_array`, which passes by what is not set
unfoldable pub array_round : Tokens → Bytes → Bytes → TokenType → Res (Bool × Bytes)
unfolding key_matches
array_round i buf key type = do
  t ← deref (some i)
  elim t.start [ negsuc zero ↦ ok (false, buf) | _ ↦ key_matches i buf key type ]

unfoldable pub find_key_in_array_loop :
    ℕ → Tokens → ℕ → Bytes → Bytes → TokenType → Res (Option Tokens × Bytes)
unfolding array_round
find_key_in_array_loop zero i s buf key type = ok (none, buf)
find_key_in_array_loop (suc num_keys) i s buf key type = do
  (hit, buf') ← array_round i buf key type
  if not hit then find_key_in_array_loop num_keys (tail i) s buf' key type else (elim s [
    | zero ↦ ok (some (tail i), buf')
    | suc s' ↦ find_key_in_array_loop num_keys (tail i) s' buf' key type
  ])

unfoldable pub find_key_in_array :
    Option Tokens → Bytes → Bytes → ℕ → ℕ → TokenType → Res (Option Tokens × Bytes)
unfolding find_key_in_array_loop
find_key_in_array tokens buf key s num_keys type = do
  t ← deref tokens
  if not (type_eq t.type object) then ok (none, buf) else (elim tokens [
    | none ↦ fault null_pointer
    | some i ↦ find_key_in_array_loop num_keys (tail i) s buf key type
  ])

-- The value behind a key with its NUL written, or none for a NULL.
unfoldable pub cut_value : Option Tokens → Bytes → Res (Option ℤ × Bytes)
cut_value none buf = ok (none, buf)
cut_value (some i) buf = do t ← deref (some i); buf' ← store buf t.end 0; ok (some t.start, buf')

-- The text, and whether it was found.
unfoldable pub find_string : Option Tokens → Bytes → Bytes → Res ((Bytes × Bool) × Bytes)
unfolding cut_value
find_string tokens buf key = do
  (k, buf') ← find_key tokens buf key string
  (at, buf'') ← cut_value k buf'
  elim at [
    | none ↦ ok (([], false), buf'')
    | some start ↦
        ◌>>=◌ {B = (Bytes × Bool) × Bytes} (c_string buf'' start) (λ text. ok ((text, true), buf''))
  ]

abbrev number_at : Bytes → ℤ → Res ℤ
number_at buf (negsuc n) = fault out_of_bounds
number_at buf (pos n) = elim (parse_number (drop n buf)) [
  | none ↦ fault out_of_bounds
  | some i ↦ ok (clamp_int64 i)
]

-- 0 where the key is not found
unfoldable pub find_int : Option Tokens → Bytes → Bytes → Res (ℤ × Bytes)
unfolding cut_value
find_int tokens buf key = do
  (k, buf') ← find_key tokens buf key primitive
  (at, buf'') ← cut_value k buf'
  elim at [
    | none ↦ ok (pos 0, buf'')
    | some start ↦ ◌>>=◌ {B = ℤ × Bytes} (number_at buf'' start) (λ n. ok (n, buf''))
  ]

unfoldable pub find_bool : Option Tokens → Bytes → Bytes → Res (Bool × Bytes)
unfolding cut_value
find_bool tokens buf key = do
  (k, buf') ← find_key tokens buf key primitive
  (at, buf'') ← cut_value k buf'
  elim at [
    | none ↦ ok (false, buf'')
    | some start ↦
        ◌>>=◌ {B = Bool × Bytes} (c_string buf'' start)
          (λ text. ok (bytes_eq text (codes "true"), buf''))
  ]
