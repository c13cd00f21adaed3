-- ===== src/Json/Flat/Cuts.antt =====
-- `find_key` of src/util/json_util.cpp in an object of strings and numbers.
use tau_shell.Prelude.{
  ℕ, ◌≤◌, ◌≡◌, ap, ◌∙◌, subst, sym, Bool-cases, inl, inr, some, some-injective, List, [], ◌∷◌, ◌++◌,
  Bytes, set, bytes_eq, ◌&&◌, arith, if◌then◌else◌,
}
use tau_shell.Prelude.Int.{pos}
use tau_shell.Fault.{ok}
use tau_shell.Json.{TokenType, Tokens, type_eq, find_key}
use tau_shell.Json.Skip.{flatten, flatten_all}
use tau_shell.Json.Fields.{
  InText, StartAbove, members, lookup_field, cut_keys, find_key-lookup_field,
}
use tau_shell.Json.Flat.{
  Entry, fields_of, value_token, object_tokens, lookup, Stands, Above, AllStand, Stands-set,
  AllStand-set, Above-le, Above-Clear,
}

-- A lookup leaves every entry, with its NULs behind the keys that it reads.
abbrev pub cut : Bytes → TokenType → List Entry → Bytes → Bytes
cut key type es buf = cut_keys key type (fields_of es) buf

Stands-cut :
    (buf key text : Bytes) (type : TokenType) (i j : ℕ) (es : List Entry)
    → Above j es
    → Stands buf i j text
    → Stands (cut key type es buf) i j text
Stands-cut buf key text type i j [] above h = h
Stands-cut buf key text type i j (a ∷ es) (lt, le, gt, ge, above) h =
    let h' = Stands-set buf i j a.key_end text (inr (omega arith)) h in
    elim (Bool-cases (bytes_eq key a.key && type_eq a.type type)) [
      | inl hit ↦ rw hit h'
      | inr miss ↦ rw miss (
          Stands-cut (set buf a.key_end 0) key text type i j es
            (Above-le j a.value_end es (omega arith) above) h')
    ]

pub AllStand-cut :
    (buf key : Bytes) (type : TokenType) (e : ℕ) (es : List Entry)
    → Above e es
    → AllStand buf es
    → AllStand (cut key type es buf) es
AllStand-cut buf key type e [] above h = tt
AllStand-cut buf key type e (a ∷ es) (lt, le, gt, ge, above) (hk, hv, h) =
    let buf' = set buf a.key_end 0 in
    let hk' = Stands-set buf a.key_start a.key_end a.key_end a.key (inr (omega arith)) hk in
    let hv' = Stands-set buf a.value_start a.value_end a.key_end a.value (inl gt) hv in
    let h' =
      AllStand-set buf a.key_end es
        (Above-Clear a.key_end es (Above-le a.key_end a.value_end es (omega arith) above)) h in
    let here = bytes_eq key a.key && type_eq a.type type in
    elim (Bool-cases here) [
      | inl hit ↦
          let stop : cut key type (a ∷ es) buf ≡ buf' = rw hit in
          subst (λ b. AllStand b (a ∷ es)) (sym stop) (hk', hv', h')
      | inr miss ↦
          let next : cut key type (a ∷ es) buf ≡ cut key type es buf' = rw miss in
          let above' = Above-le a.key_end a.value_end es (omega arith) above in
          subst (λ b. AllStand b (a ∷ es)) (sym next)
            (
              Stands-cut buf' key a.key type a.key_start a.key_end es above' hk',
              Stands-cut buf' key a.value type a.value_start a.value_end es above hv',
              AllStand-cut buf' key type a.value_end es above h',
            )
    ]

StartAbove-Above : (d e : ℕ) (es : List Entry) → d ≤ e → Above e es → StartAbove d (fields_of es)
StartAbove-Above d e [] le h = tt
StartAbove-Above d e (a ∷ es) le (lt, ends, gt, ge, h) =
    (omega arith, StartAbove-Above d a.value_end es (omega arith) h)

InText-AllStand :
    (buf : Bytes) (e : ℕ) (es : List Entry)
    → Above e es
    → AllStand buf es
    → InText buf (fields_of es)
InText-AllStand buf e [] above h = tt
InText-AllStand buf e (a ∷ es) (lt, le, gt, ge, above) (hk, hv, h) = (
  hk.0,
  StartAbove-Above a.key_end a.value_end es (omega arith) above,
  InText-AllStand buf a.value_end es above h,
)

-- The tokens from a found value on.
abbrev pub from_value : Bytes → TokenType → List Entry → Tokens → Tokens
from_value key type [] rest = rest
from_value key type (a ∷ es) rest =
    if bytes_eq key a.key && type_eq a.type type
    then flatten_all (members (fields_of es)) ++ rest
    else from_value key type es rest

lookup_field-lookup :
    (key : Bytes) (type : TokenType) (es : List Entry) (a : Entry) (rest : Tokens)
    → lookup key type es ≡ some a
    → lookup_field key type (fields_of es) rest ≡ some (value_token a ∷ from_value key type es rest)
unfolding flatten
lookup_field-lookup key type [] a rest found = absurd (cc found)
lookup_field-lookup key type (b ∷ es) a rest found =
    elim (Bool-cases (bytes_eq key b.key && type_eq b.type type)) [
      | inl hit ↦
          let same : b ≡ a = some-injective b a (rw hit at found) in
          rw hit
            (ap (λ c. some (value_token c ∷ flatten_all (members (fields_of es)) ++ rest)) same)
      | inr miss ↦ rw miss (lookup_field-lookup key type es a rest (rw miss at found))
    ]

-- `find_key` finds what the lookup finds.
pub find_key-lookup :
    (start end e : ℕ) (es : List Entry) (rest : Tokens) (buf key : Bytes) (type : TokenType)
    (a : Entry)
    → Above e es
    → AllStand buf es
    → lookup key type es ≡ some a
    → find_key (some (object_tokens start end es rest)) buf key type
      ≡ ok (some (value_token a ∷ from_value key type es rest), cut key type es buf)
find_key-lookup start end e es rest buf key type a above h found =
    find_key-lookup_field (pos start) (pos end) (fields_of es) rest buf key type
      (InText-AllStand buf e es above h)
    ∙ ap (λ r. ok (r, cut key type es buf)) (lookup_field-lookup key type es a rest found)
