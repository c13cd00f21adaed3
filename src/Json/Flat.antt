-- ===== src/Json/Flat.antt =====
-- Objects whose values are strings and numbers, as the requests of src/handler/tau_handler.cpp have
-- them: the lookups of src/util/json_util.cpp leave the text of every key and value as it is.
pub mod Cuts
use tau_shell.Prelude.{
  ℕ, ltb, ◌≤◌, ◌<◌, ◌≡◌, refl, ap, ◌∙◌, subst, sym, false, Bool-cases, inl, inr, ◌⊎◌, Option, none,
  some, some-injective, List, [], ◌∷◌, ◌++◌, Bytes, set, bytes_eq, ◌&&◌, arith, if◌then◌else◌,
}
use tau_shell.Prelude.Int.{pos}
use tau_shell.Fault.{ok}
use tau_shell.Text.{is_digit}
use tau_shell.Memory.Laws.{HasText, HasText-set_below, HasText-set_above, HasText-set_end}
use tau_shell.Json.{Token, TokenType, Tokens, object, type_eq, find_key}
use tau_shell.Json.Skip.{node, nil, flatten, flatten_all}
use tau_shell.Json.Fields.{
  Field, InText, StartAbove, members, lookup_field, cut_keys, find_key-lookup_field,
}

-- A key, the type of its value, and where the two stand.
pub record Entry : Type 0 where
  pub key_start : ℕ
  pub key_end : ℕ
  pub key : Bytes
  pub type : TokenType
  pub value_start : ℕ
  pub value_end : ℕ
  pub value : Bytes

abbrev pub value_token : Entry → Token
value_token a = record { type = a.type; start = pos a.value_start; end = pos a.value_end; size = 0 }

abbrev pub field_of : Entry → Field
field_of a = record {
  key_start = a.key_start;
  key_end = a.key_end;
  key = a.key;
  value = node a.type (pos a.value_start) (pos a.value_end) nil;
}

abbrev pub fields_of : List Entry → List Field
fields_of [] = []
fields_of (a ∷ es) = field_of a ∷ fields_of es

-- The tokens of the object, as a parser makes them, and those that follow.
abbrev pub object_tokens : ℕ → ℕ → List Entry → Tokens → Tokens
object_tokens start end es rest =
    flatten (node object (pos start) (pos end) (members (fields_of es))) ++ rest

-- The value of the first entry that has the key and the type.
abbrev pub lookup : Bytes → TokenType → List Entry → Option Entry
lookup key type [] = none
lookup key type (a ∷ es) =
    if bytes_eq key a.key && type_eq a.type type then some a else lookup key type es

-- The text stands there, and no digit follows it.
abbrev pub Stands : Bytes → ℕ → ℕ → Bytes → Type 0
Stands buf i j text = (h : HasText buf i j text) × (is_digit h.last ≡ false)

-- The entries stand above position `e`, one behind the other, with room between them.
abbrev pub Above : ℕ → List Entry → Type 0
Above e [] = Unit
Above e (a ∷ es) =
    (e < a.key_start)
    × (a.key_start ≤ a.key_end)
    × (a.key_end < a.value_start)
    × (a.value_start ≤ a.value_end)
    × Above a.value_end es

abbrev pub AllStand : Bytes → List Entry → Type 0
AllStand buf [] = Unit
AllStand buf (a ∷ es) =
    Stands buf a.key_start a.key_end a.key
    × Stands buf a.value_start a.value_end a.value
    × AllStand buf es

-- A NUL at position `e` leaves a text that ends there or before, and one that starts behind.
abbrev pub Outside : ℕ → ℕ → ℕ → Type 0
Outside e i j = (e < i) ⊎ (j ≤ e)

pub HasText-set_outside :
    (buf : Bytes) (i j e : ℕ) (text : Bytes)
    → Outside e i j
    → HasText buf i j text
    → HasText (set buf e 0) i j text
HasText-set_outside buf i j e text (inl lt) h = HasText-set_below buf i j e 0 text lt h
HasText-set_outside buf i j e text (inr le) h = elim (Bool-cases (ltb j e)) [
  | inl lt ↦ HasText-set_above buf i j e 0 text (ground arith) h
  | inr ge ↦
      let same : j ≡ e = ground arith in
      subst (λ p. HasText (set buf p 0) i j text) same (HasText-set_end buf i j 0 text h)
]

pub Stands-set :
    (buf : Bytes) (i j e : ℕ) (text : Bytes)
    → Outside e i j
    → Stands buf i j text
    → Stands (set buf e 0) i j text
unfolding HasText-set_below HasText-set_above HasText-set_end
Stands-set buf i j e text (inl lt) (h, stop) = (HasText-set_below buf i j e 0 text lt h, stop)
Stands-set buf i j e text (inr le) (h, stop) = elim (Bool-cases (ltb j e)) [
  | inl lt ↦ (HasText-set_above buf i j e 0 text (ground arith) h, stop)
  | inr ge ↦
      let same : j ≡ e = ground arith in
      subst (λ p. Stands (set buf p 0) i j text) same (HasText-set_end buf i j 0 text h, refl)
]

abbrev pub Clear : ℕ → List Entry → Type 0
Clear e [] = Unit
Clear e (a ∷ es) =
    Outside e a.key_start a.key_end × Outside e a.value_start a.value_end × Clear e es

pub AllStand-set :
    (buf : Bytes) (e : ℕ) (es : List Entry)
    → Clear e es
    → AllStand buf es
    → AllStand (set buf e 0) es
AllStand-set buf e [] c h = tt
AllStand-set buf e (a ∷ es) (k, v, c) (hk, hv, h) =
    (Stands-set buf _ _ e _ k hk, Stands-set buf _ _ e _ v hv, AllStand-set buf e es c h)

pub Above-le : (d e : ℕ) (es : List Entry) → d ≤ e → Above e es → Above d es
Above-le d e [] le h = tt
Above-le d e (a ∷ es) le (lt, ends, gt, ge, h) = (omega arith, ends, gt, ge, h)

pub Above-Clear : (e : ℕ) (es : List Entry) → Above e es → Clear e es
Above-Clear e [] h = tt
Above-Clear e (a ∷ es) (lt, le, gt, ge, h) =
    (inl lt, inl (omega arith), Above-Clear e es (Above-le e a.value_end es (omega arith) h))

-- What a lookup finds stands above, and its end is clear of all entries.
lookup-Clear :
    (key : Bytes) (type : TokenType) (e : ℕ) (es : List Entry) (a : Entry)
    → Above e es
    → lookup key type es ≡ some a
    → (e < a.value_end) × Clear a.value_end es
lookup-Clear key type e [] a h found = absurd (cc found)
lookup-Clear key type e (b ∷ es) a (lt, le, gt, ge, h) found =
    elim (Bool-cases (bytes_eq key b.key && type_eq b.type type)) [
      | inl hit ↦
          let same : b ≡ a = some-injective b a (rw hit at found) in
          subst (λ c. (e < c.value_end) × Clear c.value_end (b ∷ es)) same
            (omega arith, (inr (omega arith), inr (omega arith), Above-Clear b.value_end es h))
      | inr miss ↦
          let (above, clear) = lookup-Clear key type b.value_end es a h (rw miss at found) in
          (omega arith, (inr (omega arith), inr (omega arith), clear))
    ]

pub lookup-Stands :
    (buf key : Bytes) (type : TokenType) (es : List Entry) (a : Entry)
    → AllStand buf es
    → lookup key type es ≡ some a
    → Stands buf a.value_start a.value_end a.value
lookup-Stands buf key type [] a h found = absurd (cc found)
lookup-Stands buf key type (b ∷ es) a (hk, hv, h) found =
    elim (Bool-cases (bytes_eq key b.key && type_eq b.type type)) [
      | inl hit ↦
          let same : b ≡ a = some-injective b a (rw hit at found) in
          subst (λ c. Stands buf c.value_start c.value_end c.value) same hv
      | inr miss ↦ lookup-Stands buf key type es a h (rw miss at found)
    ]

-- A NUL behind a value that is found leaves every entry.
pub AllStand-set_end :
    (buf key : Bytes) (type : TokenType) (e : ℕ) (es : List Entry) (a : Entry)
    → Above e es
    → lookup key type es ≡ some a
    → AllStand buf es
    → AllStand (set buf a.value_end 0) es
AllStand-set_end buf key type e es a above found h =
    AllStand-set buf a.value_end es ((lookup-Clear key type e es a above found).1) h
