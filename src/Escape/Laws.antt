-- ===== src/Escape/Laws.antt =====
-- What src/util/escape_json.cpp escapes, a reader of JSON strings reads back.
use tau_shell.Prelude.{
  ℕ, ◌+◌, ◌-◌, ◌*◌, ◌/◌, ◌%◌, ◌<◌, ◌≤◌, ◌≡◌, refl, ◌∙◌, Bool-cases, ==_iff, inl, inr, true, false,
  Option, none, some, List, [], ◌∷◌, ◌++◌, Bytes, length, take, ltb, leb, not, ◌&&◌, ◌||◌, Bool,
  ◌==◌, if◌then◌else◌, arith,
}
use tau_shell.Escape.{
  Converted, hex_digit, hex_4, is_plain, escape_code, escape_char, escape_all, escape_json,
}

abbrev hex_value : ℕ → ℕ
hex_value c = if ltb c 58 then c - 48 else c - 87

abbrev hex_number : ℕ → ℕ → ℕ → ℕ → ℕ
hex_number a b c d = ((hex_value a * 16 + hex_value b) * 16 + hex_value c) * 16 + hex_value d

abbrev and_then : ℕ → Option (List ℕ) → Option (List ℕ)
and_then c none = none
and_then c (some cs) = some (c ∷ cs)

-- the characters that stand for themselves behind a backslash, and the letters
abbrev simple : ℕ → ℕ
simple e =
    if e == b'n'
    then 10
    else if e == b'r'
    then 13
    else if e == b't'
    then 9
    else if e == b'b'
    then 8
    else if e == b'f'
    then 12
    else e

abbrev is_hex_digit : ℕ → Bool
is_hex_digit c = (leb b'0' c && leb c b'9') || (leb b'a' c && leb c b'f')

-- What may stand behind a backslash, but for the u.
abbrev is_escape : ℕ → Bool
is_escape e =
    e == b'"'
    || (e == b'\\'
        || (e == b'/' || (e == b'n' || (e == b'r' || (e == b't' || (e == b'b' || e == b'f'))))))

abbrev only_if : Bool → Option (List ℕ) → Option (List ℕ)
only_if false cs = none
only_if true cs = cs

-- The content of a JSON string, read into code units, as RFC 8259 has it: no quote and no control
-- character stands in it, and nothing else behind a backslash.
unfoldable mutual
  pub read_string : Bytes → Option (List ℕ)
  read_string [] = some []
  read_string (c ∷ cs) = elim (c == b'\\') [
    | true ↦ read_escape cs
    | false ↦ only_if (ltb 31 c && not (c == b'"')) (and_then c (read_string cs))
  ]

  pub read_escape : Bytes → Option (List ℕ)
  read_escape [] = none
  read_escape (e ∷ cs) = elim (e == b'u') [
    | true ↦ read_hex cs
    | false ↦ only_if (is_escape e) (and_then (simple e) (read_string cs))
  ]

  pub read_hex : Bytes → Option (List ℕ)
  read_hex (a ∷ (b ∷ (c ∷ (d ∷ cs)))) =
      only_if (is_hex_digit a && (is_hex_digit b && (is_hex_digit c && is_hex_digit d)))
        (and_then (hex_number a b c d) (read_string cs))
  read_hex _ = none

is_hex_digit-digit : (d : ℕ) → d < 16 → is_hex_digit (hex_digit d) ≡ true
is_hex_digit-digit d h = ground arith

value-digit : (d : ℕ) → d < 16 → hex_value (hex_digit d) ≡ d
value-digit d h = ground arith

read_hex-hex_4 :
    (n : ℕ) (rest : Bytes) → n < 65536 → read_hex (hex_4 n ++ rest) ≡ and_then n (read_string rest)
unfolding hex_4 read_hex
read_hex-hex_4 n rest h =
    let e : ((n / 4096 * 16 + n / 256 % 16) * 16 + n / 16 % 16) * 16 + n % 16 ≡ n = omega arith in
    rw (
      is_hex_digit-digit (n / 4096) (omega arith),
      is_hex_digit-digit (n / 256 % 16) (omega arith),
      is_hex_digit-digit (n / 16 % 16) (omega arith),
      is_hex_digit-digit (n % 16) (omega arith),
      value-digit (n / 4096) (omega arith),
      value-digit (n / 256 % 16) (omega arith),
      value-digit (n / 16 % 16) (omega arith),
      value-digit (n % 16) (omega arith),
      e,
    )

-- none of the characters that have a letter
abbrev IsOther : ℕ → Type 0
IsOther c =
    ((c == 34) ≡ false)
    × ((c == 92) ≡ false)
    × ((c == 10) ≡ false)
    × ((c == 13) ≡ false)
    × ((c == 9) ≡ false)
    × ((c == 8) ≡ false)
    × ((c == 12) ≡ false)

read_escape_default :
    (c : ℕ) (rest : Bytes)
    → c < 65536
    → IsOther c
    → read_escape (escape_code c ++ rest) ≡ and_then c (read_string rest)
unfolding escape_code read_escape
read_escape_default c rest h (a, b, n, r, t, k, f) =
    let e : c % 65536 ≡ c = omega arith in rw (a, b, n, r, t, k, f, e) (read_hex-hex_4 c rest h)

read_escape-escape_code :
    (c : ℕ) (rest : Bytes)
    → c < 65536
    → read_escape (escape_code c ++ rest) ≡ and_then c (read_string rest)
unfolding escape_code read_escape
read_escape-escape_code c rest h = elim (Bool-cases (c == 34)) [
  | inl e ↦ rw ((==_iff c 34).0 e) refl
  | inr n34 ↦ elim (Bool-cases (c == 92)) [
    | inl e ↦ rw ((==_iff c 92).0 e) refl
    | inr n92 ↦ elim (Bool-cases (c == 10)) [
      | inl e ↦ rw ((==_iff c 10).0 e) refl
      | inr n10 ↦ elim (Bool-cases (c == 13)) [
        | inl e ↦ rw ((==_iff c 13).0 e) refl
        | inr n13 ↦ elim (Bool-cases (c == 9)) [
          | inl e ↦ rw ((==_iff c 9).0 e) refl
          | inr n9 ↦ elim (Bool-cases (c == 8)) [
            | inl e ↦ rw ((==_iff c 8).0 e) refl
            | inr n8 ↦ elim (Bool-cases (c == 12)) [
              | inl e ↦ rw ((==_iff c 12).0 e) refl
              | inr n12 ↦ read_escape_default c rest h (n34, n92, n10, n13, n9, n8, n12)
            ]
          ]
        ]
      ]
    ]
  ]
]

read_string-plain :
    (c : ℕ) (rest : Bytes)
    → is_plain c ≡ true
    → read_string (c ∷ rest) ≡ and_then c (read_string rest)
unfolding read_string
read_string-plain c rest plain =
    let no_backslash : (c == 92) ≡ false = ground arith in
    let allowed : (ltb 31 c && not (c == 34)) ≡ true = ground arith in
    rw (no_backslash, read_string) (rw allowed)

read_string-escape_char :
    (c : ℕ) (rest : Bytes)
    → c < 65536
    → read_string (escape_char c ++ rest) ≡ and_then c (read_string rest)
unfolding escape_char read_string
read_string-escape_char c rest h = elim (Bool-cases (is_plain c)) [
  | inl plain ↦ rw plain (read_string-plain c rest plain)
  | inr other ↦ rw other (read_escape-escape_code c rest h)
]

abbrev pub AllUnits : List ℕ → Type 0
AllUnits [] = Unit
AllUnits (c ∷ cs) = (c < 65536) × AllUnits cs

read_string-escape_all : (wide : List ℕ) → AllUnits wide → read_string (escape_all wide) ≡ some wide
unfolding escape_all read_string
read_string-escape_all [] h = refl
read_string-escape_all (c ∷ wide) (lt, h) =
    read_string-escape_char c (escape_all wide) lt ∙ rw (read_string-escape_all wide h)

-- A text that iconv converts as a whole into numbers below 65536 is escaped to a content that a
-- reader of JSON strings reads back as these numbers.
pub read_string-escape_json :
    (iconv : Bytes → Converted) (c : ℕ) (cs : Bytes)
    → (iconv (c ∷ cs)).succeeded ≡ true
    → (iconv (c ∷ cs)).insize ≡ 0
    → (iconv (c ∷ cs)).outsize ≤ length (c ∷ cs) * 4
    → let wide = take (length (c ∷ cs) - (iconv (c ∷ cs)).outsize / 4) (iconv (c ∷ cs)).wide in
      AllUnits wide → read_string (escape_json (some iconv) (c ∷ cs)) ≡ some wide
unfolding escape_json
read_string-escape_json iconv c cs done all fits units =
    let small : ltb (length (c ∷ cs) * 4) (iconv (c ∷ cs)).outsize ≡ false = ground arith in
    rw (done, all, small) (read_string-escape_all _ units)
