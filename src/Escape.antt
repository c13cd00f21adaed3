-- ===== src/Escape.antt =====
-- src/util/escape_json.cpp: text as the content of a JSON string. iconv is a parameter; its mutex
-- makes the conversion one step.
pub mod Laws
use tau_shell.Prelude.{
  ℕ, ◌+◌, ◌-◌, ◌*◌, ◌/◌, ◌%◌, Bool, true, false, not, ◌&&◌, Option, none, some, List, [], ◌∷◌, ◌++◌,
  Bytes, codes, length, take, ltb, ◌==◌, if◌then◌else◌,
}

-- What iconv answers and leaves behind: whether it succeeded, the bytes of input and of output that
-- are left, and the array, which has as many numbers as the input has bytes.
pub record Converted : Type 0 where
  pub succeeded : Bool
  pub insize : ℕ
  pub outsize : ℕ
  pub wide : List ℕ

-- a digit of "%x"
abbrev pub hex_digit : ℕ → ℕ
hex_digit d = if ltb d 10 then 48 + d else 87 + d

-- "%04x" of a number below 65536
unfoldable pub hex_4 : ℕ → Bytes
hex_4 n =
    hex_digit (n / 4096)
    ∷ hex_digit (n / 256 % 16)
    ∷ hex_digit (n / 16 % 16)
    ∷ hex_digit (n % 16)
    ∷ []

abbrev pub is_plain : ℕ → Bool
is_plain c = ltb 31 c && (ltb c 128 && (not (c == b'"') && not (c == b'\\')))

-- the switch, and its default, which cuts the number to 16 bits
unfoldable pub escape_code : ℕ → Bytes
escape_code c =
    if c == b'"'
    then codes "\""
    else if c == b'\\'
    then codes "\\"
    else if c == 10
    then codes "n"
    else if c == 13
    then codes "r"
    else if c == 9
    then codes "t"
    else if c == 8
    then codes "b"
    else if c == 12
    then codes "f"
    else b'u' ∷ hex_4 (c % 65536)

unfoldable pub escape_char : ℕ → Bytes
escape_char c = if is_plain c then c ∷ [] else b'\\' ∷ escape_code c

unfoldable pub escape_all : List ℕ → Bytes
escape_all [] = []
escape_all (s ∷ wide) = escape_char s ++ escape_all wide

abbrev pub iconv_error : Bytes
iconv_error = codes "(iconv error)"

-- `iconv` is none where it could not be opened.
unfoldable pub escape_json : Option (Bytes → Converted) → Bytes → Bytes
escape_json iconv [] = []
escape_json none (c ∷ cs) = iconv_error
escape_json (some iconv) (c ∷ cs) =
    let out = iconv (c ∷ cs) in
    if not out.succeeded
    then iconv_error
    else if not (out.insize == 0)
    then iconv_error
    else if ltb (length (c ∷ cs) * 4) out.outsize
    then iconv_error
    else escape_all (take (length (c ∷ cs) - out.outsize / 4) out.wide)
