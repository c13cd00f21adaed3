-- ===== src/Text.antt =====
-- The C library's text functions that the program calls: numbers in decimal, white space, searching.
pub mod Decimal
use tau_shell.Prelude.{
  ℕ, zero, suc, ◌+◌, ◌-◌, ◌*◌, ◌/◌, ◌%◌, ◌^◌, Bool, true, false, ◌&&◌, ◌||◌, Option, none, some,
  List, [], ◌∷◌, ◌++◌, Bytes, ltb, leb, ◌==◌, if◌then◌else◌, drop, length,
}
use tau_shell.Prelude.Int.{ℤ, pos, negsuc}

abbrev pub is_digit : ℕ → Bool
is_digit c = leb b'0' c && leb c b'9'

-- isspace in the C locale
abbrev pub is_space : ℕ → Bool
is_space c = c == 32 || (leb 9 c && leb c 13)

unfoldable pub skip_spaces : Bytes → Bytes
skip_spaces [] = []
skip_spaces (c ∷ cs) = let rest = skip_spaces cs in if is_space c then rest else c ∷ cs

-- The digits from here on, with the value `acc` of those before; `none` at the end of the buffer.
unfoldable pub digits : ℕ → Bytes → Option ℕ
digits acc [] = none
digits acc (c ∷ cs) =
    let rest = digits (acc * 10 + (c - 48)) cs in if is_digit c then rest else some acc

abbrev pub negate : ℕ → ℤ
negate zero = pos 0
negate (suc n) = negsuc n

abbrev pub signed_digits : Bytes → Option ℤ
signed_digits [] = none
signed_digits (c ∷ cs) =
    if c == b'-'
    then (elim (digits 0 cs) [ none ↦ none | some n ↦ some (negate n) ])
    else if c == b'+'
    then (elim (digits 0 cs) [ none ↦ none | some n ↦ some (pos n) ])
    else (elim (digits 0 (c ∷ cs)) [ none ↦ none | some n ↦ some (pos n) ])

-- The number that strtol reads, before it is brought into range.
unfoldable pub parse_number : Bytes → Option ℤ
unfolding skip_spaces digits
parse_number s = signed_digits (skip_spaces s)

-- strtoll's answer out of range
unfoldable pub clamp_int64 : ℤ → ℤ
clamp_int64 (pos n) = if ltb n (2 ^ 63) then pos n else pos (2 ^ 63 - 1)
clamp_int64 (negsuc n) = if ltb n (2 ^ 63) then negsuc n else negsuc (2 ^ 63 - 1)

abbrev pub from_word32 : ℕ → ℤ
from_word32 n = if ltb n (2 ^ 31) then pos n else negsuc (2 ^ 32 - 1 - n)

-- the conversion of a long to an int
unfoldable pub to_int32 : ℤ → ℤ
to_int32 (pos n) = from_word32 (n % 2 ^ 32)
to_int32 (negsuc n) = from_word32 (2 ^ 32 - 1 - n % 2 ^ 32)

abbrev pub from_word8 : ℕ → ℤ
from_word8 n = if ltb n 128 then pos n else negsuc (255 - n)

-- the conversion of an int to an int8_t
unfoldable pub to_int8 : ℤ → ℤ
to_int8 (pos n) = from_word8 (n % 256)
to_int8 (negsuc n) = from_word8 (255 - n % 256)

-- The decimal digits of n, in front of `rest`. A number has fewer digits than its value plus one.
unfoldable pub show_onto : ℕ → ℕ → Bytes → Bytes
show_onto zero n rest = rest
show_onto (suc fuel) n rest =
    let more = show_onto fuel (n / 10) ((48 + n % 10) ∷ rest) in
    if ltb n 10 then (48 + n) ∷ rest else more

-- `%d`, and `<<` of an integer
unfoldable pub show_ℕ : ℕ → Bytes
unfolding show_onto
show_ℕ n = show_onto (suc n) n []

unfoldable pub show_ℤ : ℤ → Bytes
unfolding show_ℕ
show_ℤ (pos n) = show_ℕ n
show_ℤ (negsuc n) = b'-' ∷ show_ℕ (suc n)

abbrev pub to_lower : ℕ → ℕ
to_lower c = if leb b'A' c && leb c b'Z' then c + 32 else c

-- Whether the text starts with the word, in any case.
unfoldable pub starts_with_nocase : Bytes → Bytes → Bool
starts_with_nocase [] s = true
starts_with_nocase (c ∷ cs) [] = false
starts_with_nocase (c ∷ cs) (d ∷ ds) = to_lower c == to_lower d && starts_with_nocase cs ds

-- strcasestr: from the first place where the word stands
unfoldable pub strcasestr : Bytes → Bytes → Option Bytes
unfolding starts_with_nocase
strcasestr [] word = if starts_with_nocase word [] then some [] else none
strcasestr (c ∷ cs) word =
    let rest = strcasestr cs word in
    if starts_with_nocase word (c ∷ cs) then some (c ∷ cs) else rest
