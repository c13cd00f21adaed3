-- ===== src/Tests/Platform.antt =====
-- A hexadecimal codec and a heap that have what `IsLawful` asks of libTAU.
use tau_shell.Prelude.{
  lt→ltb, sym, ◌∙◌, append-nil, ◌&&◌, ◌==◌, false, ℕ, zero, suc, ◌+◌, ◌-◌, ◌*◌, ◌/◌, ◌%◌, ◌≤◌, ◌<◌,
  ◌≡◌, refl, ap, Bool, true, Bool-cases, inl, inr, [], ◌∷◌, ◌++◌, Bytes, length, length-append,
  length-drop, take, drop, zeros, ltb, arith, if◌then◌else◌,
}
use tau_shell.Fault.{Res, ok, fault, fault-ne-ok, Yields-eq, out_of_bounds}
use tau_shell.Hex.{is_hex_digit, Platform, IsLawful, AllBytes, AllVisible}

abbrev digit : ℕ → ℕ
digit d = if ltb d 10 then 48 + d else 87 + d

abbrev value : ℕ → ℕ
value c = if ltb c 58 then c - 48 else c - 87

abbrev pub hex : Bytes → Bytes
hex [] = []
hex (b ∷ bs) = digit (b / 16) ∷ digit (b % 16) ∷ hex bs

-- It stops where one of two characters is no digit.
abbrev unhex : Bytes → Bytes
unhex [] = []
unhex (c ∷ []) = []
unhex (c ∷ (d ∷ cs)) =
    let rest = unhex cs in
    if is_hex_digit c && is_hex_digit d then (16 * value c + value d) ∷ rest else []

abbrev write : Bool → Bytes → Bytes → Res (Bool × Bytes)
write done xs out =
    if ltb (length out) (length xs)
    then fault out_of_bounds
    else ok (done, xs ++ drop (length xs) out)

abbrev all_digits : Bytes → Bool
all_digits text = length text == 2 * length (unhex text)

abbrev pub platform : Platform
platform = record {
  to_hex = hex;
  from_hex = λ text out. write (all_digits text) (unhex text) out;
  fresh = zeros;
  sha1_hash = λ b. if ltb (length b) 20 then fault out_of_bounds else ok (take 20 b);
}

length-hex : (b : Bytes) → length (hex b) ≡ 2 * length b
length-hex [] = refl
length-hex (c ∷ b) = omega (arith, length-hex b)

hex-AllVisible : (b : Bytes) → AllVisible (hex b)
hex-AllVisible [] = tt
hex-AllVisible (c ∷ b) = (ground arith, (ground arith, hex-AllVisible b))

value-digit : (d : ℕ) → d < 16 → value (digit d) ≡ d
value-digit d h = ground arith

is_hex_digit-digit : (d : ℕ) → d < 16 → is_hex_digit (digit d) ≡ true
is_hex_digit-digit d h = ground arith

unhex-hex_append : (b more : Bytes) → AllBytes b → unhex (hex b ++ more) ≡ b ++ unhex more
unhex-hex_append [] more h = refl
unhex-hex_append (c ∷ b) more (lt, h) =
    let e : 16 * (c / 16) + c % 16 ≡ c = omega arith in
    rw (is_hex_digit-digit (c / 16) (omega arith), is_hex_digit-digit (c % 16) (omega arith))
      (rw (value-digit (c / 16) (omega arith), value-digit (c % 16) (omega arith), e)
        (ap (λ t. c ∷ t) (unhex-hex_append b more h)))

unhex-hex : (b : Bytes) → AllBytes b → unhex (hex b) ≡ b
unhex-hex b h = ap unhex (sym (append-nil (hex b))) ∙ (unhex-hex_append b [] h ∙ append-nil b)

written-length :
    (all : Bool) (xs out : Bytes) {done : Bool} {out' : Bytes}
    → length xs ≤ length out
    → ◌≡◌ {A = Res (Bool × Bytes)} (ok (all, xs ++ drop (length xs) out)) (ok (done, out'))
    → length out' ≡ length out
written-length all xs out fits h =
    let e : length (xs ++ drop (length xs) out) ≡ length out =
      omega (arith, length-append xs (drop (length xs) out), length-drop (length xs) out) in
    Yields-eq (λ r. length r.1 ≡ length out) (ok (all, xs ++ drop (length xs) out)) e h

write-length :
    (all : Bool) (xs out : Bytes) {done : Bool} {out' : Bytes}
    → write all xs out ≡ ok (done, out')
    → length out' ≡ length out
write-length all xs out h = elim (Bool-cases (ltb (length out) (length xs))) [
  | inl small ↦ absurd (fault-ne-ok (rw small at h))
  | inr fits ↦ written-length all xs out (ground arith) (rw fits at h)
]

take_exact : (n : ℕ) (b : Bytes) → length b ≡ n → take n b ≡ b
take_exact zero [] h = refl
take_exact (suc n) [] h = refl
take_exact zero (c ∷ b) h = absurd (omega arith)
take_exact (suc n) (c ∷ b) h = rw (take_exact n b (omega arith))

length-zeros : (n : ℕ) → length (zeros n) ≡ n
length-zeros zero = refl
length-zeros (suc n) = ap suc (length-zeros n)

hex_read :
    (b out : Bytes)
    → AllBytes b
    → length b ≤ length out
    → platform.from_hex (hex b) out ≡ ok (true, b ++ drop (length b) out)
hex_read b out bytes fits =
    let room : ltb (length out) (length b) ≡ false = ground arith in
    let whole : (length (hex b) == 2 * length b) ≡ true = ground (arith, length-hex b) in
    rw (unhex-hex b bytes) (rw (room, whole))

hex_small :
    (b more out : Bytes)
    → AllBytes b
    → length out < length b
    → platform.from_hex (hex b ++ more) out ≡ fault out_of_bounds
hex_small b more out bytes small =
    let full : ltb (length out) (length (b ++ unhex more)) ≡ true =
      lt→ltb _ _ (omega (arith, length-append {0} b (unhex more), small)) in
    rw (unhex-hex_append b more bytes) (rw full)

pub lawful : IsLawful platform
lawful = record {
  length-to_hex = length-hex;
  to_hex-AllVisible = hex-AllVisible;
  from_hex-to_hex = λ b out bytes fits. hex_read b out bytes fits;
  from_hex-small = λ b more out bytes small. hex_small b more out bytes small;
  length-from_hex = λ text out e. write-length (all_digits text) (unhex text) out e;
  sha1_hash-exact = λ b size. rw size (rw (take_exact 20 b size));
  length-fresh = length-zeros;
}
