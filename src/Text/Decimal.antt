-- ===== src/Text/Decimal.antt =====
-- Printing a number and reading it back.
use tau_shell.Prelude.{
  ℕ, zero, suc, ◌+◌, ◌-◌, ◌*◌, ◌/◌, ◌%◌, ◌<◌, ◌≡◌, refl, ap, sym, some, false, [], ◌∙◌, ◌==◌, ◌∷◌,
  ◌++◌, Bytes, arith, Bool-cases, inl, inr, ltb,
}
use tau_shell.Prelude.Int.{ℤ, pos, negsuc}
use tau_shell.Text.{
  is_digit, signed_digits, is_space, skip_spaces, parse_number, digits, show_onto, show_ℕ, show_ℤ,
}

digits_digit :
    (acc d : ℕ) (rest : Bytes) → d < 10 → digits acc ((48 + d) ∷ rest) ≡ digits (acc * 10 + d) rest
unfolding digits
digits_digit acc d rest h = let e : 48 + d - 48 ≡ d = omega arith in rw e (ground arith)

digits-show_onto :
    (fuel n : ℕ) (rest : Bytes) → n < fuel → digits 0 (show_onto fuel n rest) ≡ digits n rest
unfolding show_onto
digits-show_onto zero n rest h = elim h [ ]
digits-show_onto (suc fuel) n rest h = elim (Bool-cases (ltb n 10)) [
  | inl small ↦ rw small (
      let lt : n < 10 = ground arith in
      let e : 0 * 10 + n ≡ n = omega arith in digits_digit 0 n rest lt ∙ rw e)
  | inr large ↦
      let e : n / 10 * 10 + n % 10 ≡ n = omega arith in
      rw large (
        digits-show_onto fuel (n / 10) _ (ground arith)
        ∙ (digits_digit (n / 10) (n % 10) rest (omega arith) ∙ rw e))
]

-- Reading back a printed number goes on with the rest, and the number as the value so far.
pub digits-show_ℕ : (n : ℕ) (rest : Bytes) → digits 0 (show_onto (suc n) n rest) ≡ digits n rest
digits-show_ℕ n rest = digits-show_onto (suc n) n rest (omega arith)

pub show_onto-append :
    (fuel n : ℕ) (xs rest : Bytes) → show_onto fuel n xs ++ rest ≡ show_onto fuel n (xs ++ rest)
unfolding show_onto
show_onto-append zero n xs rest = refl
show_onto-append (suc fuel) n xs rest =
    ground (arith, show_onto-append fuel (n / 10) ((48 + n % 10) ∷ xs) rest)

-- A printed number starts with a digit.
show_onto-head :
    (fuel n : ℕ) (rest : Bytes)
    → n < fuel
    → (d : ℕ) × (ds : Bytes) × (d < 10) × (show_onto fuel n rest ≡ (48 + d) ∷ ds)
unfolding show_onto
show_onto-head zero n rest h = elim h [ ]
show_onto-head (suc fuel) n rest h = elim (Bool-cases (ltb n 10)) [
  | inl small ↦ (n, rest, ground arith, rw small)
  | inr large ↦
      let (d, ds, lt, e) = show_onto-head fuel (n / 10) ((48 + n % 10) ∷ rest) (ground arith) in
      (d, ds, lt, rw large e)
]

digits_stop : (n c : ℕ) (rest : Bytes) → is_digit c ≡ false → digits n (c ∷ rest) ≡ some n
unfolding digits
digits_stop n c rest stop = rw stop

parse_number_digit :
    (d : ℕ) (ds : Bytes) {n : ℕ}
    → d < 10
    → digits 0 ((48 + d) ∷ ds) ≡ some n
    → parse_number ((48 + d) ∷ ds) ≡ some (pos n)
unfolding parse_number skip_spaces
parse_number_digit d ds lt e =
    let spaces : is_space (48 + d) ≡ false = ground arith in
    let minus : (48 + d == b'-') ≡ false = ground arith in
    let plus : (48 + d == b'+') ≡ false = ground arith in
    rw (spaces, signed_digits) (rw (minus, plus, e))

-- A printed number is read back, where no digit follows it.
pub parse_number-show_ℕ :
    (n c : ℕ) (rest : Bytes)
    → is_digit c ≡ false
    → parse_number (show_ℕ n ++ c ∷ rest) ≡ some (pos n)
unfolding show_ℕ
parse_number-show_ℕ n c rest stop =
    let (d, ds, lt, e) = show_onto-head (suc n) n (c ∷ rest) (omega arith) in
    let value : digits 0 ((48 + d) ∷ ds) ≡ some n =
      ap (digits 0) (sym e) ∙ (digits-show_ℕ n (c ∷ rest) ∙ digits_stop n c rest stop) in
    ap parse_number (show_onto-append (suc n) n [] (c ∷ rest) ∙ e)
    ∙ parse_number_digit d ds lt value

parse_number_minus :
    (n : ℕ) (ds : Bytes) → digits 0 ds ≡ some (suc n) → parse_number (b'-' ∷ ds) ≡ some (negsuc n)
unfolding parse_number skip_spaces
parse_number_minus n ds e = rw e

-- So is one with a sign.
pub parse_number-show_ℤ :
    (i : ℤ) (c : ℕ) (rest : Bytes)
    → is_digit c ≡ false
    → parse_number (show_ℤ i ++ c ∷ rest) ≡ some i
unfolding show_ℤ show_ℕ
parse_number-show_ℤ (pos n) c rest stop = parse_number-show_ℕ n c rest stop
parse_number-show_ℤ (negsuc n) c rest stop = parse_number_minus n (show_ℕ (suc n) ++ c ∷ rest) (
    ap (digits 0) (show_onto-append (suc (suc n)) (suc n) [] (c ∷ rest))
    ∙ (digits-show_ℕ (suc n) (c ∷ rest) ∙ digits_stop (suc n) c rest stop))
