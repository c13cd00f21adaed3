-- ===== src/Auth/File/Reload/Scan.antt =====
-- fscanf on what fprintf wrote: words and numbers are read back.
use tau_shell.Prelude.{
  ℕ, zero, suc, ◌+◌, ◌*◌, ◌-◌, ◌/◌, ◌%◌, ◌^◌, ◌≤◌, ◌<◌, ◌≡◌, ◌≢◌, refl, ◌∙◌, ap, true, false, some,
  [], ◌∷◌, ◌++◌, Bytes, length, Bool-cases, inl, inr, arith, ltb,
}
use tau_shell.Prelude.Int.{pos}
use tau_shell.Text.{is_space, is_digit, skip_spaces, show_onto, show_ℤ, to_int32, clamp_int64}
use tau_shell.Text.Decimal.{show_onto-append}
use tau_shell.Hex.{AllVisible}
use tau_shell.Auth.File.{not_empty, scan_chars, scan_word, scan_digits, scan_int}

-- A word has no white space, and is not empty.
abbrev pub NoSpace : Bytes → Type 0
NoSpace [] = Unit
NoSpace (c ∷ cs) = (is_space c ≡ false) × NoSpace cs

pub AllVisible-NoSpace : (s : Bytes) → AllVisible s → NoSpace s
AllVisible-NoSpace [] h = tt
AllVisible-NoSpace (c ∷ s) (v, h) = (ground arith, AllVisible-NoSpace s h)

pub skip_spaces_space :
    (c : ℕ) (s : Bytes) → is_space c ≡ true → skip_spaces (c ∷ s) ≡ skip_spaces s
unfolding skip_spaces
skip_spaces_space c s h = ground arith

pub skip_spaces_word : (w s : Bytes) → w ≢ [] → NoSpace w → skip_spaces (w ++ s) ≡ w ++ s
unfolding skip_spaces
skip_spaces_word [] s n h = absurd (n refl)
skip_spaces_word (c ∷ w) s n (h, hs) = ground arith

scan_chars_word :
    (width : ℕ) (w : Bytes) (c : ℕ) (rest : Bytes)
    → length w ≤ width
    → NoSpace w
    → is_space c ≡ true
    → scan_chars width (w ++ c ∷ rest) ≡ (w, c ∷ rest)
unfolding scan_chars
scan_chars_word zero [] c rest h n s = refl
scan_chars_word (suc width) [] c rest h n s = ground arith
scan_chars_word zero (d ∷ w) c rest h n s = elim h [ ]
scan_chars_word (suc width) (d ∷ w) c rest h (n, ns) s =
    ground (arith, scan_chars_word width w c rest (omega arith) ns s)

pub scan_word_word :
    (width : ℕ) (w : Bytes) (c : ℕ) (rest : Bytes)
    → length w ≤ width
    → w ≢ []
    → NoSpace w
    → is_space c ≡ true
    → scan_word width (w ++ c ∷ rest) ≡ some (w, c ∷ rest)
unfolding scan_word
scan_word_word width [] c rest h e n s = absurd (e refl)
scan_word_word width (d ∷ w) c rest h e n s =
    ap (λ t. not_empty (scan_chars width t)) (skip_spaces_word (d ∷ w) (c ∷ rest) e n)
    ∙ ap not_empty (scan_chars_word width (d ∷ w) c rest h n s)

scan_digits_digit :
    (acc d : ℕ) (rest : Bytes)
    → d < 10
    → scan_digits acc ((48 + d) ∷ rest) ≡ scan_digits (acc * 10 + d) rest
unfolding scan_digits
scan_digits_digit acc d rest h = let e : 48 + d - 48 ≡ d = omega arith in rw e (ground arith)

scan_digits-show_onto :
    (fuel n : ℕ) (rest : Bytes)
    → n < fuel
    → scan_digits 0 (show_onto fuel n rest) ≡ scan_digits n rest
unfolding show_onto
scan_digits-show_onto zero n rest h = elim h [ ]
scan_digits-show_onto (suc fuel) n rest h = elim (Bool-cases (ltb n 10)) [
  | inl small ↦
      let lt : n < 10 = ground arith in
      let e : 0 * 10 + n ≡ n = omega arith in rw small (scan_digits_digit 0 n rest lt ∙ rw e)
  | inr large ↦
      let e : n / 10 * 10 + n % 10 ≡ n = omega arith in
      rw large (
        scan_digits-show_onto fuel (n / 10) _ (ground arith)
        ∙ (scan_digits_digit (n / 10) (n % 10) rest (omega arith) ∙ rw e))
]

show_onto_head :
    (fuel n : ℕ) (rest : Bytes)
    → n < fuel
    → (c : ℕ) × (cs : Bytes) × (show_onto fuel n rest ≡ c ∷ cs) × (is_digit c ≡ true)
unfolding show_onto
show_onto_head zero n rest h = elim h [ ]
show_onto_head (suc fuel) n rest h = elim (Bool-cases (ltb n 10)) [
  | inl small ↦ (48 + n, rest, rw small, ground arith)
  | inr large ↦ rw large (show_onto_head fuel (n / 10) _ (ground arith))
]

scan_signed_digit :
    (c : ℕ) (cs : Bytes)
    → is_digit c ≡ true
    → scan_int (c ∷ cs)
      ≡ (let (n, rest) = scan_digits 0 (c ∷ cs) in some (to_int32 (clamp_int64 (pos n)), rest))
unfolding scan_int skip_spaces
scan_signed_digit c cs h = ground arith

scan_digits_stop :
    (n c : ℕ) (rest : Bytes) → is_digit c ≡ false → scan_digits n (c ∷ rest) ≡ (n, c ∷ rest)
unfolding scan_digits
scan_digits_stop n c rest h = ground arith

to_int32_small : (g : ℕ) → g < 2 ^ 31 → to_int32 (clamp_int64 (pos g)) ≡ pos g
unfolding to_int32 clamp_int64
to_int32_small g h = ground arith

show_ℤ-pos : (n : ℕ) → show_ℤ (pos n) ≡ show_onto (suc n) n []
unfolding show_ℤ
show_ℤ-pos n = refl

pub scan_int-show_ℤ :
    (g c : ℕ) (rest : Bytes)
    → g < 2 ^ 31
    → is_digit c ≡ false
    → scan_int (show_ℤ (pos g) ++ c ∷ rest) ≡ some (pos g, c ∷ rest)
scan_int-show_ℤ g c rest h n =
    let (d, ds, shown, digit) = show_onto_head (suc g) g (c ∷ rest) (omega arith) in
    rw (show_ℤ-pos, show_onto-append, shown, scan_signed_digit d ds digit)
      (rw (← shown) (
        rw (scan_digits-show_onto (suc g) g (c ∷ rest) (omega arith), scan_digits_stop g c rest n)
          (rw (to_int32_small g h))))

pub skip_spaces-show_ℤ :
    (g : ℕ) (s : Bytes) → skip_spaces (show_ℤ (pos g) ++ s) ≡ show_ℤ (pos g) ++ s
skip_spaces-show_ℤ g s =
    let (d, ds, shown, digit) = show_onto_head (suc g) g s (omega arith) in
    rw (show_ℤ-pos, show_onto-append, shown) (unfold skip_spaces in ground arith)
