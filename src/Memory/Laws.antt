-- ===== src/Memory/Laws.antt =====
-- A text that stands in a buffer, ended by a NUL: reading it, and writes that leave it alone.
use tau_shell.Prelude.{
  ℕ, zero, suc, ◌+◌, ◌-◌, ◌<◌, ◌≡◌, ◌≢◌, refl, ap, ◌∙◌, some, List, [], ◌∷◌, ◌++◌, Bytes, length,
  drop, take, leb, true, set, length-set, length-append, arith,
}
use tau_shell.Prelude.Int.{pos}
use tau_shell.Fault.{ok}
use tau_shell.Memory.{until_nul, c_string, slice}

abbrev pub NoNul : Bytes → Type 0
NoNul [] = Unit
NoNul (c ∷ cs) = (c ≢ 0) × NoNul cs

-- The text `w` stands at `i`, up to and without position `j`, and position `j` is in the buffer.
pub record HasText (buf : Bytes) (i j : ℕ) (w : Bytes) : Type 0 where
  pub before : Bytes
  pub last : ℕ
  pub after : Bytes
  pub split : buf ≡ before ++ (w ++ (last ∷ after))
  pub starts : length before ≡ i
  pub stops : length before + length w ≡ j
  pub clean : NoNul w

module _ {ℓ} {A : Type ℓ} where
  pub set-append_left :
      (xs ys : List A) (i : ℕ) (v : A) → i < length xs → set (xs ++ ys) i v ≡ set xs i v ++ ys
  set-append_left [] ys i v h = elim h [ ]
  set-append_left (x ∷ xs) ys zero v h = refl
  set-append_left (x ∷ xs) ys (suc i) v h =
      ap (λ t. x ∷ t) (set-append_left xs ys i v (omega arith))

  pub set-append_right :
      (xs ys : List A) (k : ℕ) (v : A) → set (xs ++ ys) (length xs + k) v ≡ xs ++ set ys k v
  set-append_right [] ys k v = let e : 0 + k ≡ k = omega arith in rw e
  set-append_right (x ∷ xs) ys k v =
      let e : suc (length xs) + k ≡ suc (length xs + k) = omega arith in
      rw e (ap (λ t. x ∷ t) (set-append_right xs ys k v))

  pub drop-append : (xs ys : List A) → drop (length xs) (xs ++ ys) ≡ ys
  drop-append [] ys = refl
  drop-append (x ∷ xs) ys = drop-append xs ys

  pub take-append : (xs ys : List A) → take (length xs) (xs ++ ys) ≡ xs
  take-append [] ys = refl
  take-append (x ∷ xs) ys = ap (λ t. x ∷ t) (take-append xs ys)

-- Reading back what stands in a buffer.
pub slice-append :
    (before w after : Bytes)
    → slice (before ++ (w ++ after)) (pos (length before)) (length w) ≡ ok w
unfolding slice
slice-append before w after =
    let fits : leb (length before + length w) (length (before ++ (w ++ after))) ≡ true =
      ground (arith, length-append before (w ++ after), length-append w after) in
    rw fits (rw (drop-append before (w ++ after)) (rw (take-append w after)))

pub NoNul-append : (xs ys : Bytes) → NoNul xs → NoNul ys → NoNul (xs ++ ys)
NoNul-append [] ys h k = k
NoNul-append (x ∷ xs) ys (n, h) k = (n, NoNul-append xs ys h k)

pub until_nul-append : (w r : Bytes) → NoNul w → until_nul (w ++ 0 ∷ r) ≡ some w
unfolding until_nul
until_nul-append [] r h = refl
until_nul-append (c ∷ w) r (n, h) = ground (arith, until_nul-append w r h)

-- A write below the text.
unfoldable pub HasText-set_below :
    (buf : Bytes) (i j e v : ℕ) (w : Bytes)
    → e < i
    → HasText buf i j w
    → HasText (set buf e v) i j w
HasText-set_below buf i j e v w lt h = record {
  before = set h.before e v;
  last = h.last;
  after = h.after;
  split = ap (λ b. set b e v) h.split ∙ set-append_left h.before _ e v (omega (arith, h.starts));
  starts = length-set h.before e v ∙ h.starts;
  stops = omega (arith, length-set {0} h.before e v, h.stops);
  clean = h.clean;
}

pub set_end-split :
    (buf : Bytes) (i j v : ℕ) (w : Bytes) (h : HasText buf i j w)
    → set buf j v ≡ h.before ++ (w ++ (v ∷ h.after))
set_end-split buf i j v w h =
    let at : j ≡ length h.before + (length w + 0) = omega (arith, h.stops) in
    ap (λ b. set b j v) h.split
    ∙ rw at (
        set-append_right h.before (w ++ h.last ∷ h.after) (length w + 0) v
        ∙ ap (λ t. h.before ++ t) (set-append_right w (h.last ∷ h.after) 0 v))

-- A write at the position after the text ends it there.
pub c_string-set_end :
    (buf : Bytes) (i j : ℕ) (w : Bytes) → HasText buf i j w → c_string (set buf j 0) (pos i) ≡ ok w
unfolding c_string
c_string-set_end buf i j w h = rw (set_end-split buf i j 0 w h) (
    rw (← h.starts, drop-append h.before (w ++ 0 ∷ h.after))
      (rw (until_nul-append w h.after h.clean)))

-- So does any write there, and it leaves the text.
unfoldable pub HasText-set_end :
    (buf : Bytes) (i j v : ℕ) (w : Bytes) → HasText buf i j w → HasText (set buf j v) i j w
HasText-set_end buf i j v w h = record {
  before = h.before;
  last = v;
  after = h.after;
  split = set_end-split buf i j v w h;
  starts = h.starts;
  stops = h.stops;
  clean = h.clean;
}

-- A write above the text.
unfoldable pub HasText-set_above :
    (buf : Bytes) (i j e v : ℕ) (w : Bytes)
    → j < e
    → HasText buf i j w
    → HasText (set buf e v) i j w
HasText-set_above buf i j e v w lt h = record {
  before = h.before;
  last = h.last;
  starts = h.starts;
  stops = h.stops;
  clean = h.clean;
  after = set h.after (e - (j + 1)) v;
  split =
      let at : e ≡ length h.before + (length w + suc (e - (j + 1))) = omega (arith, h.stops) in
      let rest = w ++ h.last ∷ h.after in
      let k = suc (e - (j + 1)) in
      ap (λ b. set b e v) h.split
      ∙ ap (λ p. set (h.before ++ rest) p v) at
      ∙ set-append_right h.before rest (length w + k) v
      ∙ ap (λ t. h.before ++ t) (set-append_right w (h.last ∷ h.after) k v);
}

pub HasText-lt : (buf : Bytes) (i j : ℕ) (w : Bytes) → HasText buf i j w → j < length buf
HasText-lt buf i j w h = omega (
  arith,
  ap (length {A = ℕ}) h.split,
  length-append {0} h.before _,
  length-append {0} w (h.last ∷ h.after),
  h.stops,
)
