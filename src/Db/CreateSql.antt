-- ===== src/Db/CreateSql.antt =====
-- sql_process of src/util/db_util.cpp: the statement that creates a table, from its template.
use tau_shell.Prelude.{
  ℕ, suc, ◌+◌, ◌-◌, ◌≡◌, ◌≢◌, refl, ap, subst, ◌∙◌, true, false, List, [], ◌∷◌, ◌++◌, Bytes, length,
  length-append, append_assoc, take, drop, ltb, leb, ◌==◌, if◌then◌else◌, ◌&&◌, arith,
}
use tau_shell.Memory.Laws.{take-append, drop-append}
use tau_shell.Fault.{Res, ok, fault, out_of_bounds, length_error}

-- s[i] = '"' for each '`'
unfoldable pub requote : Bytes → Bytes
requote [] = []
requote (c ∷ cs) = (if c == b'`' then b'"' else c) ∷ requote cs

-- The number of characters up to the first '`' and with it, `index + 1` of the source: 0 with none.
unfoldable pub first_quote : Bytes → ℕ
first_quote [] = 0
first_quote (c ∷ cs) =
    let k = first_quote cs in if c == b'`' then 1 else if k == 0 then 0 else suc k

-- The two lengths count the NUL behind each text. A negative size throws, and each memcpy has to
-- stay in the text it reads and in the new array.
unfoldable pub sql_process : Bytes → Bytes → Res Bytes
sql_process s t =
    let k = first_quote s in
    if ltb (length s + length t) 14
    then fault length_error
    else if leb 1 (length t) && leb (k + 13) (length s)
    then ok (take k (requote s) ++ (take (length t - 1) t ++ drop (k + 13) (requote s)))
    else fault out_of_bounds

abbrev pub NoTick : Bytes → Type 0
NoTick [] = Unit
NoTick (c ∷ cs) = (c ≢ b'`') × NoTick cs

first_quote-append : (a rest : Bytes) → NoTick a → first_quote (a ++ b'`' ∷ rest) ≡ suc (length a)
unfolding first_quote
first_quote-append [] rest h = refl
first_quote-append (c ∷ a) rest (n, h) = ground (arith, first_quote-append a rest h)

requote-NoTick : (a : Bytes) → NoTick a → requote a ≡ a
unfolding requote
requote-NoTick [] h = refl
requote-NoTick (c ∷ a) (n, h) = ground (arith, requote-NoTick a h)

requote-append : (a b : Bytes) → requote (a ++ b) ≡ requote a ++ requote b
unfolding requote
requote-append [] b = refl
requote-append (c ∷ a) b = rw (requote-append a b)

length-requote : (a : Bytes) → length (requote a) ≡ length a
unfolding requote
length-requote [] = refl
length-requote (c ∷ a) = ap suc (length-requote a)

module _ {ℓ} {A : Type ℓ} where
  take_past : (xs ys : List A) (c : A) → take (suc (length xs)) (xs ++ c ∷ ys) ≡ xs ++ c ∷ []
  take_past [] ys c = refl
  take_past (x ∷ xs) ys c = ap (λ t. x ∷ t) (take_past xs ys c)

  drop_past :
      (xs ys : List A) (c : A) (n : ℕ) → drop (suc (length xs) + n) (xs ++ c ∷ ys) ≡ drop n ys
  drop_past [] ys c n = let e : 1 + n ≡ suc n = omega arith in rw e
  drop_past (x ∷ xs) ys c n =
      let e : suc (suc (length xs)) + n ≡ suc (suc (length xs) + n) = omega arith in
      rw e (drop_past xs ys c n)

-- The template and the name that it is made of, in the two sizes that are tested.
fits_template :
    (before place rest name : Bytes)
    → length place ≡ 13
    → (ltb (length (before ++ b'`' ∷ (place ++ rest)) + length (name ++ 0 ∷ [])) 14 ≡ false)
      × ((leb 1 (length (name ++ 0 ∷ []))
            && leb (suc (length before) + 13) (length (before ++ b'`' ∷ (place ++ rest))))
          ≡ true)
fits_template before place rest name size = (
  ground (
    arith,
    length-append before (b'`' ∷ (place ++ rest)),
    length-append place rest,
    length-append name (0 ∷ []),
  ),
  ground (
    arith,
    length-append before (b'`' ∷ (place ++ rest)),
    length-append place rest,
    length-append name (0 ∷ []),
  ),
)

-- The quoted template, cut behind its first '"' and behind the thirteen characters there.
requote-template :
    (before place rest : Bytes)
    → NoTick before
    → length place ≡ 13
    → (take (suc (length before)) (requote (before ++ b'`' ∷ (place ++ rest)))
        ≡ before ++ b'"' ∷ [])
      × (drop (suc (length before) + 13) (requote (before ++ b'`' ∷ (place ++ rest)))
          ≡ requote rest)
unfolding requote
requote-template before place rest plain size =
    let quoted : requote (before ++ b'`' ∷ (place ++ rest))
        ≡ before ++ b'"' ∷ (requote place ++ requote rest) =
      requote-append before (b'`' ∷ (place ++ rest))
      ∙ rw (requote-NoTick before plain, requote-append place rest) in
    let place_end : drop 13 (requote place ++ requote rest) ≡ requote rest =
      subst (λ n. drop n (requote place ++ requote rest) ≡ requote rest)
        (length-requote place ∙ size) (drop-append (requote place) (requote rest)) in
    (rw quoted (take_past before _ b'"'), rw quoted (drop_past before _ b'"' 13 ∙ place_end))

-- the name without its NUL
take_name : (name : Bytes) → take (length (name ++ 0 ∷ []) - 1) (name ++ 0 ∷ []) ≡ name
take_name name =
    let e : length (name ++ 0 ∷ []) - 1 ≡ length name =
      omega (arith, length-append name (0 ∷ [])) in
    rw e (take-append name (0 ∷ []))

-- Of a template whose first '`' has thirteen characters behind it, "${TABLE_NAME}", the statement
-- has the table's name in place of these and '"' for each '`'.
pub sql_process-template :
    (before place rest name : Bytes)
    → NoTick before
    → length place ≡ 13
    → sql_process (before ++ b'`' ∷ (place ++ rest)) (name ++ 0 ∷ [])
      ≡ ok (before ++ b'"' ∷ (name ++ requote rest))
unfolding sql_process
sql_process-template before place rest name plain size =
    let (large, inside) = fits_template before place rest name size in
    let (front, back) = requote-template before place rest plain size in
    rw (first_quote-append before (place ++ rest) plain) (
      rw large
        (rw inside (rw (front, back, take_name name) (ap ok (append_assoc before (b'"' ∷ []) _)))))
