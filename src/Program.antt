-- ===== src/Program.antt =====
-- Programs that change a state and may end in a fault. A fault ends the process, and no state is
-- left to speak of.

use tau_shell.Prelude.{◌≡◌, ◌≢◌, refl, ap}
use tau_shell.Fault.{Res, ok, fault, Fault, Yields, fault-ne-ok}

abbrev pub Program {ℓ κ} : Type ℓ → Type κ → Type (ℓ ⊔ κ)
Program S A = S → Res (A × S)

module _ {ℓ κ} {S : Type ℓ} {A : Type κ} where
  abbrev pub pure : A → Program S A
  pure a s = ok (a, s)

  abbrev pub stop : Fault → Program S A
  stop e s = fault e

  abbrev pub lift : Res A → Program S A
  lift (ok a) s = ok (a, s)
  lift (fault e) s = fault e

  abbrev pub gets : (S → A) → Program S A
  gets f s = ok (f s, s)

abbrev pub modify {ℓ} : {S : Type ℓ} → (S → S) → Program S (Unit {0})
modify f s = ok (tt, f s)

-- The rest of a program, after a call that ended so.
abbrev pub resume {ℓ κ μ} :
    {S : Type ℓ} {A : Type κ} {B : Type μ} → Res (A × S) → (A → Program S B) → Res (B × S)
resume (ok (a, s)) f = f a s
resume (fault e) f = fault e

infixl 5 ◌>>=◌ ◌>>◌
abbrev pub ◌>>=◌ {ℓ κ μ} :
    {S : Type ℓ} {A : Type κ} {B : Type μ} → Program S A → (A → Program S B) → Program S B
◌>>=◌ m f s = resume (m s) f

abbrev pub ◌>>◌ {ℓ κ μ} :
    {S : Type ℓ} {A : Type κ} {B : Type μ} → Program S A → Program S B → Program S B
◌>>◌ m k s = resume (m s) (λ _. k)

-- A program after one that is known to return, or to end in a fault.
module _ {ℓ κ μ} {S : Type ℓ} {A : Type κ} {B : Type μ} {m : Res (A × S)}
    (f : A → Program S B) where
  pub resume-ok : {a : A} {s : S} → m ≡ ok (a, s) → resume m f ≡ f a s
  resume-ok h = ap (λ r. resume r f) h

  pub resume-fault : {e : Fault} → m ≡ fault e → resume m f ≡ fault e
  resume-fault h = ap (λ r. resume r f) h

module _ {ℓ κ μ ν} {S : Type ℓ} {A : Type κ} {B : Type μ} {C : Type ν} where
  pub resume_assoc :
      (m : Res (A × S)) (f : A → Program S B) (g : B → Program S C)
      → resume (resume m f) g ≡ resume m (λ a. f a >>= g)
  resume_assoc (ok (a, s)) f g = refl
  resume_assoc (fault e) f g = refl

-- A program that does not return, from any state.
abbrev pub Never {ℓ κ} : {S : Type ℓ} {A : Type κ} → Program S A → Type (ℓ ⊔ κ)
Never {S = S} {A = A} m = (s : S) (a : A) (s' : S) → m s ≢ ok (a, s')

module _ {ℓ κ μ} {S : Type ℓ} {A : Type κ} {B : Type μ} where
  pub resume-Never :
      (m : Res (A × S)) (f : A → Program S B)
      → ((a : A) (s : S) → m ≡ ok (a, s) → (b : B) (s' : S) → f a s ≢ ok (b, s'))
      → (b : B) (s' : S) → resume m f ≢ ok (b, s')
  resume-Never (ok (a, s)) f h b s' = h a s refl b s'
  resume-Never (fault e) f h b s' = λ k. fault-ne-ok k

  pub after-Never :
      (m : Res (A × S)) (f : A → Program S B)
      → ((a : A) → Never (f a))
      → (b : B) (s' : S) → resume m f ≢ ok (b, s')
  after-Never m f h = resume-Never m f (λ a s e. h a s)

  pub first-Never :
      (m : Program S A) (f : A → Program S B) (s : S)
      → Never m
      → (b : B) (s' : S) → resume (m s) f ≢ ok (b, s')
  first-Never m f s h = resume-Never (m s) f (λ a s' e. absurd (h s a s' e))

  pub lift-Never :
      {P : A → Type μ} (m : Res A) (f : A → Program S B) (s : S)
      → Yields P m
      → ((a : A) → P a → Never (f a))
      → (b : B) (s' : S) → resume (lift m s) f ≢ ok (b, s')
  lift-Never (ok a) f s p h b s' = h a p s b s'
  lift-Never (fault e) f s p h b s' = λ k. fault-ne-ok k
