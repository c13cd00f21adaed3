-- ===== src/Fault.antt =====
-- How a call ends when it does not return: the process dies on a signal, or an exception leaves it.
use tau_shell.Prelude.{◌≡◌, refl, subst, ◌≢◌, ◌⊎◌, inl, inr}

-- `null_pointer` and `out_of_bounds` are memory errors, `length_error` and `out_of_range` the
-- exceptions of `std::vector` and `std::string`, `filesystem_error` that of
-- std::filesystem, `bad_vararg` an object passed to `...`. `no_fuel` is
-- no behaviour of the program: it marks a recursion that ran out of the model's fuel.
pub data Fault : Type 0 where
  null_pointer out_of_bounds length_error out_of_range filesystem_error bad_vararg no_fuel : Fault

pub data Res {ℓ} (A : Type ℓ) : Type ℓ where
  ok : A → Res A
  fault : Fault → Res A

infixl 5 ◌>>=◌
abbrev pub ◌>>=◌ {ℓ κ} : {A : Type ℓ} {B : Type κ} → Res A → (A → Res B) → Res B
ok a >>= f = f a
fault e >>= f = fault e

-- To split on how a call ends and keep the equation.
pub Res-cases {ℓ} :
    {A : Type ℓ} (m : Res A) → ((a : A) × (m ≡ ok a)) ⊎ ((e : Fault) × (m ≡ fault e))
Res-cases (ok a) = inl (a, refl)
Res-cases (fault e) = inr (e, refl)

-- What a call answers if it returns has the property.
abbrev pub Yields {ℓ κ} : {A : Type ℓ} → (A → Type κ) → Res A → Type κ
Yields P (ok a) = P a
Yields P (fault e) = Unit

pub Yields->>= {ℓ κ μ ν} :
    {A : Type ℓ} {B : Type κ} (P : A → Type μ) (Q : B → Type ν) (m : Res A) (f : A → Res B)
    → Yields P m
    → ((a : A) → P a → Yields Q (f a))
    → Yields Q (m >>= f)
Yields->>= P Q (ok a) f h k = k a h
Yields->>= P Q (fault e) f h k = tt

pub Yields-eq {ℓ κ} :
    {A : Type ℓ} (P : A → Type κ) (m : Res A) {a : A} → Yields P m → m ≡ ok a → P a
Yields-eq P m h e = subst (Yields P) e h

pub Yields-any {ℓ} : {A : Type ℓ} (m : Res A) → Yields (λ _. Unit {0}) m
Yields-any (ok a) = tt
Yields-any (fault e) = tt

pub fault-ne-ok {ℓ} : {A : Type ℓ} {e : Fault} {a : A} → fault e ≢ ok a
fault-ne-ok h = subst (λ r. elim r [ ok a ↦ ⊥ | fault e ↦ Unit {0} ]) h tt
