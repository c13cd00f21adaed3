-- ===== src/Auth/Order.antt =====
-- The users that auth::users of src/rpc/auth.cpp lists: the map keeps them in the order of their names.
use tau_shell.Prelude.{
  ◌≡◌, refl, ◌∙◌, Bool, true, false, none, some, List, [], ◌∷◌, Bytes, bytes_eq, bytes_eq_iff,
  arith, Bool-cases, inl, inr, ◌||◌,
}
use tau_shell.Prelude.Int.{pos, negsuc}
use tau_shell.Table.{lookup, insert, erase, keys, bytes_lt}
use tau_shell.Auth.{Auth, init, add_account, remove_account, set_group, users}
use tau_shell.Auth.Directory.{
  Op, add, remove, set, run_op, run, replay, initial, is_some, lookup-run,
}

bytes_lt_trans : (x y z : Bytes) → bytes_lt x y ≡ true → bytes_lt y z ≡ true → bytes_lt x z ≡ true
bytes_lt_trans [] [] z h k = ground arith
bytes_lt_trans [] (b ∷ y) [] h k = ground arith
bytes_lt_trans [] (b ∷ y) (c ∷ z) h k = refl
bytes_lt_trans (a ∷ x) [] z h k = ground arith
bytes_lt_trans (a ∷ x) (b ∷ y) [] h k = ground arith
bytes_lt_trans (a ∷ x) (b ∷ y) (c ∷ z) h k = ground (arith, bytes_lt_trans x y z)

bytes_lt_total : (x y : Bytes) → bytes_eq x y ≡ false → bytes_lt y x ≡ false → bytes_lt x y ≡ true
bytes_lt_total [] [] h k = ground arith
bytes_lt_total [] (b ∷ y) h k = refl
bytes_lt_total (a ∷ x) [] h k = ground arith
bytes_lt_total (a ∷ x) (b ∷ y) h k = ground (arith, bytes_lt_total x y)

-- every name is behind `k`
abbrev pub AllAbove : Bytes → List Bytes → Type 0
AllAbove k [] = Unit
AllAbove k (j ∷ js) = (bytes_lt k j ≡ true) × AllAbove k js

-- Each name is behind those before it, so none is there twice.
abbrev pub IsSorted : List Bytes → Type 0
IsSorted [] = Unit
IsSorted (k ∷ ks) = AllAbove k ks × IsSorted ks

AllAbove-trans :
    (i k : Bytes) (ks : List Bytes) → bytes_lt i k ≡ true → AllAbove k ks → AllAbove i ks
AllAbove-trans i k [] h a = tt
AllAbove-trans i k (j ∷ ks) h (lt, a) = (bytes_lt_trans i k j h lt, AllAbove-trans i k ks h a)

module _ {ℓ} {V : Type ℓ} where
  AllAbove-insert :
      (i k : Bytes) (v : V) (m : List (Bytes × V))
      → bytes_lt i k ≡ true
      → AllAbove i (keys m)
      → AllAbove i (keys (insert k v m))
  unfolding insert keys
  AllAbove-insert i k v [] h a = (h, tt)
  AllAbove-insert i k v ((j, w) ∷ m) h (lt, a) = elim (Bool-cases (bytes_eq j k)) [
    | inl same ↦ rw same (h, a)
    | inr other ↦ rw other (elim (Bool-cases (bytes_lt k j)) [
      | inl front ↦ rw front (h, (lt, a))
      | inr behind ↦ rw behind (lt, AllAbove-insert i k v m h a)
    ])
  ]

  AllAbove-erase :
      (i k : Bytes) (m : List (Bytes × V)) → AllAbove i (keys m) → AllAbove i (keys (erase k m))
  unfolding erase keys
  AllAbove-erase i k [] a = tt
  AllAbove-erase i k ((j, w) ∷ m) (lt, a) = elim (Bool-cases (bytes_eq j k)) [
    | inl same ↦ rw same (AllAbove-erase i k m a)
    | inr other ↦ rw other (lt, AllAbove-erase i k m a)
  ]

  insert-IsSorted :
      (k : Bytes) (v : V) (m : List (Bytes × V))
      → IsSorted (keys m)
      → IsSorted (keys (insert k v m))
  unfolding insert keys
  insert-IsSorted k v [] s = (tt, tt)
  insert-IsSorted k v ((j, w) ∷ m) (a, s) = elim (Bool-cases (bytes_eq j k)) [
    | inl same ↦ rw same (rw (← (bytes_eq_iff j k).0 same) a, s)
    | inr other ↦ rw other (elim (Bool-cases (bytes_lt k j)) [
      | inl front ↦ rw front ((front, AllAbove-trans k j (keys m) front a), (a, s))
      | inr behind ↦
          rw behind
            (AllAbove-insert j k v m (bytes_lt_total j k other behind) a, insert-IsSorted k v m s)
    ])
  ]

  erase-IsSorted :
      (k : Bytes) (m : List (Bytes × V)) → IsSorted (keys m) → IsSorted (keys (erase k m))
  unfolding erase keys
  erase-IsSorted k [] s = tt
  erase-IsSorted k ((j, w) ∷ m) (a, s) = elim (Bool-cases (bytes_eq j k)) [
    | inl same ↦ rw same (erase-IsSorted k m s)
    | inr other ↦ rw other (AllAbove-erase j k m a, erase-IsSorted k m s)
  ]

abbrev pub listed : Bytes → List Bytes → Bool
listed u [] = false
listed u (k ∷ ks) = bytes_eq k u || listed u ks

listed-keys {ℓ} :
    {V : Type ℓ} (u : Bytes) (m : List (Bytes × V)) → listed u (keys m) ≡ is_some (lookup u m)
unfolding lookup keys
listed-keys u [] = refl
listed-keys u ((j, w) ∷ m) = ground (arith, listed-keys u m)

module _ (sha1 : Bytes → Bytes) where
  run_op-IsSorted : (op : Op) (a : Auth) → IsSorted (users a) → IsSorted (users (run_op sha1 op a))
  unfolding users keys add_account remove_account set_group
  run_op-IsSorted (add rand user pwd group) a s = insert-IsSorted user _ a.accounts s
  run_op-IsSorted (remove user) a s =
      elim (lookup user a.accounts)
        as (λ o. IsSorted (
          keys
            (elim o as (λ _. Auth) [
              | none ↦ a
              | some i ↦ record a { accounts = erase user a.accounts }
            ]).accounts)) [ none ↦ s | some i ↦ erase-IsSorted user a.accounts s ]
  run_op-IsSorted (set (negsuc n) perms) a s = s
  run_op-IsSorted (set (pos n) perms) a s = s

  run-IsSorted : (ops : List Op) (a : Auth) → IsSorted (users a) → IsSorted (users (run sha1 ops a))
  run-IsSorted [] a s = s
  run-IsSorted (op ∷ ops) a s = run-IsSorted ops (run_op sha1 op a) (run_op-IsSorted op a s)

  -- After any sequence of operations on a new auth, `users` lists the users in strictly ascending
  -- order, so each of them once, and exactly those that the directory has to which the same was done.
  pub users-run :
      (ops : List Op)
      → IsSorted (users (run sha1 ops init))
        × ((u : Bytes)
            → listed u (users (run sha1 ops init)) ≡ is_some ((replay ops initial).entries u))
  unfolding users keys
  users-run ops = (
    run-IsSorted ops init tt,
    λ u. listed-keys u (run sha1 ops init).accounts ∙ lookup-run sha1 ops u,
  )
