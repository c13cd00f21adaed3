-- ===== src/Json/Within.antt =====
-- The lookups of src/util/json_util.cpp answer tokens of the array that they are given.
use tau_shell.Prelude.{
  ℕ, zero, suc, ◌/◌, Option, none, some, [], ◌∷◌, Bytes, length, ◌==◌, Bool-cases, inl, inr,
}
use tau_shell.Fault.{Res, Yields, Yields->>=, Yields-any}
use tau_shell.Json.{
  Token, TokenType, Tokens, skip_items, skip_item_fuel, skip_item, find_key, find_key_loop,
  object_round, tail, type_eq, object,
}

-- A property of every token of an array.
module _ (P : Token → Type 0) where
  abbrev pub All : Tokens → Type 0
  All [] = Unit
  All (t ∷ i) = P t × All i

  abbrev pub AllFound : Option Tokens → Type 0
  AllFound none = Unit
  AllFound (some i) = All i

  All-tail : (i : Tokens) → All i → All (tail i)
  All-tail [] h = tt
  All-tail (t ∷ i) (h, hs) = hs

  skip_items-All :
      (skip : Tokens → Res Tokens)
      → ((i : Tokens) → All i → Yields All (skip i))
      → (n : ℕ) (i : Tokens) → All i
      → Yields All (skip_items skip n i)
  unfolding skip_items
  skip_items-All skip step zero i h = h
  skip_items-All skip step (suc n) i h =
      Yields->>= All All (skip i) (skip_items skip n) (step i h)
        (λ j k. skip_items-All skip step n j k)

  skip_item_fuel-All : (fuel : ℕ) (i : Tokens) → All i → Yields All (skip_item_fuel fuel i)
  unfolding skip_item_fuel
  skip_item_fuel-All zero i h = tt
  skip_item_fuel-All (suc fuel) [] h = tt
  skip_item_fuel-All (suc fuel) (t ∷ i) (h, hs) = elim (Bool-cases (t.size == 0)) [
    | inl e ↦ rw e hs
    | inr e ↦ rw e (skip_items-All (skip_item_fuel fuel) (skip_item_fuel-All fuel) t.size i hs)
  ]

  find_key_loop-All :
      (n : ℕ) (i : Tokens) (buf key : Bytes) (type : TokenType)
      → All i
      → Yields (λ r. AllFound r.0) (find_key_loop n i buf key type)
  unfolding find_key_loop skip_item
  find_key_loop-All zero i buf key type h = tt
  find_key_loop-All (suc n) i buf key type h =
      Yields->>= (λ _. Unit {0}) (λ r. AllFound r.0) (object_round i buf key type) _
        (Yields-any (object_round i buf key type))
        (λ r _. elim (Bool-cases (r.0)) [
          | inl hit ↦ rw hit (All-tail i h)
          | inr miss ↦ rw miss (
              Yields->>= All (λ r. AllFound r.0) (skip_item i) _
                (skip_item_fuel-All (suc (length i)) i h)
                (λ j k.
                  Yields->>= All (λ r. AllFound r.0) (skip_item j) _
                    (skip_item_fuel-All (suc (length j)) j k)
                    (λ next k'. find_key_loop-All n next (r.1) key type k')))
        ])

  -- What find_key answers points into the array that it was given.
  pub find_key-All :
      (i : Tokens) (buf key : Bytes) (type : TokenType)
      → All i
      → Yields (λ r. AllFound r.0) (find_key (some i) buf key type)
  unfolding find_key
  find_key-All [] buf key type h = tt
  find_key-All (t ∷ i) buf key type (h, hs) = elim (Bool-cases (type_eq t.type object)) [
    | inl e ↦ rw e (find_key_loop-All (t.size / 2) i buf key type hs)
    | inr e ↦ rw e tt
  ]
