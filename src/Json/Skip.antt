-- ===== src/Json/Skip.antt =====
-- `skip_item` of src/util/json_util.cpp: it ends on every token array, and passes by exactly one
-- value of a parsed document.
use tau_shell.Prelude.{
  ◌⊎◌, inl, inr, ℕ, zero, suc, ◌≤◌, ◌<◌, ◌≡◌, refl, [], ◌∷◌, ◌++◌, ◌∙◌, append_assoc, arith, length,
  length-append, ◌==◌, if◌then◌else◌,
}
use tau_shell.Prelude.Int.{ℤ}
use tau_shell.Fault.{Res, ok, fault, out_of_bounds, ◌>>=◌}
use tau_shell.Json.{Token, TokenType, Tokens, skip_items, skip_item_fuel, skip_item}

-- The call returned with at most n tokens left, or ran off the array.
abbrev Ends : ℕ → Res Tokens → Type 0
Ends n (ok i) = length i ≤ n
Ends n (fault out_of_bounds) = Unit
Ends n (fault _) = ⊥

Ends-le : (m n : ℕ) (r : Res Tokens) → m ≤ n → Ends m r → Ends n r
Ends-le m n (ok i) h e = omega arith
Ends-le m n (fault out_of_bounds) h e = tt
Ends-le m n (fault _) h e = absurd e

bind-Ends :
    {m : ℕ} (k : Tokens → Res Tokens) (r : Res Tokens)
    → Ends m r
    → ((i : Tokens) → length i ≤ m → Ends (length i) (k i))
    → Ends m (r >>= k)
bind-Ends k (ok i) e h = Ends-le _ _ (k i) e (h i e)
bind-Ends k (fault out_of_bounds) e h = tt
bind-Ends k (fault _) e h = absurd e

module _ (skip : Tokens → Res Tokens) (m : ℕ)
    (skip-Ends : (i : Tokens) → length i ≤ m → Ends (length i) (skip i)) where
  skip_items-Ends : (n : ℕ) (i : Tokens) → length i ≤ m → Ends (length i) (skip_items skip n i)
  unfolding skip_items
  skip_items-Ends zero i h = omega arith
  skip_items-Ends (suc n) i h =
      bind-Ends _ (skip i) (skip-Ends i h) (λ i' h'. skip_items-Ends n i' (omega arith))

skip_items-zero : (skip : Tokens → Res Tokens) (i : Tokens) → skip_items skip 0 i ≡ ok i
unfolding skip_items
skip_items-zero skip i = refl

skip_items-suc :
    (skip : Tokens → Res Tokens) (n : ℕ) (i : Tokens)
    → skip_items skip (suc n) i ≡ (skip i >>= skip_items skip n)
unfolding skip_items
skip_items-suc skip n i = refl

-- The early return for a scalar is the loop with no round.
skip_item_fuel_cons :
    (fuel : ℕ) (t : Token) (i : Tokens)
    → skip_item_fuel (suc fuel) (t ∷ i) ≡ skip_items (skip_item_fuel fuel) t.size i
unfolding skip_item_fuel
skip_item_fuel_cons fuel t i = early t.size
  where
    early :
        (n : ℕ)
        → (if n == 0 then ok i else skip_items (skip_item_fuel fuel) n i)
          ≡ skip_items (skip_item_fuel fuel) n i
    early zero = refl
    early (suc n) = ground arith

skip_item_fuel-Ends :
    (fuel : ℕ) (i : Tokens) → length i < fuel → Ends (length i) (skip_item_fuel fuel i)
unfolding skip_item_fuel
skip_item_fuel-Ends zero i h = elim h [ ]
skip_item_fuel-Ends (suc fuel) [] h = tt
skip_item_fuel-Ends (suc fuel) (t ∷ i) h = rw skip_item_fuel_cons (
    Ends-le (length i) _ (skip_items (skip_item_fuel fuel) t.size i) (omega arith) (
      skip_items-Ends (skip_item_fuel fuel) (length i)
        (λ j le. skip_item_fuel-Ends fuel j (omega arith)) t.size i (omega arith)))

Ends-how :
    {n : ℕ} (r : Res Tokens)
    → Ends n r
    → ((rest : Tokens) × (r ≡ ok rest) × (length rest ≤ n)) ⊎ (r ≡ fault out_of_bounds)
Ends-how (ok rest) h = inl (rest, refl, h)
Ends-how (fault out_of_bounds) h = inr refl
Ends-how (fault _) h = absurd h

-- On every token array `skip_item` ends: it returns a rest that is no longer than the array, or runs
-- off the array. There is no other fault, and the fuel that it starts with is enough.
pub skip_item-returns :
    (i : Tokens)
    → ((rest : Tokens) × (skip_item i ≡ ok rest) × (length rest ≤ length i))
      ⊎ (skip_item i ≡ fault out_of_bounds)
unfolding skip_item
skip_item-returns i =
    Ends-how (skip_item_fuel (suc (length i)) i)
      (skip_item_fuel-Ends (suc (length i)) i (omega arith))

-- A value of a document: a scalar has no children, an array its items, an object its keys and
-- values in turn.
mutual
  pub data Node : Type 0 where
    node : TokenType → ℤ → ℤ → Nodes → Node

  pub data Nodes : Type 0 where
    nil : Nodes
    cons : Node → Nodes → Nodes

abbrev pub count : Nodes → ℕ
count nil = 0
count (cons n ns) = suc (count ns)

-- The tokens that jsmn stores for a value: `size` counts the children, which follow it.
unfoldable mutual
  pub flatten : Node → Tokens
  flatten (node type start end ns) =
      record { type = type; start = start; end = end; size = count ns } ∷ flatten_all ns

  pub flatten_all : Nodes → Tokens
  flatten_all nil = []
  flatten_all (cons n ns) = flatten n ++ flatten_all ns

mutual
  unfolding flatten

  skip_item_fuel-flatten :
      (n : Node) (fuel : ℕ) (rest : Tokens)
      → length (flatten n) ≤ fuel
      → skip_item_fuel fuel (flatten n ++ rest) ≡ ok rest
  skip_item_fuel-flatten (node type start end ns) zero rest h = elim h [ ]
  skip_item_fuel-flatten (node type start end ns) (suc fuel) rest h =
      skip_item_fuel_cons fuel _ (flatten_all ns ++ rest)
      ∙ skip_items-flatten_all ns fuel rest (omega arith)

  skip_items-flatten_all :
      (ns : Nodes) (fuel : ℕ) (rest : Tokens)
      → length (flatten_all ns) ≤ fuel
      → skip_items (skip_item_fuel fuel) (count ns) (flatten_all ns ++ rest) ≡ ok rest
  skip_items-flatten_all nil fuel rest h = skip_items-zero _ rest
  skip_items-flatten_all (cons n ns) fuel rest h =
      let sizes = length-append {0} (flatten n) (flatten_all ns) in
      skip_items-suc _ _ (flatten n ++ flatten_all ns ++ rest)
      ∙ rw append_assoc (
          rw (skip_item_fuel-flatten n fuel (flatten_all ns ++ rest) (omega arith))
            (skip_items-flatten_all ns fuel rest (omega arith)))

-- On the tokens of a value, `skip_item` returns the tokens after it.
pub skip_item-flatten : (n : Node) (rest : Tokens) → skip_item (flatten n ++ rest) ≡ ok rest
unfolding skip_item
skip_item-flatten n rest =
    skip_item_fuel-flatten n (suc (length (flatten n ++ rest))) rest
      (omega (arith, length-append {0} (flatten n) rest))
