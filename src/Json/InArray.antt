-- ===== src/Json/InArray.antt =====
-- What find_key_in_array of src/util/json_util.cpp finds: among all tokens behind the first one, the
-- values of the keys that match, in the order of the tokens and whatever object they stand in.
use tau_shell.Prelude.{
  ℕ, zero, suc, ◌≡◌, refl, ap, Bool, true, false, ◌&&◌, Option, none, some, List, [], ◌∷◌, Bytes,
  bytes_eq, get_elem?, if◌then◌else◌, Bool-cases, inl, inr, arith,
}
use tau_shell.Prelude.Int.{pos, negsuc}
use tau_shell.Fault.{ok, fault}
use tau_shell.Memory.{store, c_string}
use tau_shell.Json.{
  Token, Tokens, TokenType, object, type_eq, key_matches, array_round, find_key_in_array_loop,
  find_key_in_array,
}

-- The text of a token that is set.
abbrev pub text_of : Bytes → Token → Option Bytes
text_of buf t = elim t.start [
  | negsuc zero ↦ none
  | _ ↦ (elim (c_string buf t.start) [ ok text ↦ some text | fault e ↦ none ])
]

abbrev pub has_type : TokenType → Tokens → Bool
has_type type [] = false
has_type type (t ∷ i) = type_eq t.type type

abbrev pub has_text : Bytes → Option Bytes → Bool
has_text key none = false
has_text key (some text) = bytes_eq key text

abbrev pub is_hit : Bytes → Bytes → TokenType → Token → Tokens → Bool
is_hit buf key type t i = has_text key (text_of buf t) && has_type type i

-- The values among the first `num` tokens and the one behind them, each with what follows it.
abbrev pub values : ℕ → Bytes → Bytes → TokenType → Tokens → List Tokens
values zero buf key type i = []
values (suc num) buf key type [] = []
values (suc num) buf key type (t ∷ i) =
    if is_hit buf key type t i then i ∷ values num buf key type i else values num buf key type i

-- A token that is not set, or whose text stands in the buffer with a NUL at its end.
pub data IsEnded (buf : Bytes) (t : Token) : Type 0 where
  unset : t.start ≡ negsuc zero → IsEnded buf t
  ended :
      (n : ℕ)
      → t.start ≡ pos n
      → store buf t.end 0 ≡ ok buf
      → (text : Bytes) → c_string buf t.start ≡ ok text
      → IsEnded buf t

abbrev pub AllEnded : ℕ → Bytes → Tokens → Type 0
AllEnded zero buf i = Unit
AllEnded (suc num) buf [] = ⊥
AllEnded (suc num) buf (t ∷ []) = ⊥
AllEnded (suc num) buf (t ∷ (v ∷ i)) = IsEnded buf t × AllEnded num buf (v ∷ i)

array_round-is_hit :
    (buf key : Bytes) (type : TokenType) (t v : Token) (i : Tokens)
    → IsEnded buf t
    → array_round (t ∷ (v ∷ i)) buf key type ≡ ok (is_hit buf key type t (v ∷ i), buf)
unfolding array_round key_matches
array_round-is_hit buf key type t v i (unset none_there) = ground arith
array_round-is_hit buf key type t v i (ended n at stops text there) = ground arith

module _ (buf key : Bytes) (type : TokenType) where
  find_key_in_array_loop-values :
      (num s : ℕ) (i : Tokens)
      → AllEnded num buf i
      → find_key_in_array_loop num i s buf key type
        ≡ ok (get_elem? (values num buf key type i) s, buf)
  unfolding find_key_in_array_loop
  find_key_in_array_loop-values zero s i h = refl
  find_key_in_array_loop-values (suc num) s [] h = absurd h
  find_key_in_array_loop-values (suc num) s (t ∷ []) h = absurd h
  find_key_in_array_loop-values (suc num) zero (t ∷ (v ∷ i)) (e, h) =
      rw (array_round-is_hit buf key type t v i e)
        (elim (Bool-cases (is_hit buf key type t (v ∷ i))) [
          | inl hit ↦ rw hit
          | inr miss ↦ rw miss (find_key_in_array_loop-values num zero (v ∷ i) h)
        ])
  find_key_in_array_loop-values (suc num) (suc s) (t ∷ (v ∷ i)) (e, h) =
      rw (array_round-is_hit buf key type t v i e)
        (elim (Bool-cases (is_hit buf key type t (v ∷ i))) [
          | inl hit ↦ rw hit (find_key_in_array_loop-values num s (v ∷ i) h)
          | inr miss ↦ rw miss (find_key_in_array_loop-values num (suc s) (v ∷ i) h)
        ])

  -- Where the first tokens behind an object are not set, or stand in the buffer as C strings with a
  -- NUL at their ends, `find_key_in_array` finds the s-th value of the key among them, counted over all
  -- objects, or NULL if there are no more, and leaves the buffer as it is.
  pub find_key_in_array-values :
      (o : Token) (i : Tokens) (s num_keys : ℕ)
      → o.type ≡ object
      → AllEnded num_keys buf i
      → find_key_in_array (some (o ∷ i)) buf key s num_keys type
        ≡ ok (get_elem? (values num_keys buf key type i) s, buf)
  unfolding find_key_in_array
  find_key_in_array-values o i s num_keys is_object h =
      let e : type_eq o.type object ≡ true = ap (λ k. type_eq k object) is_object in
      rw e (find_key_in_array_loop-values num_keys s i h)
