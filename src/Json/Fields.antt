-- ===== src/Json/Fields.antt =====
-- `find_key` of src/util/json_util.cpp against a lookup in the fields of an object.
use tau_shell.Prelude.{
  ℕ, suc, ◌*◌, ◌/◌, ◌<◌, ◌≡◌, refl, Bool, ◌&&◌, Option, none, some, List, [], ◌∷◌, ◌++◌,
  append_assoc, arith, Bytes, length, set, bytes_eq, lt→ltb, if◌then◌else◌,
}
use tau_shell.Prelude.Int.{ℤ, pos}
use tau_shell.Fault.{ok, ◌>>=◌}
use tau_shell.Memory.{store}
use tau_shell.Memory.Laws.{HasText, HasText-lt, HasText-set_below, c_string-set_end}
use tau_shell.Json.{
  TokenType, Tokens, object, string, type_eq, tail, object_round, find_key_loop, find_key, deref,
}
use tau_shell.Json.Skip.{
  Node, node, Nodes, nil, cons, count, flatten, flatten_all, skip_item-flatten,
}

-- A field of an object: where its key stands, the key, and the value.
pub record Field : Type 0 where
  pub key_start : ℕ
  pub key_end : ℕ
  pub key : Bytes
  pub value : Node

abbrev pub root_type : Node → TokenType
root_type (node type _ _ _) = type

abbrev pub key_node : Field → Node
key_node f = node string (pos f.key_start) (pos f.key_end) nil

abbrev pub members : List Field → Nodes
members [] = nil
members (f ∷ fs) = cons (key_node f) (cons f.value (members fs))

abbrev pub matches : Bytes → TokenType → Field → Bool
matches key type f = bytes_eq key f.key && type_eq (root_type f.value) type

-- The tokens from the value of the first field that has the key and a value of the type.
abbrev pub lookup_field : Bytes → TokenType → List Field → Tokens → Option Tokens
lookup_field key type [] rest = none
lookup_field key type (f ∷ fs) rest =
    if matches key type f
    then some (flatten f.value ++ (flatten_all (members fs) ++ rest))
    else lookup_field key type fs rest

-- The text after a NUL is written behind each key that the lookup reads.
abbrev pub cut_keys : Bytes → TokenType → List Field → Bytes → Bytes
cut_keys key type [] buf = buf
cut_keys key type (f ∷ fs) buf =
    if matches key type f then set buf f.key_end 0 else cut_keys key type fs (set buf f.key_end 0)

-- The keys stand in the text in order, with room between them.
abbrev pub StartAbove : ℕ → List Field → Type 0
StartAbove e [] = Unit
StartAbove e (f ∷ fs) = (e < f.key_start) × StartAbove e fs

abbrev pub InText : Bytes → List Field → Type 0
InText buf [] = Unit
InText buf (f ∷ fs) =
    HasText buf f.key_start f.key_end f.key × StartAbove f.key_end fs × InText buf fs

InText-set :
    (buf : Bytes) (e v : ℕ) (fs : List Field)
    → StartAbove e fs
    → InText buf fs
    → InText (set buf e v) fs
InText-set buf e v [] a h = tt
InText-set buf e v (f ∷ fs) (lt, a) (text, above, h) =
    (HasText-set_below buf _ _ e v _ lt text, above, InText-set buf e v fs a h)

store-key_end :
    (buf : Bytes) (s e : ℕ) (w : Bytes) → HasText buf s e w → store buf (pos e) 0 ≡ ok (set buf e 0)
unfolding store
store-key_end buf s e w h = rw (lt→ltb _ _ (HasText-lt buf s e w h))

deref-flatten :
    (n : Node) (i : Tokens) (type : TokenType) (buf : Bytes)
    → ◌>>=◌ {B = Bool × Bytes}
        (deref (some (flatten n ++ i)))
        (λ value. ok (type_eq value.type type, buf))
      ≡ ok (type_eq (root_type n) type, buf)
unfolding flatten
deref-flatten (node t s e ns) i type buf = refl

object_round-key :
    (f : Field) (i : Tokens) (buf key : Bytes) (type : TokenType)
    → HasText buf f.key_start f.key_end f.key
    → object_round (flatten (key_node f) ++ (flatten f.value ++ i)) buf key type
      ≡ ok (matches key type f, set buf f.key_end 0)
unfolding object_round flatten
object_round-key f i buf key type h =
    rw (store-key_end buf _ _ _ h, c_string-set_end buf _ _ _ h)
      (ground (arith, deref-flatten f.value i type (set buf f.key_end 0)))

tail-key : (f : Field) (i : Tokens) → tail (flatten (key_node f) ++ i) ≡ i
unfolding flatten
tail-key f i = refl

-- One field: the loop ends with its value, or goes on behind it.
find_key_loop-field :
    (n : ℕ) (f : Field) (i : Tokens) (buf key : Bytes) (type : TokenType)
    → HasText buf f.key_start f.key_end f.key
    → find_key_loop (suc n) (flatten (key_node f) ++ (flatten f.value ++ i)) buf key type ≡ (
        if matches key type f
        then ok (some (flatten f.value ++ i), set buf f.key_end 0)
        else find_key_loop n i (set buf f.key_end 0) key type)
unfolding find_key_loop
find_key_loop-field n f i buf key type h =
    rw (object_round-key f i buf key type h, skip_item-flatten, skip_item-flatten, tail-key) refl

flatten_all-members :
    (f : Field) (fs : List Field) (rest : Tokens)
    → flatten_all (members (f ∷ fs)) ++ rest
      ≡ flatten (key_node f) ++ (flatten f.value ++ (flatten_all (members fs) ++ rest))
unfolding flatten
flatten_all-members f fs rest = simp append_assoc

find_key_loop-lookup_field :
    (fs : List Field) (rest : Tokens) (buf key : Bytes) (type : TokenType)
    → InText buf fs
    → find_key_loop (length fs) (flatten_all (members fs) ++ rest) buf key type
      ≡ ok (lookup_field key type fs rest, cut_keys key type fs buf)
find_key_loop-lookup_field [] rest buf key type h = unfold find_key_loop in refl
find_key_loop-lookup_field (f ∷ fs) rest buf key type (text, above, h) =
    rw (flatten_all-members f fs rest, find_key_loop-field _ f _ buf key type text)
      (ground (
        arith,
        find_key_loop-lookup_field fs rest (set buf f.key_end 0) key type
            (InText-set buf f.key_end 0 fs above h),
      ))

count-members : (fs : List Field) → count (members fs) ≡ 2 * length fs
count-members [] = refl
count-members (f ∷ fs) = omega (arith, count-members fs)

-- On the tokens of an object whose keys stand in the text, `find_key` returns the value of the first
-- field that has the key and a value of the type, or NULL if there is none; it writes a NUL behind
-- each key that it has read, and nothing else.
pub find_key-lookup_field :
    (start end : ℤ) (fs : List Field) (rest : Tokens) (buf key : Bytes) (type : TokenType)
    → InText buf fs
    → find_key (some (flatten (node object start end (members fs)) ++ rest)) buf key type
      ≡ ok (lookup_field key type fs rest, cut_keys key type fs buf)
unfolding find_key flatten
find_key-lookup_field start end fs rest buf key type h =
    let pairs : count (members fs) / 2 ≡ length fs = omega (arith, count-members fs) in
    rw pairs (find_key_loop-lookup_field fs rest buf key type h)
