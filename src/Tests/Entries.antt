-- ===== src/Tests/Entries.antt =====
-- What the requests of the tests for src/handler/tau_handler.cpp have in common.
use tau_shell.Prelude.{
  Bool, Bool-cases, Bytes, List, [], arith, codes, drop, false, inl, inr, leb, length, ltb, refl,
  take, true, zeros, ℕ, ◌&&◌, ◌++◌, ◌+◌, ◌||◌, ◌∷◌, ◌≡◌,
}
use tau_shell.Memory.Laws.{NoNul}
use tau_shell.Text.{is_digit}
use tau_shell.Json.Flat.{Entry, Stands, Outside, Clear}
use tau_shell.Json.Fields.{Field}
use tau_shell.Rpc.Dispatch.Envelope.{Envelope, ClearKeys, IsApart, entries}

abbrev pub chain : Bytes
chain = 222 ∷ 173 ∷ 190 ∷ 239 ∷ 0 ∷ 1 ∷ 2 ∷ 3 ∷ codes "TAU"

-- the decoded payload of a transfer
abbrev pub transfer_bytes : Bytes
transfer_bytes = 213 ∷ 1 ∷ 2 ∷ 146 ∷ codes "wiring transaction"

abbrev pub sender : Bytes
sender = zeros 32

abbrev pub receiver : Bytes
receiver = zeros 31 ++ 1 ∷ []

-- A text at a place of a buffer that can be computed.
pub Stands-take :
    (buf : Bytes) (i j : ℕ) (text : Bytes) (last : ℕ)
    → buf ≡ take i buf ++ (text ++ last ∷ drop (j + 1) buf)
    → length (take i buf) ≡ i
    → length (take i buf) + length text ≡ j
    → NoNul text
    → is_digit last ≡ false
    → Stands buf i j text
Stands-take buf i j text last split starts stops clean stop = (
  record {
    before = take i buf;
    last = last;
    after = drop (j + 1) buf;
    split = split;
    starts = starts;
    stops = stops;
    clean = clean;
  },
  stop,
)

-- Whether a NUL at this position leaves a text, all entries, and all texts of a request.
abbrev outside_test : ℕ → ℕ → ℕ → Bool
outside_test e i j = ltb e i || leb j e

abbrev clear_test : ℕ → List Entry → Bool
clear_test e [] = true
clear_test e (a ∷ es) =
    outside_test e a.key_start a.key_end
    && (outside_test e a.value_start a.value_end && clear_test e es)

abbrev keys_test : ℕ → List Field → Bool
keys_test e [] = true
keys_test e (f ∷ fs) = outside_test e f.key_start f.key_end && keys_test e fs

abbrev pub apart_test : Envelope → ℕ → Bool
apart_test v e = clear_test e (entries v) && keys_test e v.fields

and_true : (a b : Bool) → (a && b) ≡ true → (a ≡ true) × (b ≡ true)
and_true true b h = (refl, h)
and_true false b h = absurd (cc h)

outside_test-Outside : (e i j : ℕ) → outside_test e i j ≡ true → Outside e i j
outside_test-Outside e i j h = elim (Bool-cases (ltb e i)) [
  | inl lt ↦ inl (ground arith)
  | inr ge ↦ inr (ground arith)
]

clear_test-Clear : (e : ℕ) (es : List Entry) → clear_test e es ≡ true → Clear e es
clear_test-Clear e [] h = tt
clear_test-Clear e (a ∷ es) h =
    let (key, rest) = and_true _ _ h in
    let (value, others) = and_true _ _ rest in
    (outside_test-Outside e _ _ key, outside_test-Outside e _ _ value, clear_test-Clear e es others)

keys_test-ClearKeys : (e : ℕ) (fs : List Field) → keys_test e fs ≡ true → ClearKeys e fs
keys_test-ClearKeys e [] h = tt
keys_test-ClearKeys e (f ∷ fs) h =
    let (key, others) = and_true _ _ h in
    (outside_test-Outside e _ _ key, keys_test-ClearKeys e fs others)

pub apart_test-IsApart : (v : Envelope) (e : ℕ) → apart_test v e ≡ true → IsApart v e
apart_test-IsApart v e h =
    let (clear, keys) = and_true _ _ h in
    (clear_test-Clear e (entries v) clear, keys_test-ClearKeys e v.fields keys)
