-- ===== src/Rpc/Args.antt =====
-- How the handlers of src/handler/tau_handler.cpp take their arguments out of the request's text.
pub mod Laws
pub mod Entries
use tau_shell.Prelude.{
  ℕ, zero, suc, ◌+◌, ◌*◌, Bool, Option, none, some, List, [], ◌∷◌, Bytes, String, codes, drop,
  if◌then◌else◌,
}
use tau_shell.Prelude.Int.{ℤ, pos, negsuc, ◌-ℤ◌}
use tau_shell.Fault.{Res, ok, fault, out_of_bounds}
use tau_shell.Program.{Program, pure, lift, ◌>>=◌, ◌>>◌}
use tau_shell.Memory.{store, c_string, slice}
use tau_shell.Text.{parse_number, clamp_int64, to_int32}
use tau_shell.Json.{Token, TokenType, Tokens, string, deref, find_key, find_key_in_array}
use tau_shell.Hex.{
  key_len, key_hex_len, hex_char_to_bytes_char, string_chain_id_to_bytes, hex_chain_id_to_bytes,
}
use tau_shell.Rpc.Session.{Env, World}

abbrev pub set_buffer {ℓ} : {A : Type ℓ} → World → Res (A × Bytes) → Res (A × World)
set_buffer w (ok (a, buf)) = ok (a, record w { buffer = buf })
set_buffer w (fault e) = fault e

abbrev pub keep_world {ℓ} : {A : Type ℓ} → World → Res A → Res (A × World)
keep_world w (ok a) = ok (a, w)
keep_world w (fault e) = fault e

-- A program over the text alone, which may write to it, and one that only reads it.
abbrev pub on_buffer {ℓ} : {A : Type ℓ} → (Bytes → Res (A × Bytes)) → Program World A
on_buffer f w = set_buffer w (f w.buffer)

abbrev pub read_buffer {ℓ} : {A : Type ℓ} → (Bytes → Res A) → Program World A
read_buffer f w = keep_world w (f w.buffer)

-- find_key(args, buffer, name, type)
abbrev pub key : Option Tokens → TokenType → String → Program World (Option Tokens)
key args type name = on_buffer (λ buf. find_key args buf (codes name) type)

-- the token behind a pointer that may be NULL
abbrev pub need : Option Tokens → Program World Token
need t = lift (deref t)

abbrev pub put_buffer : World → Res Bytes → Res (Unit {0} × World)
put_buffer w (ok buf) = ok (tt, record w { buffer = buf })
put_buffer w (fault e) = fault e

-- buffer[t->end] = 0
unfoldable pub terminate : Token → Program World (Unit {0})
terminate t w = put_buffer w (store w.buffer t.end 0)

-- the C string at &buffer[t->start]
unfoldable pub text_at : Token → Program World Bytes
text_at t = read_buffer (λ buf. c_string buf t.start)

abbrev pub size_of : Token → ℤ
size_of t = t.end -ℤ t.start

abbrev pub span_length : ℤ → ℕ
span_length (pos n) = n
span_length (negsuc n) = 0

-- the bytes from t->start up to t->end, which a loop copies
unfoldable pub span_at : Token → Program World Bytes
span_at t = read_buffer (λ buf. slice buf t.start (span_length (size_of t)))

-- atoi(buffer + t->start)
unfoldable pub int_at : Token → Program World ℤ
int_at t = read_buffer (λ buf. elim t.start [
  | negsuc n ↦ fault out_of_bounds
  | pos n ↦ (elim (parse_number (drop n buf)) [
    | none ↦ fault out_of_bounds
    | some i ↦ ok (to_int32 (clamp_int64 i))
  ])
])

-- emplace and insert of a std::set in the order of `lt`
unfoldable pub emplace {ℓ} : {A : Type ℓ} → (A → A → Bool) → A → List A → List A
emplace lt k [] = k ∷ []
emplace lt k (j ∷ js) =
    let rest = emplace lt k js in
    if lt k j then k ∷ (j ∷ js) else if lt j k then j ∷ rest else j ∷ js

module _ (env : Env) where
  -- The key whose hexadecimal digits stand at t->start. Whether they are digits is not looked at.
  unfoldable pub pubkey_at : Token → Program World Bytes
  pubkey_at t = do
    terminate t
    (done, bytes) ← read_buffer (λ buf.
        hex_char_to_bytes_char env.platform buf t.start (pos key_hex_len)
          (env.platform.fresh key_len))
    pure bytes

  -- The chain id at t->start, as its text with a hexadecimal prefix, and all in hexadecimal.
  unfoldable pub string_chain_id_at : Token → Program World Bytes
  string_chain_id_at t = do
    terminate t
    read_buffer (λ buf. string_chain_id_to_bytes env.platform buf t.start (size_of t))

  unfoldable pub hex_chain_id_at : Token → Program World Bytes
  hex_chain_id_at t = do
    terminate t
    read_buffer (λ buf. hex_chain_id_to_bytes env.platform buf t.start (size_of t))

  -- The i-th "peer_key" below `args`, in at most args->size * 2 + 2 tokens.
  unfoldable pub peer_at : ℕ → Option Tokens → Program World Bytes
  peer_at i args = do
    a ← need args
    pk ← on_buffer (λ buf. find_key_in_array args buf (codes "peer_key") i (a.size * 2 + 2) string)
    t ← need pk
    pubkey_at t

  -- The loop over ks->size peers, of which `left` are to come.
  unfoldable pub peers_loop : ℕ → ℕ → Option Tokens → List Bytes → Program World (List Bytes)
  peers_loop zero i args peer_list = pure peer_list
  peers_loop (suc left) i args peer_list = do
    pubkey ← peer_at i args
    peers_loop left (i + 1) args (emplace env.key_lt pubkey peer_list)

  unfoldable pub peers_at : Token → Option Tokens → Program World (List Bytes)
  peers_at ks args = peers_loop ks.size 0 args []
