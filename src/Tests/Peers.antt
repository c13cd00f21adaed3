-- ===== src/Tests/Peers.antt =====
-- The peers of a request to follow a chain: src/handler/tau_handler.cpp looks for them in the first
-- `args->size * 2 + 2` tokens, which hold two.
use tau_shell.Prelude.{ℕ, ◌≡◌, refl, some, [], ◌∷◌, ◌++◌, Bytes, codes, zeros}
use tau_shell.Prelude.Int.{pos}
use tau_shell.Fault.{Res, ok, fault, null_pointer}
use tau_shell.Memory.{store, c_string}
use tau_shell.Json.{Token, TokenType, Tokens, object, array, string, find_key_in_array}
use tau_shell.Hex.{hex_char_to_bytes_char, has_other}
use tau_shell.Rpc.Session.{World}
use tau_shell.Rpc.Args.{peer_at, pubkey_at, terminate}
use tau_shell.Tests.Platform.{hex}
use tau_shell.Tests.Rpc.{env, world}

abbrev token : TokenType → ℕ → ℕ → ℕ → Token
token type start end size = record { type = type; start = pos start; end = pos end; size = size }

abbrev peer_text : Bytes
peer_text = codes "{\"peer_key\":\"" ++ (hex (zeros 32) ++ codes "\"}")

abbrev text : Bytes
text =
    codes "{\"chain_id\":\"c\",\"peers\":["
    ++ (peer_text ++ (codes "," ++ (peer_text ++ (codes "," ++ (peer_text ++ codes "]}")))))

abbrev args : Tokens
args =
    token object 0 266 4
    ∷ token string 2 10 0
    ∷ token string 13 14 0
    ∷ token string 17 22 0
    ∷ token array 24 265 3
    ∷ token object 25 104 2
    ∷ token string 27 35 0
    ∷ token string 38 102 0
    ∷ token object 105 184 2
    ∷ token string 107 115 0
    ∷ token string 118 182 0
    ∷ token object 185 264 2
    ∷ token string 187 195 0
    ∷ token string 198 262 0
    ∷ []

abbrev answer : Res (Bytes × World) → Res Bytes
answer (ok (pubkey, w)) = ok pubkey
answer (fault e) = fault e

second_peer : answer (peer_at env 1 (some args) (world text)) ≡ ok (zeros 32)
unfolding peer_at find_key_in_array store c_string pubkey_at terminate hex_char_to_bytes_char
    has_other
second_peer = refl

third_peer : answer (peer_at env 2 (some args) (world text)) ≡ fault null_pointer
unfolding peer_at find_key_in_array store c_string
third_peer = refl
