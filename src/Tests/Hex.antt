-- ===== src/Tests/Hex.antt =====
-- The chain ids of src/util/hex_util.cpp.
use tau_shell.Prelude.{refl, ◌≡◌, [], ◌∷◌, ◌++◌, Bytes, length, codes, arith}
use tau_shell.Prelude.Int.{pos}
use tau_shell.Fault.{ok, fault, out_of_bounds}
use tau_shell.Hex.{bytes_chain_id_to_string, string_chain_id_to_bytes}
use tau_shell.Hex.RoundTrip.{
  string_chain_id_to_bytes-bytes_chain_id_to_string, string_chain_id_to_bytes-short,
}
use tau_shell.Tests.Platform.{platform, lawful, hex}

abbrev prefix : Bytes
prefix = 222 ∷ 173 ∷ 190 ∷ 239 ∷ 0 ∷ 1 ∷ 2 ∷ 3 ∷ []

abbrev chain_id : Bytes
chain_id = prefix ++ codes "TAU"

string_chain_id_to_bytes-bytes_chain_id_to_string_example :
    (text : Bytes) × (bytes_chain_id_to_string platform chain_id ≡ ok text)
    × (string_chain_id_to_bytes platform
          (codes "{\"" ++ (text ++ codes "\"}"))
          (pos (length (codes "{\"")))
          (pos (length text))
        ≡ ok chain_id)
string_chain_id_to_bytes-bytes_chain_id_to_string_example =
    string_chain_id_to_bytes-bytes_chain_id_to_string platform lawful chain_id (codes "{\"")
      (codes "\"}") (ground arith) (omega arith) (ground arith)

-- Twelve digits, as a token of that size leaves them in the text.
abbrev short_prefix : Bytes
short_prefix = 222 ∷ 173 ∷ 190 ∷ 239 ∷ 0 ∷ 1 ∷ []

string_chain_id_to_bytes-short_example :
    string_chain_id_to_bytes platform
      (codes "\"" ++ (hex short_prefix ++ 0 ∷ codes "}"))
      (pos (length (codes "\"")))
      (pos 12)
    ≡ fault out_of_bounds
string_chain_id_to_bytes-short_example =
    string_chain_id_to_bytes-short platform lawful (codes "\"") short_prefix (codes "}")
      (ground arith) (omega arith)

chain_text : bytes_chain_id_to_string platform chain_id ≡ ok (codes "deadbeef00010203TAU")
unfolding bytes_chain_id_to_string tau_shell.Memory.slice tau_shell.Memory.until_nul
chain_text = refl
