-- ===== src/Tests/Requests.antt =====
-- A request that leaves a chain.
use tau_shell.Prelude.{take, refl, [], ◌∷◌, ◌++◌, Bytes, codes, set, arith}
use tau_shell.Memory.Laws.{NoNul}
use tau_shell.Json.{Token, Tokens, string, object}
use tau_shell.Rpc.Session
use tau_shell.Rpc.Args.Laws.{Value}
use tau_shell.Tests.Platform.{hex}
use tau_shell.Tests.Rpc.{token}

-- {"chain_id":"deadbeef00010203TAU"}
abbrev left_chain : Bytes
left_chain = 222 ∷ 173 ∷ 190 ∷ 239 ∷ 0 ∷ 1 ∷ 2 ∷ 3 ∷ codes "TAU"

abbrev left_id : Bytes
left_id = hex (take 8 left_chain) ++ codes "TAU"

abbrev leave_text : Bytes
leave_text = codes "{\"chain_id\":\"" ++ (left_id ++ codes "\"}")

abbrev left_value : Token
left_value = token string 13 32 0

abbrev leave_args : Tokens
leave_args = token object 0 34 2 ∷ token string 2 10 0 ∷ left_value ∷ []

abbrev leave_cut : Bytes
leave_cut = set (leave_text ++ 0 ∷ []) 10 0

left_clean : NoNul left_id
left_clean = ground arith

abbrev left_stands : Value leave_cut left_value left_id
left_stands = record {
  first = 13;
  last = 32;
  starts = refl;
  stops = refl;
  stands = record {
    before = codes "{\"chain_id" ++ 0 ∷ codes ":\"";
    last = b'"';
    after = codes "}" ++ 0 ∷ [];
    split = refl;
    starts = refl;
    stops = refl;
    clean = left_clean;
  };
}
