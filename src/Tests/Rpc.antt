-- ===== src/Tests/Rpc.antt =====
-- Requests to the handlers of src/handler/tau_handler.cpp.
use tau_shell.Prelude.{
  ℕ, refl, true, false, [], ◌∷◌, ◌++◌, Bytes, codes, length, zeros, set, ltb, arith,
}
use tau_shell.Prelude.Int.{pos}
use tau_shell.Memory.Laws.{NoNul}
use tau_shell.Json.{Token, TokenType, Tokens, string, object}
use tau_shell.Rpc.Session
use tau_shell.Rpc.Session.{Env, World, Answers, Account}
use tau_shell.Rpc.Args.Laws.{Value}
use tau_shell.Tests.Platform.{platform, hex}
use tau_shell.Tests.Db.{engine, empty_sql}

abbrev answers : Answers
answers = record {
  session_time = λ calls. pos 0;
  chain_id = λ calls type name. name;
  mining_time = λ calls chain_id. pos 60;
  in_fee_pool = λ calls chain_id hash. false;
  median_tx_free = λ calls chain_id. pos 1;
  account_info =
      λ calls chain_id pubkey. record { peer = pubkey; balance = pos 100; nonce = pos 0 };
  accepts = λ calls tx. true;
  top_tip_block = λ calls chain_id number. [];
  block_by_number = λ calls chain_id number. [];
  block_by_hash = λ calls chain_id hash. [];
  tx_sha1 = λ tx. zeros 20;
}

abbrev pub env : Env
env = record {
  platform = platform;
  engine = engine;
  answers = answers;
  key_lt = λ a b. ltb (length a) (length b);
  account_lt = λ a b. false;
}

abbrev pub token : TokenType → ℕ → ℕ → ℕ → Token
token type start end size = record { type = type; start = pos start; end = pos end; size = size }

abbrev pub world : Bytes → World
world text = record { buffer = text ++ 0 ∷ []; response = []; calls = []; sql = empty_sql }

-- {"friend":"00...0"}
abbrev pubkey : Bytes
pubkey = zeros 32

abbrev friend_text : Bytes
friend_text = codes "{\"friend\":\"" ++ (hex pubkey ++ codes "\"}")

abbrev friend_value : Token
friend_value = token string 11 75 0

abbrev pub friend_args : Tokens
friend_args = token object 0 77 2 ∷ token string 2 8 0 ∷ friend_value ∷ []

abbrev cut_text : Bytes
cut_text = set (friend_text ++ 0 ∷ []) 8 0

friend_clean : NoNul (hex pubkey)
friend_clean = ground arith

abbrev friend_stands : Value cut_text friend_value (hex pubkey)
friend_stands = record {
  first = 11;
  last = 75;
  starts = refl;
  stops = refl;
  stands = record {
    before = codes "{\"friend" ++ 0 ∷ codes ":\"";
    last = b'"';
    after = codes "}" ++ 0 ∷ [];
    split = refl;
    starts = refl;
    stops = refl;
    clean = friend_clean;
  };
}
