-- ===== src/Tests/Dispatch.antt =====
-- Requests that handle_json_rpc of src/handler/tau_handler.cpp gets.
use tau_shell.Prelude.{◌≡◌, refl, none, some, [], ◌∷◌, ◌++◌, Bytes, codes, set, arith}
use tau_shell.Prelude.Int.{pos, negsuc}
use tau_shell.Fault.{ok}
use tau_shell.Memory.{store, c_string}
use tau_shell.Memory.Laws.{NoNul}
use tau_shell.Text.{parse_number, show_ℕ, to_int32}
use tau_shell.Json.{Tokens, string, object, primitive, find_key, find_int}
use tau_shell.Rpc.Args.Laws.{Value}
use tau_shell.Rpc.Service.{session_stats}
use tau_shell.Rpc.Dispatch.{handlers, find_handler, show_tag, handle_json_rpc}
use tau_shell.Rpc.Dispatch.Laws.{
  AllEnd, handle_json_rpc-missing_method, handle_json_rpc-call, handlers-without_args,
}
use tau_shell.Tests.Rpc.{env, world, token}

-- {"arguments":{},"tag":7,"method":"session-stats"}
abbrev call_text : Bytes
call_text = codes "{\"arguments\":{},\"tag\":7,\"method\":\"session-stats\"}"

abbrev call_tokens : Tokens
call_tokens =
    token object 0 49 6
    ∷ token string 2 11 0
    ∷ token object 13 15 0
    ∷ token string 17 20 0
    ∷ token primitive 22 23 0
    ∷ token string 25 31 0
    ∷ token string 34 47 0
    ∷ []

abbrev method_cut : Bytes
method_cut = set (set (set (call_text ++ 0 ∷ []) 11 0) 20 0) 31 0

method_found :
    find_key (some call_tokens) (world call_text).buffer (codes "method") string
    ≡ ok (some (token string 34 47 0 ∷ []), method_cut)
unfolding find_key store c_string
method_found = refl

method_clean : NoNul (codes "session-stats")
method_clean = ground arith

abbrev method_stands : Value method_cut (token string 34 47 0) (codes "session-stats")
method_stands = record {
  first = 34;
  last = 47;
  starts = refl;
  stops = refl;
  stands = record {
    before =
        codes "{\"arguments"
        ++ 0 ∷ (codes ":{},\"tag" ++ 0 ∷ (codes ":7,\"method" ++ 0 ∷ codes ":\""));
    last = b'"';
    after = codes "}" ++ 0 ∷ [];
    split = refl;
    starts = refl;
    stops = refl;
    clean = method_clean;
  };
}

session_stats_found : find_handler (codes "session-stats") (handlers env) ≡ some session_stats
unfolding find_handler handlers
session_stats_found = refl

abbrev ended_cut : Bytes
ended_cut = set method_cut 47 0

abbrev args_tokens : Tokens
args_tokens =
    token object 13 15 0
    ∷ token string 17 20 0
    ∷ token primitive 22 23 0
    ∷ token string 25 31 0
    ∷ token string 34 47 0
    ∷ []

args_found :
    find_key (some call_tokens) ended_cut (codes "arguments") object
    ≡ ok (some args_tokens, ended_cut)
unfolding find_key store c_string
args_found = refl

tag_found : find_int (some call_tokens) ended_cut (codes "tag") ≡ ok (pos 7, set ended_cut 23 0)
unfolding find_int find_key store c_string parse_number tau_shell.Text.clamp_int64
tag_found = refl

args_ended : store (set ended_cut 23 0) (pos 15) 0 ≡ ok (set (set ended_cut 23 0) 15 0)
unfolding store
args_ended = refl

handle_json_rpc-call_example :
    handle_json_rpc env call_tokens (world call_text)
    ≡ session_stats
        (some args_tokens)
        (record (world call_text) { buffer = set (set ended_cut 23 0) 15 0 })
handle_json_rpc-call_example =
    handle_json_rpc-call env call_tokens (world call_text) method_cut (codes "session-stats")
      (token string 34 47 0) [] session_stats method_found method_stands session_stats_found
      args_found tag_found args_ended

handlers-without_args_example : AllEnd (handlers env)
handlers-without_args_example = handlers-without_args env

-- {"method":"m"}, and {}
abbrev unknown_text : Bytes
unknown_text = codes "{\"method\":\"m\"}"

abbrev unknown_tokens : Tokens
unknown_tokens = token object 0 14 2 ∷ token string 2 8 0 ∷ token string 11 12 0 ∷ []

unknown_found :
    find_key (some unknown_tokens) (world unknown_text).buffer (codes "method") string
    ≡ ok (some (token string 11 12 0 ∷ []), set (unknown_text ++ 0 ∷ []) 8 0)
unfolding find_key store c_string
unknown_found = refl

unknown_clean : NoNul (codes "m")
unknown_clean = ground arith

abbrev unknown_stands : Value (set (unknown_text ++ 0 ∷ []) 8 0) (token string 11 12 0) (codes "m")
unknown_stands = record {
  first = 11;
  last = 12;
  starts = refl;
  stops = refl;
  stands = record {
    before = codes "{\"method" ++ 0 ∷ codes ":\"";
    last = b'"';
    after = codes "}" ++ 0 ∷ [];
    split = refl;
    starts = refl;
    stops = refl;
    clean = unknown_clean;
  };
}

no_handler : find_handler (codes "m") (handlers env) ≡ none
unfolding find_handler handlers
no_handler = refl

abbrev pub empty_tokens : Tokens
empty_tokens = token object 0 2 0 ∷ []

pub method_missing :
    find_key (some empty_tokens) (world (codes "{}")).buffer (codes "method") string
    ≡ ok (none, codes "{}" ++ 0 ∷ [])
unfolding find_key
method_missing = refl

pub missing_method_reply :
    handle_json_rpc env empty_tokens (world (codes "{}"))
    ≡ ok (
      tt,
      record (world (codes "{}")) {
        response =
            codes "{ \"result\": \"missing method in request\", \"tag\": "
            ++ (show_tag (negsuc 0) ++ codes "}");
      },
    )
missing_method_reply =
    handle_json_rpc-missing_method env empty_tokens (world (codes "{}")) method_missing
