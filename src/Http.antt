-- ===== src/Http.antt =====
-- handle_http of src/handler/tau_handler.cpp: from a request of the web server to the answer.
-- Mongoose and jsmn are parameters: the fields of a request, and what jsmn_parse answers.
pub mod Laws
pub mod Transfer
use tau_shell.Prelude.{
  ℕ, zero, suc, ◌+◌, ◌-◌, ◌*◌, Bool, true, false, ◌&&◌, Option, none, some, List, [], ◌∷◌, ◌++◌,
  Bytes, codes, zeros, length, take, drop, set, ltb, bytes_eq, if◌then◌else◌,
}
use tau_shell.Prelude.Int.{ℤ, pos, negsuc}
use tau_shell.Fault.{Res, ok, fault, out_of_bounds}
use tau_shell.Program.{Program, pure, lift, ◌>>=◌, ◌>>◌}
use tau_shell.Text.{parse_number, clamp_int64, to_int32, show_ℕ}
use tau_shell.Json.{Tokens}
use tau_shell.Auth.{Auth, Permissions}
use tau_shell.Auth.Header.{parse_http_auth}
use tau_shell.Db.Model.{Sql}
use tau_shell.Rpc.Session.{Env, World, Call}
use tau_shell.Rpc.Dispatch.{handle_json_rpc}

-- `body` is what mg_read still finds on the connection.
pub record Request : Type 0 where
  pub uri : Bytes
  pub authorization : Option Bytes
  pub content_length : Option Bytes
  pub body : Bytes

-- `auth` is what the handler's pointer to the accounts leads to.
pub record Service : Type 0 where
  pub env : Env
  pub decode_block : Bytes → Bytes
  pub sha1 : Bytes → Bytes
  pub jsmn_parse : Bytes → ℤ × Tokens
  pub auth : Auth

pub record Server : Type 0 where
  pub sent : Bytes
  pub calls : List Call
  pub sql : Sql

-- mg_printf and mg_write
abbrev pub send : Bytes → Program Server (Unit {0})
send text s = ok (tt, record s { sent = s.sent ++ text })

abbrev pub crlf : Bytes
crlf = 13 ∷ 10 ∷ []

unfoldable pub error_body : Bytes → Bytes
error_body msg = codes "{ \"result\": \"" ++ (msg ++ codes "\" }")

unfoldable pub return_error : Bytes → Program Server (Unit {0})
return_error msg = send (
    codes "HTTP/1.1 401 Invalid Request"
    ++ (crlf
        ++ (codes "Content-Type: text/json"
            ++ (crlf
                ++ (codes "Content-Length: "
                    ++ (show_ℕ (16 + length msg) ++ (crlf ++ (crlf ++ error_body msg))))))))

unfoldable pub unauthorized : Bytes
unauthorized =
    codes "HTTP/1.1 401 Unauthorized"
    ++ (crlf
        ++ (codes "WWW-Authenticate: Basic realm=\"BitTorrent\""
            ++ (crlf ++ (codes "Content-Length: 0" ++ (crlf ++ crlf)))))

-- atoi of a header, which ends at its NUL
unfoldable pub header_int : Bytes → Res ℤ
header_int cl = elim (parse_number (cl ++ 0 ∷ [])) [
  | none ↦ fault out_of_bounds
  | some i ↦ ok (to_int32 (clamp_int64 i))
]

-- resize(n + 1), mg_read, and a NUL at n
unfoldable pub read_body : ℕ → Bytes → Bytes
read_body n body = set (take (n + 1) body ++ drop (length (take (n + 1) body)) (zeros (n + 1))) n 0

abbrev pub body_of : ℤ → Bytes → Bytes
body_of (negsuc m) body = []
body_of (pos n) body = if ltb 0 n && ltb n (10 * 1024 * 1024) then read_body n body else []

unfoldable pub post_body : Request → Res Bytes
post_body req = elim req.content_length [
  | none ↦ ok []
  | some cl ↦ (elim (header_int cl) [ ok n ↦ ok (body_of n req.body) | fault e ↦ fault e ])
]

unfoldable pub success_header : ℕ → Bytes
success_header n =
    codes "HTTP/1.1 200 OK"
    ++ (crlf
        ++ (codes "Content-Type: text/json"
            ++ (crlf ++ (codes "Content-Length: " ++ (show_ℕ n ++ (crlf ++ crlf))))))

-- The response with its NUL is sent under a length that does not count it.
unfoldable pub reply : Bytes → Program Server Bool
reply response = do
  send (success_header (length (response ++ 0 ∷ []) - 1))
  send (response ++ 0 ∷ [])
  pure true

abbrev pub failed : Bytes → Program Server Bool
failed msg = do return_error msg; pure true

abbrev pub after_rpc : Server → Res (Unit {0} × World) → Res (Bytes × Server)
after_rpc s (ok (done, w)) = ok (w.response, record s { calls = w.calls; sql = w.sql })
after_rpc s (fault e) = fault e

module _ (env : Env) where
  -- handle_json_rpc on the body, with an empty response
  unfoldable pub run_rpc : Tokens → Bytes → Program Server Bytes
  run_rpc tokens body s = after_rpc s (
      handle_json_rpc env tokens
        (record { buffer = body; response = []; calls = s.calls; sql = s.sql }))

  -- The answers of jsmn_parse: JSMN_SUCCESS is 0, NOMEM -1, INVAL -2 and PART -3.
  unfoldable pub serve : ℤ → Tokens → Bytes → Program Server Bool
  serve (pos zero) tokens body = do response ← run_rpc tokens body; reply response
  serve (pos (suc n)) tokens body = failed (codes "invalid request")
  serve (negsuc zero) tokens body = failed (codes "request too big")
  serve (negsuc (suc zero)) tokens body = failed (codes "request not JSON")
  serve (negsuc (suc (suc zero))) tokens body = failed (codes "request truncated")
  serve (negsuc (suc (suc (suc n)))) tokens body = failed (codes "invalid request")

module _ (service : Service) where
  abbrev pub serve_body : Bytes → Program Server Bool
  serve_body [] = failed (codes "request with no POST body")
  serve_body (c ∷ cs) =
      let (r, tokens) = service.jsmn_parse (c ∷ cs) in serve service.env r tokens (c ∷ cs)

  -- Which permissions they are is not looked at.
  abbrev pub authorized : Request → Option Permissions → Program Server Bool
  authorized req none = do send unauthorized; pure true
  authorized req (some perms) = do body ← lift (post_body req); serve_body body

  unfoldable pub handle_http : Request → Program Server Bool
  handle_http req =
      if bytes_eq req.uri (codes "/rpc")
      then (do
        perms ←
            lift (parse_http_auth service.decode_block service.sha1 req.authorization service.auth)
        authorized req perms)
      else pure false
