-- ===== src/Http/Laws.antt =====
-- What handle_http of src/handler/tau_handler.cpp answers on each of its branches.
use tau_shell.Prelude.{
  ℕ, zero, suc, ◌+◌, ◌-◌, ◌≤◌, ◌≡◌, ◌≢◌, refl, ap, sym, ◌∙◌, true, false, Option, none, some, [],
  ◌∷◌, ◌++◌, Bytes, codes, length, length-append, take, drop, zeros, bytes_eq, bytes_eq_iff,
  Bool-cases, inl, inr, arith, append_assoc, length-take, length-drop, length-set, get_elem?,
  get_elem?-set_self,
}
use tau_shell.Prelude.Int.{pos}
use tau_shell.Fault.{Res, ok}
use tau_shell.Program.{resume-ok}
use tau_shell.Json.{Tokens}
use tau_shell.Auth.{Auth, Permissions}
use tau_shell.Auth.Header.{parse_http_auth}
use tau_shell.Rpc.Session.{World}
use tau_shell.Rpc.Dispatch.{handle_json_rpc}
use tau_shell.Http.{
  Request, Service, Server, error_body, unauthorized, read_body, post_body, run_rpc, after_rpc,
  success_header, reply, serve, authorized, handle_http,
}

-- The number that an error announces is the length of its body.
pub length-error_body : (msg : Bytes) → length (error_body msg) ≡ 16 + length msg
unfolding error_body
length-error_body msg = omega (arith, length-append msg (codes "\" }"))

zeros-length : (n : ℕ) → length (zeros n) ≡ n
zeros-length zero = refl
zeros-length (suc n) = ap suc (zeros-length n)

-- The text that is parsed has the announced length and a NUL behind it, however much of it arrived.
pub read_body_lem :
    (n : ℕ) (body : Bytes)
    → (length (read_body n body) ≡ n + 1) × (get_elem? (read_body n body) n ≡ some 0)
unfolding read_body
read_body_lem n body =
    let front = take (n + 1) body in
    let back = drop (length front) (zeros (n + 1)) in
    let cut : length front ≤ n + 1 = omega (arith, length-take (n + 1) body) in
    let size : length (front ++ back) ≡ n + 1 = omega (
      arith,
      length-append front back,
      length-drop (length front) (zeros (n + 1)),
      zeros-length (n + 1),
    ) in
    (length-set (front ++ back) n 0 ∙ size, get_elem?-set_self (front ++ back) n 0 (omega arith))

module _ (service : Service) where
  -- A request for another address is declined, and nothing is sent or changed.
  pub handle_http-other_uri :
      (req : Request) (s : Server)
      → req.uri ≢ codes "/rpc"
      → handle_http service req s ≡ ok (false, s)
  unfolding handle_http
  handle_http-other_uri req s other = elim (Bool-cases (bytes_eq req.uri (codes "/rpc"))) [
    | inl same ↦ absurd (other ((bytes_eq_iff req.uri (codes "/rpc")).0 same))
    | inr differ ↦ rw differ
  ]

  abbrev pub perms_of : Request → Res (Option Permissions)
  perms_of req = parse_http_auth service.decode_block service.sha1 req.authorization service.auth

  handle_http-rpc :
      (req : Request) (s : Server) {perms : Option Permissions}
      → req.uri ≡ codes "/rpc"
      → perms_of req ≡ ok perms
      → handle_http service req s ≡ authorized service req perms s
  unfolding handle_http
  handle_http-rpc req s here known = rw (here, known)

  -- A request whose user has no account is told so, and is not read: no call of the session and no
  -- statement is made.
  pub handle_http-unauthorized :
      (req : Request) (s : Server)
      → req.uri ≡ codes "/rpc"
      → perms_of req ≡ ok none
      → handle_http service req s ≡ ok (true, record s { sent = s.sent ++ unauthorized })
  handle_http-unauthorized req s here unknown = handle_http-rpc req s here unknown

  run_rpc-ok :
      (tokens : Tokens) (body : Bytes) (s : Server) {w : World}
      → handle_json_rpc service.env tokens
          (record { buffer = body; response = []; calls = s.calls; sql = s.sql })
        ≡ ok (tt, w)
      → run_rpc service.env tokens body s
        ≡ ok (w.response, record s { calls = w.calls; sql = w.sql })
  unfolding run_rpc
  run_rpc-ok tokens body s done = ap (after_rpc s) done

  -- A request that is served is answered by the header, the response and a NUL, where the header
  -- announces the response without the NUL.
  pub handle_http-reply :
      (req : Request) (s : Server) {perms : Permissions} {c : ℕ} {cs : Bytes} {tokens : Tokens}
      {w : World}
      → req.uri ≡ codes "/rpc"
      → perms_of req ≡ ok (some perms)
      → post_body req ≡ ok (c ∷ cs)
      → service.jsmn_parse (c ∷ cs) ≡ (pos 0, tokens)
      → handle_json_rpc service.env tokens
          (record { buffer = c ∷ cs; response = []; calls = s.calls; sql = s.sql })
        ≡ ok (tt, w)
      → handle_http service req s
        ≡ ok (
          true,
          record {
            sent = s.sent ++ (success_header (length w.response) ++ (w.response ++ 0 ∷ []));
            calls = w.calls;
            sql = w.sql;
          },
        )
  unfolding serve reply
  handle_http-reply req s {c = c} {cs = cs} {tokens = tokens} {w = w} here known body parsed done =
      let size : length (w.response ++ 0 ∷ []) - 1 ≡ length w.response =
        omega (arith, length-append w.response (0 ∷ [])) in
      handle_http-rpc req s here known
      ∙ rw body (
          rw parsed
            (resume-ok _ (run_rpc-ok tokens (c ∷ cs) s done) ∙ rw size (rw (append_assoc s.sent))))

-- What a user may do does not matter: two sets of accounts that both know the user serve a request
-- alike, whatever the permissions.
pub handle_http-permissions :
    (service : Service) (other : Auth) (req : Request) (s : Server) {perms perms' : Permissions}
    → req.uri ≡ codes "/rpc"
    → perms_of service req ≡ ok (some perms)
    → perms_of (record service { auth = other }) req ≡ ok (some perms')
    → handle_http service req s ≡ handle_http (record service { auth = other }) req s
handle_http-permissions service other req s here known known' =
    handle_http-rpc service req s here known
    ∙ sym (handle_http-rpc (record service { auth = other }) req s here known')
