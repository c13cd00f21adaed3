-- ===== src/Interleaving/Clients.antt =====
-- Clients without an account, in any interleaving of requests and alerts.
use tau_shell.Prelude.{
  suc, zero, ◌≡◌, refl, subst, sym, ap, ◌∙◌, Bool, Bool-cases, inl, inr, false, Option, none, some,
  List, [], ◌∷◌, Bytes, codes, bytes_eq,
}
use tau_shell.Prelude.Int.{ℤ, pos, negsuc}
use tau_shell.Fault.{Res, Yields-eq, fault-ne-ok, ok, fault}
use tau_shell.Program.{resume, lift}
use tau_shell.Auth.{Permissions}
use tau_shell.Db.Model.{Sql}
use tau_shell.Alerts.{dispatch}
use tau_shell.Json.{Tokens}
use tau_shell.Rpc.Session.{World, Call}
use tau_shell.Http.{
  Request, Service, Server, after_rpc, run_rpc, reply, return_error, serve, serve_body, authorized,
  post_body, handle_http,
}
use tau_shell.Http.Laws.{perms_of}
use tau_shell.Interleaving.{
  Event, request, alert, Step, serves, stores, Steps, stays, goes, is_known, is_authorized,
  authorized_events,
}

-- What a request does, but for what is sent.
abbrev effects : Res (Bool × Server) → Res (Bool × List Call × Sql)
effects (ok (taken, s)) = ok (taken, s.calls, s.sql)
effects (fault e) = fault e

-- Two servers that differ in nothing but what was sent.
abbrev pub IsLike : Server → Server → Type 0
IsLike s t = (t.calls ≡ s.calls) × (t.sql ≡ s.sql)

module _ (service : Service) (s : Server) (sent : Bytes) where
  abbrev other : Server
  other = record s { sent = sent }

  replied-other :
      (m : Res (Unit {0} × World))
      → effects (resume (after_rpc s m) reply) ≡ effects (resume (after_rpc other m) reply)
  unfolding reply
  replied-other (ok (done, w)) = refl
  replied-other (fault e) = refl

  serve-other :
      (r : ℤ) (tokens : Tokens) (body : Bytes)
      → effects (serve service.env r tokens body s)
        ≡ effects (serve service.env r tokens body other)
  unfolding serve run_rpc return_error
  serve-other (pos zero) tokens body = replied-other _
  serve-other (pos (suc n)) tokens body = refl
  serve-other (negsuc zero) tokens body = refl
  serve-other (negsuc (suc zero)) tokens body = refl
  serve-other (negsuc (suc (suc zero))) tokens body = refl
  serve-other (negsuc (suc (suc (suc n)))) tokens body = refl

  serve_body-other :
      (m : Res Bytes)
      → effects (resume (lift m s) (serve_body service))
        ≡ effects (resume (lift m other) (serve_body service))
  unfolding return_error
  serve_body-other (ok []) = refl
  serve_body-other (ok (c ∷ cs)) = serve-other _ _ _
  serve_body-other (fault e) = refl

  authorized-other :
      (req : Request) (m : Res (Option Permissions))
      → effects (resume (lift m s) (authorized service req))
        ≡ effects (resume (lift m other) (authorized service req))
  authorized-other req (ok none) = refl
  authorized-other req (ok (some perms)) = serve_body-other (post_body req)
  authorized-other req (fault e) = refl

  -- What was sent before does not matter to the effects.
  handle_http-other :
      (req : Request)
      → effects (handle_http service req s) ≡ effects (handle_http service req other)
  unfolding handle_http
  handle_http-other req = elim (Bool-cases (bytes_eq req.uri (codes "/rpc"))) [
    | inl here ↦ rw here (authorized-other req (perms_of service req))
    | inr elsewhere ↦ rw elsewhere
  ]

effects_ok :
    (m : Res (Bool × Server)) {taken : Bool} {calls : List Call} {sql : Sql}
    → effects m ≡ ok (taken, calls, sql)
    → (t : Server) × (m ≡ ok (taken, t)) × (t.calls ≡ calls) × (t.sql ≡ sql)
effects_ok (ok (b, t)) {taken} {calls} {sql} h =
    let (same, same_calls, same_sql) =
      Yields-eq {A = Bool × List Call × Sql} (λ r. (b ≡ r.0) × (t.calls ≡ r.1) × (t.sql ≡ r.2))
        (ok (b, t.calls, t.sql)) (refl, refl, refl) h in
    (t, ap (λ x. ok (x, t)) same, same_calls, same_sql)
effects_ok (fault e) h = absurd (fault-ne-ok h)

module _ (service : Service) where
  unknown-effects :
      (req : Request) (m : Res (Option Permissions)) (s s' : Server) (taken : Bool)
      → is_known m ≡ false
      → resume (lift m s) (authorized service req) ≡ ok (taken, s')
      → (s'.calls ≡ s.calls) × (s'.sql ≡ s.sql)
  unknown-effects req (ok none) s s' taken h e =
      Yields-eq {A = Bool × Server} (λ r. (r.1.calls ≡ s.calls) × (r.1.sql ≡ s.sql)) _ (refl, refl)
        e
  unknown-effects req (ok (some perms)) s s' taken h e = absurd (cc h)
  unknown-effects req (fault f) s s' taken h e = absurd (fault-ne-ok e)

  -- A request of a client without an account has no effect.
  unauthorized-effects :
      (req : Request) (s s' : Server) (taken : Bool)
      → is_authorized service req ≡ false
      → handle_http service req s ≡ ok (taken, s')
      → (s'.calls ≡ s.calls) × (s'.sql ≡ s.sql)
  unfolding handle_http
  unauthorized-effects req s s' taken h e = elim (Bool-cases (bytes_eq req.uri (codes "/rpc"))) [
    | inl here ↦ unknown-effects req (perms_of service req) s s' taken (rw here at h) (rw here at e)
    | inr elsewhere ↦
        Yields-eq {A = Bool × Server} (λ r. (r.1.calls ≡ s.calls) × (r.1.sql ≡ s.sql))
          (ok (false, s)) (refl, refl) (rw elsewhere at e)
  ]

  Step-IsLike :
      (i : Event) (s s' t : Server)
      → Step service i s s'
      → IsLike s t
      → (t' : Server) × Step service i t t' × IsLike s' t'
  Step-IsLike i s s' t (serves req s0 s1 taken e) (c, q) =
      let same : record s { sent = t.sent } ≡ t =
        ap (λ x. record s { sent = t.sent; calls = x }) (sym c)
        ∙ ap (λ x. record t { sql = x }) (sym q) in
      let done : effects (handle_http service req t) ≡ ok (taken, s'.calls, s'.sql) =
        sym (ap (λ x. effects (handle_http service req x)) same)
        ∙ (sym (handle_http-other service s t.sent req) ∙ ap effects e) in
      let (t', e', calls, sql) = effects_ok (handle_http service req t) done in
      (t', serves req t t' taken e', (calls, sql))
  Step-IsLike i s s' t (stores a s0 sql e) (c, q) =
      let stored = ap (dispatch service.env.platform service.env.engine a) q ∙ e in
      (record t { sql = sql }, stores a t sql stored, (c, refl))

  -- As long as no request and no alert ends in a fault, which ends the process, as a basic
  -- authorization without a colon does: clients without an account have no effect on the session
  -- and the database, in whatever order requests and alerts come. Without their requests the same
  -- steps are possible, from any server that differs at most in what was sent, and lead to the
  -- same calls of the session and the same statements.
  pub authorized_events-Steps :
      (es : List Event) (s s' t : Server)
      → Steps service es s s'
      → IsLike s t
      → (t' : Server) × Steps service (authorized_events service es) t t' × IsLike s' t'
  authorized_events-Steps es s s' t (stays s0) like = (t, stays t, like)
  authorized_events-Steps es s s'' t (goes (request req) fs s0 s' s1 (serves r s2 s3 taken e) steps)
        (c, q) =
      let rest = authorized_events service fs in
      elim (Bool-cases (is_authorized service req)) [
        | inl known ↦
            let kept : authorized_events service (request req ∷ fs) ≡ request req ∷ rest =
              rw known in
            let (t', step', like') =
              Step-IsLike (request req) s s' t (serves req s s' taken e) (c, q) in
            let (t'', steps', like'') = authorized_events-Steps fs s' s'' t' steps like' in
            (
              t'',
              subst (λ l. Steps service l t t'') (sym kept)
                  (goes (request req) rest t t' t'' step' steps'),
              like'',
            )
        | inr unknown ↦
            let dropped : authorized_events service (request req ∷ fs) ≡ rest = rw unknown in
            let (calls, sql) = unauthorized-effects req s s' taken unknown e in
            let (t'', steps', like'') =
              authorized_events-Steps fs s' s'' t steps (c ∙ sym calls, q ∙ sym sql) in
            (t'', subst (λ l. Steps service l t t'') (sym dropped) steps', like'')
      ]
  authorized_events-Steps es s s'' t (goes (alert i) fs s0 s' s1 step steps) like =
      let (t', step', like') = Step-IsLike (alert i) s s' t step like in
      let (t'', steps', like'') = authorized_events-Steps fs s' s'' t' steps like' in
      (t'', goes (alert i) (authorized_events service fs) t t' t'' step' steps', like'')
