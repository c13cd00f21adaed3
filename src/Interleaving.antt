-- ===== src/Interleaving.antt =====
-- Requests on the threads of src/rpc/webui.cpp and alerts of the main loop of src/main.cpp in any
-- order, each of them as one step on the session and the database that they share.
pub mod Clients
use tau_shell.Prelude.{
  ◌≡◌, Bool, true, false, ◌&&◌, Option, none, some, List, [], ◌∷◌, Bytes, codes, bytes_eq,
  if◌then◌else◌,
}
use tau_shell.Fault.{Res, ok, fault}
use tau_shell.Auth.{Permissions}
use tau_shell.Db.Model.{Sql}
use tau_shell.Alerts.{Alert, dispatch}
use tau_shell.Http.{Request, Service, Server, handle_http}
use tau_shell.Http.Laws.{perms_of}

pub data Event : Type 0 where
  request : Request → Event
  alert : Alert → Event

abbrev pub is_known : Res (Option Permissions) → Bool
is_known (ok (some perms)) = true
is_known (ok none) = false
is_known (fault e) = false

module _ (service : Service) where
  -- A call that ends in a fault ends the process, and is no step.
  pub data Step : Event → Server → Server → Type 0 where
    serves :
        (req : Request) (s s' : Server) (taken : Bool)
        → handle_http service req s ≡ ok (taken, s')
        → Step (request req) s s'
    stores :
        (i : Alert) (s : Server) (sql : Sql)
        → dispatch service.env.platform service.env.engine i s.sql ≡ ok (tt, sql)
        → Step (alert i) s (record s { sql = sql })

  pub data Steps : List Event → Server → Server → Type 0 where
    stays : (s : Server) → Steps [] s s
    goes :
        (i : Event) (es : List Event) (s s' s'' : Server)
        → Step i s s'
        → Steps es s' s''
        → Steps (i ∷ es) s s''

  -- A request for /rpc of a user with an account.
  abbrev pub is_authorized : Request → Bool
  is_authorized req = bytes_eq req.uri (codes "/rpc") && is_known (perms_of service req)

  -- The alerts, and the requests of users with an account.
  abbrev pub authorized_events : List Event → List Event
  authorized_events [] = []
  authorized_events (request req ∷ es) =
      if is_authorized req then request req ∷ authorized_events es else authorized_events es
  authorized_events (alert i ∷ es) = alert i ∷ authorized_events es
