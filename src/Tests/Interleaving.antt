-- ===== src/Tests/Interleaving.antt =====
-- A stranger, an alert and a user, one after the other, at the server of src/main.cpp.
use tau_shell.Prelude.{refl, [], ◌∷◌, ◌++◌, List, length}
use tau_shell.Alerts.{dispatch}
use tau_shell.Alerts
use tau_shell.Http.{Server, unauthorized, success_header}
use tau_shell.Http.Laws.{handle_http-unauthorized, handle_http-reply}
use tau_shell.Interleaving.{
  Event, request, alert, Step, serves, stores, Steps, stays, goes, authorized_events,
}
use tau_shell.Interleaving.Clients.{IsLike, authorized_events-Steps}
use tau_shell.Tests.Http
use tau_shell.Tests.Http.{
  service, server, anonymous, no_user, full_perms, body_read, missing_method,
}
use tau_shell.Tests.Dispatch.{missing_method_reply}

abbrev events : List Event
events = request anonymous ∷ (alert Alerts.log ∷ (request Http.request ∷ []))

abbrev refused : Server
refused = record server { sent = unauthorized }

abbrev answered : Server
answered = record server {
  sent = unauthorized ++ (success_header (length missing_method) ++ (missing_method ++ 0 ∷ []));
}

alert-Step : Step service (alert Alerts.log) refused refused
unfolding dispatch
alert-Step = stores Alerts.log refused server.sql refl

events_run : Steps service events server answered
events_run =
    goes (request anonymous) _ server refused answered
      (serves anonymous server refused _
        (handle_http-unauthorized service anonymous server refl no_user))
      (goes (alert Alerts.log) _ refused refused answered alert-Step (
        goes (request Http.request) [] refused answered answered
          (serves Http.request refused answered _ (
            handle_http-reply service Http.request refused refl full_perms body_read refl
              missing_method_reply))
          (stays answered)))

authorized_events-Steps_example :
    (t' : Server) × Steps service (authorized_events service events) server t' × IsLike answered t'
authorized_events-Steps_example =
    authorized_events-Steps service events server answered server events_run (refl, refl)
