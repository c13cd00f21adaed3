-- ===== src/Rpc/Service.antt =====
-- The handlers of src/handler/tau_handler.cpp for the session itself.
use tau_shell.Prelude.{Option, ◌++◌, codes}
use tau_shell.Program.{Program, pure, ◌>>=◌, ◌>>◌}
use tau_shell.Text.{show_ℤ}
use tau_shell.Json.{Tokens, string, primitive}
use tau_shell.Rpc.Session
use tau_shell.Rpc.Session.{World, call, print}
use tau_shell.Rpc.Args.{key, need, terminate, span_at, int_at}

abbrev pub Handler : Type 0
Handler = Program World (Unit {0})

-- The body is commented out.
unfoldable pub udp_analysis : Option Tokens → Handler
udp_analysis args = pure tt

unfoldable pub session_stats : Option Tokens → Handler
session_stats args = do
  call Session.post_session_stats
  print (codes "{ \"result\": \"post session status success\"}\n")

unfoldable pub stop_io_service : Option Tokens → Handler
stop_io_service args = do
  call Session.stop_service
  print (codes "{ \"result\": \"stop io service success\"}\n")

unfoldable pub restart_io_service : Option Tokens → Handler
restart_io_service args = do
  call Session.restart_service
  print (codes "{ \"result\": \"restart io service success\"}\n")

unfoldable pub crash_test : Option Tokens → Handler
crash_test args = do call Session.crash_test; print (codes "{ \"result\": \"crash success\"}\n")

-- The chains are printed to the log.
unfoldable pub get_all_chains : Option Tokens → Handler
get_all_chains args = do
  call Session.get_all_chains
  print (codes "{ \"result\": \"get all chains success\"}\n")

unfoldable pub new_account_seed : Option Tokens → Handler
new_account_seed args = do
  s ← key args string "account_seed"
  t ← need s
  terminate t
  account_seed ← span_at t
  call (Session.new_account_seed account_seed)
  print (codes "{ \"result\": \"new account seed success\"}\n")

unfoldable pub set_loop_time_interval : Option Tokens → Handler
set_loop_time_interval args = do
  ti ← key args primitive "time-interval"
  t ← need ti
  time_interval ← int_at t
  call (Session.set_loop_time_interval time_interval)
  print
      (codes "{ \"result\": \"Set Time Interval\": " ++ (show_ℤ time_interval ++ codes " \"OK\"}"))
