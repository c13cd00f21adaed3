-- ===== src/Startup/Laws.antt =====
-- What main of src/main.cpp comes to where nothing fails, and the account that it starts with.
use tau_shell.Prelude.{
  ℕ, ◌≡◌, refl, ◌∙◌, true, false, none, some, List, [], ◌∷◌, ◌++◌, Bytes, codes, bytes_eq,
  if◌then◌else◌,
}
use tau_shell.Prelude.Int.{pos}
use tau_shell.Fault.{ok}
use tau_shell.Auth.{
  Auth, init, add_account, find_user, password_hash, draw_salt, full_permissions, group_permissions,
}
use tau_shell.Auth.File.{load_accounts}
use tau_shell.Auth.Accounts.{find_user-add_account}
use tau_shell.Table.{lookup}
use tau_shell.Db.Model.{Sql}
use tau_shell.Alerts.Loop.{Round, Flags, started, main_loop}
use tau_shell.Webui.{HttpHandler, mg_start, server_options, start, add_handler, is_running}
use tau_shell.Startup.Options.{Options, parse_options}
use tau_shell.Startup.Config.{Config}
use tau_shell.Startup.Seed.{account_seed}
use tau_shell.Startup.Main.{
  Host, main, with_config, with_directory, with_db, with_log, run_session, run_loop, become_daemon,
  first_accounts, config_of, settings, open_db, start_session, web, install_handlers, stop_session,
  close_db,
}

-- Where users.conf cannot be opened there is one account: tau-shell has all permissions with every
-- password that hashes as "tester", and nobody else has any.
pub first_accounts-find_user :
    (h : Host) (username password : Bytes)
    → let hash = password_hash h.sha1 (draw_salt 10 h.rand) in
      (a : Auth) × (first_accounts h none ≡ ok a)
      × (find_user h.sha1 a username password ≡ (
          if bytes_eq (codes "tau-shell") username
          then (if bytes_eq (hash password) (hash (codes "tester"))
              then some full_permissions
              else none)
          else none))
unfolding first_accounts load_accounts
first_accounts-find_user h username password = (
  add_account h.sha1 h.rand (codes "tau-shell") (codes "tester") (pos 0) init,
  refl,
  find_user-add_account h.sha1 h.rand (codes "tau-shell") (codes "tester") (pos 0) init username
        password
      ∙ (unfold group_permissions in unfold find_user in unfold lookup in refl),
)

-- The host answers as a start wants it that neither makes tables nor leaves the terminal.
pub record Answers (h : Host) (argv : List Bytes) (c : Config) (seed seed_text home : Bytes)
    (ctx : ℕ) : Type 0 where
  pub options : Options
  pub authorizer : Auth
  pub parsed : parse_options argv ≡ ok (some options)
  pub loaded : first_accounts h (h.read_file (codes "users.conf")) ≡ ok authorizer
  pub read : config_of h options.config_file ≡ some (ok c)
  pub seeded : account_seed h.platform h.create_seed c.account_seed ≡ ok (seed, seed_text)
  pub in_foreground : options.daemonize ≡ false
  pub old_tables : options.initial ≡ false
  pub at_home : h.home ≡ some home
  pub there : h.is_directory (home ++ c.shell_save_path) ≡ ok true
  pub opens : h.opens_db ((home ++ c.shell_save_path) ++ codes "/tau_sql.db") ≡ true
  pub no_log : c.debug_log ≡ []
  pub serves : h.context (server_options (codes ".") c.rpc_port (pos 30)) ≡ some ctx

module _ (h : Host) {S : Type 0} (t_handler : Auth → Bytes → HttpHandler S)
    (rounds : List Round) where
  pub main-serves :
      (argv : List Bytes) (c : Config) (seed seed_text home : Bytes) (ctx : ℕ) (l : Flags)
      (sql sql' : Sql)
      → Answers h argv c seed seed_text home ctx
      → main_loop h.platform h.engine rounds started sql ≡ ok (l, sql')
      → main h t_handler rounds argv (record { actions = []; sql = sql })
        ≡ ok (
          0,
          record {
            actions =
                open_db ((home ++ c.shell_save_path) ++ codes "/tau_sql.db")
                ∷ start_session (settings c seed_text) seed
                ∷ web (mg_start (server_options (codes ".") c.rpc_port (pos 30)))
                ∷ install_handlers
                ∷ stop_session
                ∷ close_db
                ∷ [];
            sql = sql';
          },
        )
  unfolding main with_config with_directory with_db with_log run_session run_loop become_daemon
      start add_handler is_running
  main-serves argv c seed seed_text home ctx l sql sql' a looped = rw a.parsed (
      rw a.loaded (
        rw a.read (
          rw a.seeded (
            rw a.in_foreground (
              rw a.at_home (
                rw a.there
                  (rw a.opens (rw a.old_tables (rw a.no_log (rw a.serves (rw looped)))))))))))
