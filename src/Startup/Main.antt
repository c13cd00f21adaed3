-- ===== src/Startup/Main.antt =====
-- main of src/main.cpp: from the command line to the exit status. `Host` is what the system, libTAU and
-- Mongoose answer.
use tau_shell.Prelude.{
  ℕ, Bool, true, false, Option, none, some, List, [], ◌∷◌, ◌++◌, Bytes, codes, if◌then◌else◌,
}
use tau_shell.Prelude.Int.{ℤ, pos}
use tau_shell.Fault.{Res, ok, fault, null_pointer}
use tau_shell.Fault
use tau_shell.Program.{Program, pure, lift, ◌>>=◌, ◌>>◌}
use tau_shell.Text.{show_ℤ}
use tau_shell.Hex.{Platform}
use tau_shell.Json.{Tokens}
use tau_shell.Auth.{Auth, init, add_account}
use tau_shell.Auth.File.{load_accounts}
use tau_shell.Db.Model.{Engine, Sql}
use tau_shell.Db.Initial.{sqlite_db_initial}
use tau_shell.Alerts.Loop.{Round, started, main_loop}
use tau_shell.Webui.{HttpHandler, WebuiBase, MgCall, add_handler, is_running, start}
use tau_shell.Startup.Options.{Options, parse_options}
use tau_shell.Startup.Config.{Config, no_config, read_config}
use tau_shell.Startup.Seed.{account_seed}

-- Files that are opened with "r" and "w+", the home directory, the other answers of the file system,
-- sqlite3_open_v2 and mg_start.
pub record Host : Type 0 where
  pub platform : Platform
  pub engine : Engine
  pub in_front : Bool
  pub jsmn : Bytes → Tokens
  pub sha1 : Bytes → Bytes
  pub rand : ℕ → ℕ
  pub pid : ℤ
  pub home : Option Bytes
  pub read_file : Bytes → Option Bytes
  pub can_write : Bytes → Bool
  pub is_directory : Bytes → Res Bool
  pub create_directories : Bytes → Res Bool
  pub opens_db : Bytes → Bool
  pub context : List Bytes → Option ℕ
  pub create_seed : Bytes

-- The settings of the session that depend on the config file. The others are constants: all alerts, an
-- item lifetime of 7200, a reopen time of 7200000, and communication and blockchain off.
pub record Settings : Type 0 where
  pub dht_bootstrap_nodes : Bytes
  pub device_id : Bytes
  pub account_seed : Bytes
  pub listen_interfaces : Bytes
  pub db_dir : Bytes

-- What main does outside, in order. The session gets the seed of its keys with its settings.
pub data Action : Type 0 where
  write_pid : (pid_file text : Bytes) → Action
  daemon install_handlers stop_session close_log close_db : Action
  create_directories open_db open_log : Bytes → Action
  start_session : Settings → (array_seed : Bytes) → Action
  web : MgCall → Action

pub record Machine : Type 0 where
  pub actions : List Action
  pub sql : Sql

abbrev pub act : Action → Program Machine (Unit {0})
act a m = ok (tt, record m { actions = m.actions ++ a ∷ [] })

-- tau_shell_sql::~tau_shell_sql; that sqlite3 refuses is printed.
abbrev pub close_database : Program Machine (Unit {0})
close_database = act close_db

abbrev pub act_web : List MgCall → Program Machine (Unit {0})
act_web [] = pure tt
act_web (c ∷ calls) = do act (web c); act_web calls

abbrev pub put_sql : {A : Type 0} → Machine → Res (A × Sql) → Res (A × Machine)
put_sql m (ok (a, s)) = ok (a, record m { sql = s })
put_sql m (fault e) = fault e

abbrev pub with_sql : {A : Type 0} → Program Sql A → Program Machine A
with_sql q m = put_sql m (q m.sql)

-- What main has read and made before it opens the database.
pub record Setup : Type 0 where
  pub options : Options
  pub config : Config
  pub authorizer : Auth
  pub array_seed : Bytes
  pub seed_text : Bytes

abbrev pub is_empty : Bytes → Bool
is_empty [] = true
is_empty (c ∷ cs) = false

abbrev pub settings : Config → Bytes → Settings
settings c seed_text = record {
  dht_bootstrap_nodes = c.bootstrap_nodes;
  device_id = c.device_id;
  account_seed = seed_text;
  listen_interfaces = codes "172.26.1.78:" ++ show_ℤ c.listen_port;
  db_dir = c.tau_save_path;
}

-- webui_base::webui_base and add_handler. The constructor leaves the port open; start sets it.
abbrev pub webport : {S : Type 0} → HttpHandler S → WebuiBase S
webport t_handler =
    add_handler t_handler
      (record { m_handlers = []; m_document_root = codes "."; m_ctx = none; m_listen_port = pos 0 })

-- std::filesystem::path of a NULL
abbrev pub home_dir : Option Bytes → Res Bytes
home_dir none = fault null_pointer
home_dir (some home) = ok home

module _ (h : Host) where
  -- The accounts that are loaded, or the first one.
  unfoldable pub first_accounts : Option Bytes → Res Auth
  first_accounts file = Fault.◌>>=◌ (load_accounts h.platform file init) (λ (opened, a).
      if opened
      then ok a
      else ok (add_account h.sha1 h.rand (codes "tau-shell") (codes "tester") (pos 0) a))

  abbrev pub write_pid_file : Bytes → Program Machine (Unit {0})
  write_pid_file pid_file =
      if is_empty pid_file
      then pure tt
      else if h.can_write pid_file
      then act (write_pid pid_file (show_ℤ h.pid))
      else pure tt

  unfoldable pub become_daemon : Bool → Bytes → Program Machine (Unit {0})
  become_daemon false pid_file = pure tt
  become_daemon true pid_file = do write_pid_file pid_file; act daemon

  -- tau_shell_sql::tau_shell_sql, which ends the process where the file cannot be opened
  abbrev pub open_database : Bytes → Program Machine ℕ → Program Machine ℕ
  open_database sqldb_path k =
      if h.opens_db sqldb_path then (do act (open_db sqldb_path); k) else pure 1

  abbrev pub close_log_file : Bool → Program Machine (Unit {0})
  close_log_file debug_file = if debug_file then act close_log else pure tt

  -- From the signal handlers to the end.
  unfoldable pub run_loop : Bool → List Round → Program Machine ℕ
  run_loop debug_file rounds = do
    act install_handlers
    l ← with_sql (main_loop h.platform h.engine rounds started)
    act stop_session
    close_log_file debug_file
    close_database
    pure 0

  abbrev pub initial_db : Bool → Program Machine (Unit {0})
  initial_db initial =
      if initial
      then with_sql
          (sqlite_db_initial h.engine h.in_front h.jsmn (h.read_file (codes "./config/1.json")))
      else pure tt

  -- `none` where the file cannot be opened, which ends the process with status 1
  abbrev pub config_of : Bytes → Option (Res Config)
  config_of [] = some (ok no_config)
  config_of (c ∷ cs) = elim (h.read_file (c ∷ cs)) [
    | none ↦ none
    | some file ↦ some (read_config file)
  ]

  -- The handler of requests is made of the accounts and of the seed of the keys.
  module _ {S : Type 0} (t_handler : Auth → Bytes → HttpHandler S) (rounds : List Round) where
    -- From the session on. Without a web server main returns, which closes the database.
    unfoldable pub run_session : Setup → Bool → Program Machine ℕ
    run_session u debug_file = do
      act (start_session (settings u.config u.seed_text) u.array_seed)
      let (calls, w) =
          start h.context u.config.rpc_port (pos 30) (webport (t_handler u.authorizer u.array_seed))
      act_web calls
      if is_running w then run_loop debug_file rounds else (do close_database; pure 1)

    unfoldable pub with_log : Setup → Program Machine ℕ
    with_log u =
        if is_empty u.config.debug_log
        then run_session u false
        else if h.can_write u.config.debug_log
        then (do act (open_log u.config.debug_log); run_session u true)
        else pure 1

    unfoldable pub with_db : Setup → Bytes → Program Machine ℕ
    with_db u sqldb_dir =
        open_database (sqldb_dir ++ codes "/tau_sql.db")
          (do initial_db u.options.initial; with_log u)

    unfoldable pub with_directory : Setup → Bytes → Program Machine ℕ
    with_directory u sqldb_dir = do
      there ← lift (h.is_directory sqldb_dir)
      if there then with_db u sqldb_dir else (do
        act (create_directories sqldb_dir)
        made ← lift (h.create_directories sqldb_dir)
        if made then with_db u sqldb_dir else pure 1)

    unfoldable pub with_config : Options → Auth → Config → Program Machine ℕ
    with_config o a c = do
      (seed, seed_text) ← lift (account_seed h.platform h.create_seed c.account_seed)
      become_daemon o.daemonize c.pid_file
      home ← lift (home_dir h.home)
      with_directory
          (record {
            options = o;
            config = c;
            authorizer = a;
            array_seed = seed;
            seed_text = seed_text;
          })
          (home ++ c.shell_save_path)

    abbrev pub with_file : Options → Auth → Option (Res Config) → Program Machine ℕ
    with_file o a none = pure 1
    with_file o a (some c) = lift c >>= with_config o a

    abbrev pub with_options : Option Options → Program Machine ℕ
    with_options none = pure 1
    with_options (some o) = do
      a ← lift (first_accounts (h.read_file (codes "users.conf")))
      with_file o a (config_of o.config_file)

    unfoldable pub main : List Bytes → Program Machine ℕ
    main argv = do o ← lift (parse_options argv); with_options o
