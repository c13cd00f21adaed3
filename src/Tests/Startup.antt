-- ===== src/Tests/Startup.antt =====
-- A start of src/main.cpp: its command line, its config file, its seed and its end.
use tau_shell.Prelude.{
  ℕ, ◌≡◌, refl, true, false, some, none, List, [], ◌∷◌, ◌++◌, Bytes, codes, zeros, bytes_eq,
  if◌then◌else◌, arith,
}
use tau_shell.Prelude.Int.{pos}
use tau_shell.Fault.{ok, fault, out_of_bounds, Yields}
use tau_shell.Program.{pure}
use tau_shell.Auth.{Auth, init, find_user, add_account, password_hash, draw_salt, full_permissions}
use tau_shell.Auth.File.{load_accounts}
use tau_shell.Hex.{hex_char_to_bytes_char, has_other}
use tau_shell.Alerts.Loop.{Round, started, main_loop, on_signals, on_signal, begin_shutdown}
use tau_shell.Alerts.{dispatch_all}
use tau_shell.Webui.{HttpHandler, mg_start, server_options}
use tau_shell.Startup.Options.{
  Form, no_options, all_words, meanings, parse_options, parse_words, split_name,
  parse_options-words, parse_options-past_table,
}
use tau_shell.Startup.Config.{
  Config, no_config, IsConfig, config_file, read_config, read_config-config_file,
}
use tau_shell.Startup.Seed.{account_seed, account_seed-account_seed}
use tau_shell.Startup.Main.{
  Host, main, first_accounts, settings, open_db, start_session, web, install_handlers, stop_session,
  close_db,
}
use tau_shell.Startup.Phases.{Phase, fresh, after, status, main-phases}
use tau_shell.Startup.Laws.{Answers, first_accounts-find_user, main-serves}
use tau_shell.Tests.Platform.{platform, lawful, hex}
use tau_shell.Tests.Db.{engine, empty_sql}
use tau_shell.Tests.Auth.{sha1}

abbrev forms : List Form
forms =
    Form.config_words (codes "old.conf")
    ∷ Form.passed_by b'x' [] refl
    ∷ Form.daemonize_eats (codes "-i")
    ∷ Form.config_joined (codes "tau.conf")
    ∷ []

parse_options-words_example :
    parse_options (all_words forms) ≡ ok (some (meanings forms no_options))
parse_options-words_example = parse_options-words forms

-- "-d -i" does not set `initial`
forms_mean :
    meanings forms no_options
    ≡ record { config_file = codes "tau.conf"; daemonize = true; initial = false }
forms_mean = refl

unknown_name : (split_name (codes "port=80")).0 ≡ codes "port"
unfolding split_name
unknown_name = refl

parse_options-past_table_example :
    parse_options (all_words forms ++ (b'-' ∷ b'-' ∷ codes "port=80") ∷ []) ≡ fault out_of_bounds
unfolding split_name
parse_options-past_table_example = parse_options-past_table forms b'p' (codes "ort=80") [] refl

abbrev config : Config
config = record {
  device_id = codes "device";
  account_seed = codes "null";
  bootstrap_nodes = codes "tau://node";
  pid_file = codes "tau.pid";
  error_log = codes "err.log";
  debug_log = codes "debug.log";
  listen_port = pos 6882;
  rpc_port = pos 8081;
  shell_save_path = codes "/shell";
  tau_save_path = codes "/tau";
}

config_fits : IsConfig config 6882 8081
config_fits = record {
  first = (ground arith, (ground arith, (ground arith, tt)));
  second = (ground arith, (ground arith, (ground arith, tt)));
  last = (ground arith, (ground arith, tt));
  listens = refl;
  serves = refl;
  listen_small = omega arith;
  rpc_small = omega arith;
}

read_config-config_file_example : read_config (config_file config 6882 8081) ≡ ok config
read_config-config_file_example = read_config-config_file config 6882 8081 config_fits

account_seed-account_seed_example :
    (account_seed platform (zeros 32) (codes "null") ≡ ok (zeros 32, hex (zeros 32)))
    × (account_seed platform (5 ∷ zeros 31) (hex (zeros 32)) ≡ ok (zeros 32, hex (zeros 32)))
account_seed-account_seed_example =
    account_seed-account_seed platform lawful (zeros 32) (5 ∷ zeros 31) (ground arith) refl

-- A host with no file on it.
abbrev host : Host
host = record {
  platform = platform;
  engine = engine;
  in_front = true;
  jsmn = λ text. [];
  sha1 = sha1;
  rand = λ n. 0;
  pid = pos 42;
  home = some (codes "/home/tau");
  read_file = λ path. none;
  can_write = λ path. true;
  is_directory = λ path. ok true;
  create_directories = λ path. ok true;
  opens_db = λ path. true;
  context = λ options. some 1;
  create_seed = zeros 32;
}

abbrev t_handler : Auth → Bytes → HttpHandler ℕ
t_handler a seed = record { address = 1; handle_http = pure true; handle_end_request = pure tt }

abbrev rounds : List Round
rounds = record { alert_queue = []; signals = 1; late_signals = 0 } ∷ []

first_accounts-find_user_example :
    let hash = password_hash sha1 (draw_salt 10 (λ n. 0)) in
    (a : Auth) × (first_accounts host none ≡ ok a)
    × (find_user sha1 a (codes "tau-shell") (codes "tester") ≡ (
        if bytes_eq (codes "tau-shell") (codes "tau-shell")
        then (if bytes_eq (hash (codes "tester")) (hash (codes "tester"))
            then some full_permissions
            else none)
        else none))
first_accounts-find_user_example =
    first_accounts-find_user host (codes "tau-shell") (codes "tester")

main-phases_example :
    Yields
      (λ r.
        (last : Phase) × (after (some fresh) (r.1).actions ≡ some last)
        × (status last ≡ some (r.0)))
      (main host t_handler rounds (all_words forms) (record { actions = []; sql = empty_sql }))
main-phases_example = main-phases host t_handler rounds (all_words forms) empty_sql

looped :
    main_loop platform engine rounds started empty_sql
    ≡ ok (record { quit = true; force_quit = false; shutting_down = true }, empty_sql)
unfolding main_loop dispatch_all on_signals on_signal begin_shutdown
looped = refl

no_words : parse_options [] ≡ ok (some no_options)
unfolding parse_options parse_words
no_words = refl

no_seed : account_seed platform (zeros 32) [] ≡ ok (zeros 32, [])
unfolding account_seed hex_char_to_bytes_char has_other
no_seed = refl

answers : Answers host [] no_config (zeros 32) [] (codes "/home/tau") 1
unfolding first_accounts load_accounts
answers = record {
  options = no_options;
  authorizer = add_account sha1 (λ n. 0) (codes "tau-shell") (codes "tester") (pos 0) init;
  parsed = no_words;
  loaded = refl;
  read = refl;
  seeded = no_seed;
  in_foreground = refl;
  old_tables = refl;
  at_home = refl;
  there = refl;
  opens = refl;
  no_log = refl;
  serves = refl;
}

main-serves_example :
    main host t_handler rounds [] (record { actions = []; sql = empty_sql })
    ≡ ok (
      0,
      record {
        actions =
            open_db (codes "/home/tau/tau_sql.db")
            ∷ start_session (settings no_config []) (zeros 32)
            ∷ web (mg_start (server_options (codes ".") (pos 8080) (pos 30)))
            ∷ install_handlers
            ∷ stop_session
            ∷ close_db
            ∷ [];
        sql = empty_sql;
      },
    )
main-serves_example =
    main-serves host t_handler rounds [] no_config (zeros 32) [] (codes "/home/tau") 1
      (record { quit = true; force_quit = false; shutting_down = true }) empty_sql empty_sql answers
      looped
