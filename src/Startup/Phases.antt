-- ===== src/Startup/Phases.antt =====
-- The order in which main of src/main.cpp does what it does outside.
use tau_shell.Prelude.{
  ℕ, ◌≡◌, refl, ap, ◌∙◌, Bool, true, false, Option, none, some, List, [], ◌∷◌, ◌++◌, Bytes, codes,
  if◌then◌else◌,
}
use tau_shell.Fault.{Res, ok, fault, Yields}
use tau_shell.Program.{Program, pure, lift, resume, ◌>>=◌, ◌>>◌}
use tau_shell.Auth.{Auth}
use tau_shell.Db.Model.{Sql}
use tau_shell.Webui.{HttpHandler, add_handler, start}
use tau_shell.Alerts.Loop.{Round}
use tau_shell.Startup.Options.{Options, parse_options}
use tau_shell.Startup.Config.{Config}
use tau_shell.Startup.Main.{
  Host, Action, write_pid, daemon, install_handlers, stop_session, close_log, close_db,
  create_directories, open_db, open_log, start_session, web, Machine, act, with_sql, put_sql, Setup,
  first_accounts, become_daemon, run_loop, run_session, with_log, with_db, with_directory,
  with_config, with_options, with_file, initial_db, config_of, main,
}

pub data Phase : Type 0 where
  fresh opened session web_started handling stopped closed failed : Phase

-- What may follow in a phase, and where it leads: the database is opened once and closed last, the
-- session is started once, with the database open, the web server once, with the session, and the
-- session is only stopped after the signal handlers were installed.
abbrev pub next : Phase → Action → Option Phase
next fresh (write_pid pid_file text) = some fresh
next fresh daemon = some fresh
next fresh (create_directories path) = some fresh
next fresh (open_db path) = some opened
next opened (open_log path) = some opened
next opened (start_session settings seed) = some session
next session (web call) = some web_started
next web_started install_handlers = some handling
next web_started close_db = some failed
next handling stop_session = some stopped
next stopped close_log = some stopped
next stopped close_db = some closed
next _ _ = none

abbrev pub after : Option Phase → List Action → Option Phase
after none acts = none
after (some ph) [] = some ph
after (some ph) (a ∷ acts) = after (next ph a) acts

-- The status with which main may end in a phase.
abbrev pub status : Phase → Option ℕ
status fresh = some 1
status opened = some 1
status failed = some 1
status closed = some 0
status _ = none

abbrev pub After : Machine → Phase → Type 0
After m ph = after (some fresh) m.actions ≡ some ph

after-none : (acts : List Action) → none ≡ after none acts
after-none [] = refl
after-none (a ∷ acts) = refl

after-append : (o : Option Phase) (xs ys : List Action) → after o (xs ++ ys) ≡ after (after o xs) ys
after-append none [] ys = after-none ys
after-append none (x ∷ xs) ys = after-none ys
after-append (some ph) [] ys = refl
after-append (some ph) (x ∷ xs) ys = after-append (next ph x) xs ys

-- From the first phase, a part of main that returns leads to the second.
record Passes {A : Type 0} (ph ph' : Phase) (m : Program Machine A) : Type 0 where
  passes : (w : Machine) → After w ph → Yields (λ r. After (r.1) ph') (m w)

-- From this phase, where main returns it ends in a phase that goes with its status.
record Ends (ph : Phase) (m : Program Machine ℕ) : Type 0 where
  ends :
      (w : Machine)
      → After w ph
      → Yields (λ r. (last : Phase) × After (r.1) last × (status last ≡ some (r.0))) (m w)

resume-Ends :
    {A : Type 0} {ph' : Phase} (r : Res (A × Machine)) (k : A → Program Machine ℕ)
    → Yields (λ x. After (x.1) ph') r
    → ((a : A) → Ends ph' (k a))
    → Yields (λ x. (last : Phase) × After (x.1) last × (status last ≡ some (x.0))) (resume r k)
resume-Ends (ok (a, v)) k h e = (e a).ends v h
resume-Ends (fault f) k h e = tt

>>=-Ends :
    {A : Type 0} {ph ph' : Phase} {m : Program Machine A} {k : A → Program Machine ℕ}
    → Passes ph ph' m
    → ((a : A) → Ends ph' (k a))
    → Ends ph (m >>= k)
>>=-Ends {m = m} {k = k} h e = record { ends = λ w b. resume-Ends (m w) k (h.passes w b) e }

>>-Ends :
    {A : Type 0} {ph ph' : Phase} {m : Program Machine A} {k : Program Machine ℕ}
    → Passes ph ph' m
    → Ends ph' k
    → Ends ph (m >> k)
>>-Ends {m = m} {k = k} h e = record {
  ends = λ w b. resume-Ends (m w) (λ _. k) (h.passes w b) (λ _. e);
}

if-Ends :
    {ph : Phase} (c : Bool) {m k : Program Machine ℕ}
    → Ends ph m
    → Ends ph k
    → Ends ph (if c then m else k)
if-Ends true h e = h
if-Ends false h e = e

pure-Ends : {ph : Phase} (n : ℕ) → status ph ≡ some n → Ends ph (pure n)
pure-Ends {ph = ph} n h = record { ends = λ w b. (ph, b, h) }

act-Passes : {ph ph' : Phase} (a : Action) → next ph a ≡ some ph' → Passes ph ph' (act a)
act-Passes {ph = ph} a h = record {
  passes = λ w b.
      after-append (some fresh) w.actions (a ∷ [])
      ∙ (ap (λ o. after o (a ∷ [])) b ∙ ap (λ o. after o []) h);
}

put_sql-After :
    {A : Type 0} {ph : Phase} (w : Machine) (r : Res (A × Sql))
    → After w ph
    → Yields (λ x. After (x.1) ph) (put_sql w r)
put_sql-After w (ok (a, s)) b = b
put_sql-After w (fault e) b = tt

module _ {A : Type 0} {ph : Phase} where
  with_sql-Passes : (q : Program Sql A) → Passes ph ph (with_sql q)
  with_sql-Passes q = record { passes = λ w b. put_sql-After w (q w.sql) b }

  pure-Passes : (a : A) → Passes ph ph (pure a)
  pure-Passes a = record { passes = λ w b. b }

  lift-Passes : (r : Res A) → Passes ph ph (lift r)
  lift-Passes (ok a) = record { passes = λ w b. b }
  lift-Passes (fault e) = record { passes = λ w b. tt }

  if-Passes :
      {ph' : Phase} (c : Bool) {m k : Program Machine A}
      → Passes ph ph' m
      → Passes ph ph' k
      → Passes ph ph' (if c then m else k)
  if-Passes true h e = h
  if-Passes false h e = e

resume-Passes :
    {A : Type 0} {ph ph' : Phase} (r : Res (Unit {0} × Machine)) (k : Program Machine A)
    → Yields (λ x. After (x.1) ph) r
    → Passes ph ph' k
    → Yields (λ x. After (x.1) ph') (resume r (λ _. k))
resume-Passes (ok (a, v)) k h e = e.passes v h
resume-Passes (fault f) k h e = tt

>>-Passes :
    {ph ph' ph'' : Phase} {m k : Program Machine (Unit {0})}
    → Passes ph ph' m
    → Passes ph' ph'' k
    → Passes ph ph'' (m >> k)
>>-Passes {m = m} {k = k} h e = record { passes = λ w b. resume-Passes (m w) k (h.passes w b) e }

module _ (h : Host) where
  become_daemon-Passes :
      (daemonize : Bool) (pid_file : Bytes)
      → Passes fresh fresh (become_daemon h daemonize pid_file)
  unfolding become_daemon
  become_daemon-Passes false pid_file = pure-Passes tt
  become_daemon-Passes true pid_file =
      >>-Passes (if-Passes _ (pure-Passes tt) (if-Passes _ (act-Passes _ refl) (pure-Passes tt)))
        (act-Passes daemon refl)

  initial_db-Passes : (initial : Bool) → Passes opened opened (initial_db h initial)
  initial_db-Passes initial = if-Passes initial (with_sql-Passes _) (pure-Passes tt)

  run_loop-Ends :
      (debug_file : Bool) (rounds : List Round) → Ends web_started (run_loop h debug_file rounds)
  unfolding run_loop
  run_loop-Ends debug_file rounds = >>-Ends (act-Passes install_handlers refl) (
      >>=-Ends (with_sql-Passes _) (λ l. >>-Ends (act-Passes stop_session refl) (
        >>-Ends (if-Passes debug_file (act-Passes close_log refl) (pure-Passes tt))
          (>>-Ends (act-Passes close_db refl) (pure-Ends 0 refl)))))

  module _ {S : Type 0} (t_handler : Auth → Bytes → HttpHandler S) (rounds : List Round) where
    run_session-Ends :
        (u : Setup) (debug_file : Bool) → Ends opened (run_session h t_handler rounds u debug_file)
    unfolding run_session start add_handler
    run_session-Ends u debug_file = >>-Ends (act-Passes _ refl) (
        >>-Ends (>>-Passes (act-Passes _ refl) (pure-Passes tt)) (
          if-Ends _ (run_loop-Ends debug_file rounds)
            (>>-Ends (act-Passes close_db refl) (pure-Ends 1 refl))))

    with_log-Ends : (u : Setup) → Ends opened (with_log h t_handler rounds u)
    unfolding with_log
    with_log-Ends u =
        if-Ends _ (run_session-Ends u false)
          (if-Ends _ (>>-Ends (act-Passes _ refl) (run_session-Ends u true)) (pure-Ends 1 refl))

    with_db-Ends :
        (u : Setup) (sqldb_dir : Bytes) → Ends fresh (with_db h t_handler rounds u sqldb_dir)
    unfolding with_db
    with_db-Ends u sqldb_dir =
        let sqldb_path = sqldb_dir ++ codes "/tau_sql.db" in
        if-Ends (h.opens_db sqldb_path)
          (>>-Ends (act-Passes (open_db sqldb_path) refl)
            (>>-Ends (initial_db-Passes u.options.initial) (with_log-Ends u)))
          (pure-Ends 1 refl)

    with_directory-Ends :
        (u : Setup) (sqldb_dir : Bytes) → Ends fresh (with_directory h t_handler rounds u sqldb_dir)
    unfolding with_directory
    with_directory-Ends u sqldb_dir = >>=-Ends (lift-Passes (h.is_directory sqldb_dir)) (λ there.
        if-Ends there (with_db-Ends u sqldb_dir) (
          >>-Ends (act-Passes (create_directories sqldb_dir) refl) (
            >>=-Ends (lift-Passes (h.create_directories sqldb_dir))
              (λ made. if-Ends made (with_db-Ends u sqldb_dir) (pure-Ends 1 refl)))))

    with_config-Ends :
        (o : Options) (a : Auth) (c : Config) → Ends fresh (with_config h t_handler rounds o a c)
    unfolding with_config
    with_config-Ends o a c = >>=-Ends (lift-Passes _) (λ s.
        >>-Ends (become_daemon-Passes o.daemonize c.pid_file)
          (>>=-Ends (lift-Passes _) (λ home. with_directory-Ends _ _)))

    with_file-Ends :
        (o : Options) (a : Auth) (c : Option (Res Config))
        → Ends fresh (with_file h t_handler rounds o a c)
    with_file-Ends o a none = pure-Ends 1 refl
    with_file-Ends o a (some c) = >>=-Ends (lift-Passes c) (with_config-Ends o a)

    with_options-Ends : (o : Option Options) → Ends fresh (with_options h t_handler rounds o)
    with_options-Ends none = pure-Ends 1 refl
    with_options-Ends (some o) =
        >>=-Ends (lift-Passes (first_accounts h (h.read_file (codes "users.conf"))))
          (λ a. with_file-Ends o a (config_of h o.config_file))

    main-Ends : (argv : List Bytes) → Ends fresh (main h t_handler rounds argv)
    unfolding main
    main-Ends argv = >>=-Ends (lift-Passes (parse_options argv)) with_options-Ends

    -- Whatever the command line, the files and the answers of the system: where main returns, it has
    -- done what it does outside in the order of the phases, and its status goes with the last one. With
    -- status 0 it has opened the database, started the session and then the web server, installed the
    -- signal handlers, stopped the session and closed the database, each once; with status 1 it has
    -- not got as far as the signal handlers.
    pub main-phases :
        (argv : List Bytes) (sql : Sql)
        → Yields
            (λ r.
              (last : Phase) × (after (some fresh) (r.1).actions ≡ some last)
              × (status last ≡ some (r.0)))
            (main h t_handler rounds argv (record { actions = []; sql = sql }))
    main-phases argv sql = (main-Ends argv).ends (record { actions = []; sql = sql }) refl
