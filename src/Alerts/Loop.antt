-- ===== src/Alerts/Loop.antt =====
-- The main loop of src/main.cpp and its two signal handlers. A round is what the outside does between
-- two tests of the loop's condition: alerts, and SIGTERM and SIGINT before and during the wait.
use tau_shell.Prelude.{
  ◌≡◌, refl, ◌∙◌, ap, sym, fun_ext, ◌≤◌, ◌+◌, ◌++◌, arith, ℕ, zero, suc, Bool, true, false, not,
  ◌&&◌, List, [], ◌∷◌, if◌then◌else◌,
}
use tau_shell.Program.{resume, resume_assoc, Program, pure, ◌>>◌}
use tau_shell.Fault.{ok}
use tau_shell.Alerts.Laws.{dispatch_all-append}
use tau_shell.Hex.{Platform}
use tau_shell.Db.Model.{Engine, Sql}
use tau_shell.Alerts.{Alert, dispatch_all}

-- The queue of alerts and the signals of one turn: those before `shutting_down` is tested, and those
-- from there to the end.
pub record Round : Type 0 where
  pub alert_queue : List Alert
  pub signals : ℕ
  pub late_signals : ℕ

-- The handlers are exchanged when `shutting_down` is set.
pub record Flags : Type 0 where
  pub quit : Bool
  pub force_quit : Bool
  pub shutting_down : Bool

abbrev pub started : Flags
started = record { quit = false; force_quit = false; shutting_down = false }

-- sighandler, or sighandler_forcequit where it is installed
unfoldable pub on_signal : Flags → Flags
on_signal l = if l.shutting_down then record l { force_quit = true } else record l { quit = true }

unfoldable pub on_signals : ℕ → Flags → Flags
on_signals zero l = l
on_signals (suc n) l = on_signals n (on_signal l)

unfoldable pub begin_shutdown : Flags → Flags
begin_shutdown l = if l.quit && not l.shutting_down then record l { shutting_down = true } else l

module _ (p : Platform) (e : Engine) where
  -- The flags at the end, where the rounds are used up or the loop is left.
  unfoldable pub main_loop : List Round → Flags → Program Sql Flags
  main_loop [] l = pure l
  main_loop (r ∷ rounds) l = if l.quit then pure l else do
    dispatch_all p e r.alert_queue
    let l' = begin_shutdown (on_signals r.signals l)
    if l'.force_quit then pure l' else main_loop rounds (on_signals r.late_signals l')

abbrev pub AllQuiet : List Round → Type 0
AllQuiet [] = Unit
AllQuiet (r ∷ rounds) = (r.signals ≡ 0) × (r.late_signals ≡ 0) × AllQuiet rounds

abbrev pub queues : List Round → List Alert
queues [] = []
queues (r ∷ rounds) = r.alert_queue ++ queues rounds

abbrev pub stopping : Flags
stopping = record { quit = true; force_quit = false; shutting_down = true }

-- What becomes of the flags in a round.
abbrev pub round_flags : Round → Flags
round_flags r = on_signals r.late_signals (begin_shutdown (on_signals r.signals started))

on_signals-quit :
    (n : ℕ) → on_signals n (record started { quit = true }) ≡ record started { quit = true }
unfolding on_signals on_signal
on_signals-quit zero = refl
on_signals-quit (suc n) = on_signals-quit n

on_signals-started : (n : ℕ) → 1 ≤ n → on_signals n started ≡ record started { quit = true }
unfolding on_signals on_signal
on_signals-started zero h = elim h [ ]
on_signals-started (suc n) h = on_signals-quit n

on_signal-keeps_quit : (l : Flags) → l.quit ≡ true → (on_signal l).quit ≡ true
unfolding on_signal
on_signal-keeps_quit l h = ground arith

on_signals-keeps_quit : (n : ℕ) (l : Flags) → l.quit ≡ true → (on_signals n l).quit ≡ true
unfolding on_signals
on_signals-keeps_quit zero l h = h
on_signals-keeps_quit (suc n) l h = on_signals-keeps_quit n (on_signal l) (on_signal-keeps_quit l h)

-- In the first round with a signal, `force_quit` is still clear when it is tested, and `quit` is set
-- when the loop's condition is.
begin_shutdown-first : (n : ℕ) → (begin_shutdown (on_signals n started)).force_quit ≡ false
unfolding begin_shutdown on_signals
begin_shutdown-first zero = refl
begin_shutdown-first (suc n) = rw (on_signals-started (suc n) (omega arith))

signals-quit :
    (n late : ℕ)
    → 1 ≤ n + late
    → (on_signals late (begin_shutdown (on_signals n started))).quit ≡ true
unfolding begin_shutdown on_signals
signals-quit zero late h = rw (on_signals-started late (omega arith))
signals-quit (suc n) late h =
    rw (on_signals-started (suc n) (omega arith)) (on_signals-keeps_quit late stopping refl)

round_flags-quit : (r : Round) → 1 ≤ r.signals + r.late_signals → (round_flags r).quit ≡ true
round_flags-quit r h = signals-quit r.signals r.late_signals h

round_flags-quiet : (r : Round) → r.signals ≡ 0 → r.late_signals ≡ 0 → round_flags r ≡ started
unfolding begin_shutdown on_signals
round_flags-quiet r none late = rw (none, late)

module _ (p : Platform) (e : Engine) where
  main_loop-quit :
      (rest : List Round) (l : Flags) (s : Sql) → l.quit ≡ true → main_loop p e rest l s ≡ ok (l, s)
  unfolding main_loop
  main_loop-quit [] l s h = refl
  main_loop-quit (r ∷ rest) l s h = rw h

  -- One round from the start of the loop, whatever signals come in it.
  main_loop-round :
      (r : Round) (rest : List Round) (s : Sql)
      → main_loop p e (r ∷ rest) started s
        ≡ (dispatch_all p e r.alert_queue >> main_loop p e rest (round_flags r)) s
  unfolding main_loop
  main_loop-round r rest s = rw (begin_shutdown-first r.signals)

  -- Rounds without a signal handle their alerts in order and leave the flags alone.
  main_loop-quiet :
      (quiet rest : List Round) (s : Sql)
      → AllQuiet quiet
      → main_loop p e (quiet ++ rest) started s
        ≡ (dispatch_all p e (queues quiet) >> main_loop p e rest started) s
  unfolding dispatch_all
  main_loop-quiet [] rest s h = refl
  main_loop-quiet (r ∷ quiet) rest s (none, late, h) =
      main_loop-round r (quiet ++ rest) s
      ∙ (rw (round_flags-quiet r none late) (
          ap (λ k. resume (dispatch_all p e r.alert_queue s) (λ _. k))
            (fun_ext (λ s'. main_loop-quiet quiet rest s' h))
          ∙ (sym (resume_assoc (dispatch_all p e r.alert_queue s) _ _)
              ∙ ap (λ m. resume m (λ _. main_loop p e rest started))
                  (sym (dispatch_all-append p e r.alert_queue (queues quiet) s)))))

  main_loop-last :
      (r : Round) (rest : List Round) (s : Sql)
      → 1 ≤ r.signals + r.late_signals
      → main_loop p e (r ∷ rest) started s
        ≡ (dispatch_all p e r.alert_queue >> pure (round_flags r)) s
  main_loop-last r rest s signalled =
      main_loop-round r rest s
      ∙ ap (λ k. resume (dispatch_all p e r.alert_queue s) (λ _. k))
          (fun_ext (λ s'. main_loop-quit rest (round_flags r) s' (round_flags-quit r signalled)))

  -- The first signal ends the loop with the round in which it comes: its alerts are all handled, in
  -- the order of the queues, and no alert of a later round is, however many signals follow.
  pub main_loop-signal :
      (quiet : List Round) (r : Round) (rest : List Round) (s : Sql)
      → AllQuiet quiet
      → 1 ≤ r.signals + r.late_signals
      → main_loop p e (quiet ++ r ∷ rest) started s
        ≡ (dispatch_all p e (queues quiet ++ r.alert_queue) >> pure (round_flags r)) s
  main_loop-signal quiet r rest s h signalled =
      main_loop-quiet quiet (r ∷ rest) s h
      ∙ (ap (λ k. resume (dispatch_all p e (queues quiet) s) (λ _. k))
            (fun_ext (λ s'. main_loop-last r rest s' signalled))
          ∙ (sym (resume_assoc (dispatch_all p e (queues quiet) s) _ _)
              ∙ ap (λ m. resume m (λ _. pure (round_flags r)))
                  (sym (dispatch_all-append p e (queues quiet) r.alert_queue s))))
