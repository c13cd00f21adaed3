-- ===== src/Webui/Laws.antt =====
-- The order of the handlers of src/rpc/webui.cpp, and the life of the web server.
use tau_shell.Prelude.{
  ℕ, Bool, true, false, ◌≡◌, ◌≢◌, refl, ap, Option, none, some, List, [], ◌∷◌, ◌++◌, Bytes, ◌==◌,
  arith, if◌then◌else◌, Option-cases, inl, inr, ◌∙◌,
}
use tau_shell.Prelude.Int.{ℤ}
use tau_shell.Fault.{ok, fault}
use tau_shell.Program.{Program, pure, resume, ◌>>=◌}
use tau_shell.Webui.{
  HttpHandler, WebuiBase, MgCall, mg_start, mg_stop, add_handler, remove_handler, erase_first,
  handle_http, start, stop,
}

module _ {ℓ} {S : Type ℓ} where
  abbrev first_of : Program S Bool → Program S Bool → Program S Bool
  first_of m k = m >>= λ handled. if handled then pure true else k

  -- Asking one, then a second, then a third, is the same in either grouping.
  first_of_assoc :
      (x m k : Program S Bool) (s : S) → first_of x (first_of m k) s ≡ first_of (first_of x m) k s
  first_of_assoc x m k s =
      elim (x s)
        as (λ r.
          resume r (λ handled. if handled then pure true else first_of m k)
          ≡ resume (resume r (λ handled. if handled then pure true else m))
              (λ handled. if handled then pure true else k)) [
                | fault e ↦ refl
                | ok (true, s') ↦ refl
                | ok (false, s') ↦ refl
              ]

  -- The handlers are asked in the order in which they were added, and the first one that answers true
  -- is the last one asked: of two lists, the second is asked where the first declines.
  pub handle_http-append :
      (xs ys : List (HttpHandler S)) (s : S)
      → handle_http (xs ++ ys) s
        ≡ (handle_http xs >>= λ handled. if handled then pure true else handle_http ys) s
  unfolding handle_http
  handle_http-append [] ys s = refl
  handle_http-append (x ∷ xs) ys s =
      ap (λ k. first_of x.handle_http k s) (λ i s'. handle_http-append xs ys s' i)
      ∙ first_of_assoc x.handle_http (handle_http xs) (handle_http ys) s

  abbrev pub NotAt : ℕ → List (HttpHandler S) → Type 0
  NotAt h [] = Unit
  NotAt h (i ∷ is) = (i.address ≢ h) × NotAt h is

  erase_first-append :
      (h : HttpHandler S) (is : List (HttpHandler S))
      → NotAt h.address is
      → erase_first h.address (is ++ h ∷ []) ≡ is
  unfolding erase_first
  erase_first-append h [] free = ground arith
  erase_first-append h (i ∷ is) (ne, free) = ground (arith, erase_first-append h is free)

  -- Removing a handler that was not there before it was added takes it back.
  pub remove_handler-add_handler :
      (h : HttpHandler S) (w : WebuiBase S)
      → NotAt h.address w.m_handlers
      → remove_handler h (add_handler h w) ≡ w
  unfolding remove_handler add_handler
  remove_handler-add_handler h w free = rw (erase_first-append h w.m_handlers free)

-- The context that runs after a call of Mongoose, where the call is allowed: a server starts where
-- none runs, and the one that is stopped is the one that runs.
abbrev pub after_call : (List Bytes → Option ℕ) → Option ℕ → MgCall → Option (Option ℕ)
after_call context none (mg_start options) = some (context options)
after_call context (some ctx) (mg_start options) = none
after_call context none (mg_stop ctx) = none
after_call context (some running) (mg_stop ctx) = if ctx == running then some none else none

abbrev pub after_calls : (List Bytes → Option ℕ) → Option ℕ → List MgCall → Option (Option ℕ)
after_calls context running [] = some running
after_calls context running (c ∷ cs) = elim (after_call context running c) [
  | none ↦ none
  | some running' ↦ after_calls context running' cs
]

module _ (context : List Bytes → Option ℕ) where
  after_calls-append :
      (running : Option ℕ) (xs ys : List MgCall) {running' : Option ℕ}
      → after_calls context running xs ≡ some running'
      → after_calls context running (xs ++ ys) ≡ after_calls context running' ys
  after_calls-append running [] ys h = cc
  after_calls-append running (x ∷ xs) ys h = elim (Option-cases (after_call context running x)) [
    | inl refused ↦ cc
    | inr (next, passed) ↦
        rw (passed, after_calls) (after_calls-append next xs ys (rw (passed, after_calls) at h))
  ]

pub data Op : Type 0 where
  start_op : ℤ → ℤ → Op
  stop_op : Op

module _ {ℓ} {S : Type ℓ} (context : List Bytes → Option ℕ) where
  abbrev pub run_op : Op → WebuiBase S → List MgCall × WebuiBase S
  run_op (start_op port num_threads) w = start context port num_threads w
  run_op stop_op w = stop w

  abbrev pub run_ops : List Op → WebuiBase S → List MgCall × WebuiBase S
  run_ops [] w = ([], w)
  run_ops (op ∷ ops) w =
      let (calls, w') = run_op op w in let (more, w'') = run_ops ops w' in (calls ++ more, w'')

  run_op_lem :
      (op : Op) (w : WebuiBase S)
      → after_calls context w.m_ctx ((run_op op w).0) ≡ some ((run_op op w).1).m_ctx
  unfolding start stop
  run_op_lem (start_op port num_threads) w = elim (Option-cases w.m_ctx) [
    | inl e ↦ rw e
    | inr (ctx, e) ↦ rw e (ground arith)
  ]
  run_op_lem stop_op w = elim (Option-cases w.m_ctx) [
    | inl e ↦ rw e
    | inr (ctx, e) ↦ rw e (ground arith)
  ]

  -- Whatever starts and stops follow on each other, the server never starts a second web server
  -- beside a running one, stops only the one that runs, and `m_ctx` is the one that runs at the end.
  pub run_ops_lem :
      (ops : List Op) (w : WebuiBase S)
      → let (calls, w') = run_ops ops w in after_calls context w.m_ctx calls ≡ some w'.m_ctx
  run_ops_lem [] w = refl
  run_ops_lem (op ∷ ops) w =
      let (calls, w') = run_op op w in
      after_calls-append context w.m_ctx calls _ (run_op_lem op w) ∙ run_ops_lem ops w'
