-- ===== src/Running/Ends.antt =====
-- When the loop of linux/running.rs ends, and that it has a verdict then.
use mathlib.Core.Path.{subst₂}
use sunwalker_box.Common.{
  ℕ, zero, suc, ◌≡◌, ◌⊎◌, inl, inr, refl, sym, ap, ◌∙◌, Bool, true, false, Option, none, some, ◌==◌,
  ==_iff, if◌then◌else◌, arith, Bool-cases,
}
use sunwalker_box.Common.Exec.{
  nix, Result, ok, err, pure, fail, gets, ◌>>=◌, ◌>>◌, bind_returned, pure_returned, gets_returned,
}
use sunwalker_box.Tracing.{Kernel}
use sunwalker_box.Running.{
  WaitStatus, still_alive, exited, killed, stopped, ptrace_event, unexpected, SingleRun,
  ProcessState, just_started, alive, emulate_syscall, is_exceeding_limits,
}
use sunwalker_box.Running.Events.{
  Run, deliver, on_stop, on_ptrace_event, dispatch_event, forgive, handle_event, esrch,
}
use sunwalker_box.Running.Loop.{Host, run_loop, wait_for_event, update_metrics}

-- An action that answers nothing but `false`.
record Falsy (m : Run Bool) : Type 0 where
  at : (s : SingleRun) (b : Bool) → (m s).0 ≡ ok b → b ≡ false

Falsy-pure : Falsy (pure false)
unfolding pure
Falsy-pure = record { at = λ s b h. cc }

Falsy-if : (b : Bool) (m n : Run Bool) → Falsy m → Falsy n → Falsy (if b then m else n)
Falsy-if true m n fm fn = fm
Falsy-if false m n fm fn = fn

module _ {A : Type 0} where
  Falsy-bind : (m : Run A) (f : A → Run Bool) → ((a : A) → Falsy (f a)) → Falsy (m >>= f)
  Falsy-bind m f ff = record {
    at = λ s b h.
        let whole : (m >>= f) s ≡ (ok b, ((m >>= f) s).1) = ap (λ r. (r, ((m >>= f) s).1)) h in
        let (a, _, h') = bind_returned m f s b ((m >>= f) s).1 whole in
        (ff a).at (m s).1 b (ap (λ r. r.0) h');
  }

ruleset falsy_rules = (Falsy-pure, Falsy-if, Falsy-bind)

module _ (k : Kernel) (fuel : ℕ) where
  deliver-Falsy : (pid signal : ℕ) → Falsy (deliver k fuel pid signal)
  unfolding deliver
  deliver-Falsy pid signal = Falsy-bind _ _ (λ _. Falsy-pure)

  on_stop-Falsy :
      (pid signal : ℕ) (process : Option ProcessState) → Falsy (on_stop k fuel pid signal process)
  unfolding on_stop
  on_stop-Falsy pid signal none = deliver-Falsy pid signal
  on_stop-Falsy pid signal (some alive) = deliver-Falsy pid signal
  on_stop-Falsy pid signal (some just_started) = search (falsy_rules, deliver-Falsy) depth 9
  on_stop-Falsy pid signal (some (emulate_syscall ret)) =
      search (falsy_rules, deliver-Falsy) depth 9

  on_ptrace_event-Falsy : (pid event : ℕ) → Falsy (on_ptrace_event k fuel pid event)
  unfolding on_ptrace_event
  on_ptrace_event-Falsy pid event = search falsy_rules depth 12

-- The main process exited or was killed.
abbrev pub IsEnd : ℕ → WaitStatus → Type 0
IsEnd main_pid (exited pid _) = pid ≡ main_pid
IsEnd main_pid (killed pid _) = pid ≡ main_pid
IsEnd main_pid _ = ⊥

module _ (k : Kernel) (fuel : ℕ) where
  forgive_returned : (r : Result Bool) → forgive k fuel r ≡ ok true → r ≡ ok true
  forgive_returned (ok b) h = h
  forgive_returned (err (nix e)) h = elim (Bool-cases (e == esrch)) [
    | inl gone ↦ absurd (ground (arith, gone))
    | inr other ↦ absurd (ground (arith, other))
  ]
  forgive_returned (err _) h = absurd (cc)

  never : (m : Run Bool) (s : SingleRun) → Falsy m → (m s).0 ≡ ok true → ⊥
  never m s f h = absurd (ground (arith, f.at s true h))

  dispatch_event-IsEnd :
      (status : WaitStatus) (s : SingleRun)
      → (dispatch_event k fuel status s).0 ≡ ok true
      → IsEnd (dispatch_event k fuel status s).1.main_pid status
  unfolding dispatch_event gets pure fail
  dispatch_event-IsEnd still_alive s h = absurd (cc)
  dispatch_event-IsEnd (exited pid code) s h = (==_iff pid s.main_pid).0 (ground arith)
  dispatch_event-IsEnd (killed pid signal) s h = (==_iff pid s.main_pid).0 (ground arith)
  dispatch_event-IsEnd (stopped pid signal) s h =
      never _ s (Falsy-bind _ _ (λ process. on_stop-Falsy k fuel pid signal process)) h
  dispatch_event-IsEnd (ptrace_event pid signal event) s h =
      never _ s (on_ptrace_event-Falsy k fuel pid event) h
  dispatch_event-IsEnd unexpected s h = absurd (cc)

  handle_event-IsEnd :
      (status : WaitStatus) (s : SingleRun)
      → (handle_event k fuel status s).0 ≡ ok true
      → IsEnd (handle_event k fuel status s).1.main_pid status
  unfolding handle_event
  handle_event-IsEnd status s h = dispatch_event-IsEnd status s (forgive_returned _ h)

module _ (k : Kernel) (host : Host) (fuel : ℕ) where
  abbrev Ended : WaitStatus → SingleRun → Type 0
  Ended status s = (is_exceeding_limits s.options s.results ≡ true) ⊎ IsEnd s.main_pid status

  abbrev loop_on : ℕ → WaitStatus → Bool → Run WaitStatus
  loop_on n status ended =
      if ended then pure status else (do update_metrics k host fuel; run_loop k host fuel n status)

  abbrev loop_body : ℕ → WaitStatus → Bool → Run WaitStatus
  loop_body n status exceeding = if exceeding then pure status else (do
    status' ← wait_for_event k host fuel
    ended ← handle_event k fuel status'
    loop_on n status' ended)

  loop_on-Ended :
      (n : ℕ) (status : WaitStatus) (s : SingleRun) (ended : Bool) (status' : WaitStatus)
      (s' : SingleRun)
      → ((status : WaitStatus) (s : SingleRun)
          → run_loop k host fuel n status s ≡ (ok status', s')
          → Ended status' s')
      → (ended ≡ true → IsEnd s.main_pid status)
      → loop_on n status ended s ≡ (ok status', s')
      → Ended status' s'
  loop_on-Ended n status s true status' s' later is_end h =
      let (same, kept) = pure_returned status status' s s' h in
      inr (subst₂ IsEnd (ap (λ s. s.main_pid) kept) same (is_end refl))
  loop_on-Ended n status s false status' s' later is_end h =
      let (_, _, h') = bind_returned _ _ s status' s' h in later status _ h'

  loop_body-Ended :
      (n : ℕ) (status : WaitStatus) (s : SingleRun) (exceeding : Bool) (status' : WaitStatus)
      (s' : SingleRun)
      → ((status : WaitStatus) (s : SingleRun)
          → run_loop k host fuel n status s ≡ (ok status', s')
          → Ended status' s')
      → is_exceeding_limits s.options s.results ≡ exceeding
      → loop_body n status exceeding s ≡ (ok status', s')
      → Ended status' s'
  loop_body-Ended n status s true status' s' later e h =
      let (_, kept) = pure_returned status status' s s' h in
      inl (ap (λ s. is_exceeding_limits s.options s.results) (sym kept) ∙ e)
  loop_body-Ended n status s false status' s' later e h =
      let (status1, _, h1) = bind_returned _ _ s status' s' h in
      let (ended, replied, h2) = bind_returned _ _ _ status' s' h1 in
      loop_on-Ended n status1 _ ended status' s' later
        (λ yes. handle_event-IsEnd k fuel status1 _ (replied ∙ ap ok yes)) h2

  -- Where the loop returns, a limit is exceeded or the last event was the end of the main process.
  pub run_loop-Ended :
      (n : ℕ) (status status' : WaitStatus) (s s' : SingleRun)
      → run_loop k host fuel n status s ≡ (ok status', s')
      → Ended status' s'
  unfolding run_loop
  run_loop-Ended zero status status' s s' h = absurd (unfold fail in cc)
  run_loop-Ended (suc n) status status' s s' h =
      let (exceeding, e, h') = bind_returned _ _ s status' s' h in
      let (found, kept) = gets_returned _ s exceeding e in
      loop_body-Ended n status s exceeding status' s'
        (λ status s h. run_loop-Ended n status status' s s' h) found
        (ap (loop_body n status exceeding) (sym kept) ∙ h')
