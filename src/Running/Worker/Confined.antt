-- ===== src/Running/Worker/Confined.antt =====
-- What `executor_worker` of linux/running.rs has done before it becomes the program.
use mathlib.Core.Path.{subst}
use sunwalker_box.Common.{
  ℕ, ◌/◌, ◌%◌, ◌≡◌, refl, sym, ap, ◌∙◌, false, Option, none, some, List, [], ◌∷◌, ◌++◌, map,
  Bool-cases, inl, inr,
}
use sunwalker_box.Common.Exec.{
  nix, io, message, panic, unfinished, Result, ok, err, fail, lift, skip, and_then, ◌>>=◌,
}
use sunwalker_box.Common.Exec.Triples.{
  Triple-granted, Triple, Triple-bind, Triple-skip, Triple-lift, Triple-unwrap, Triple-pure,
  Triple-given, Triple-ends, Triple-weaken_end,
}
use sunwalker_box.Serde.Text.{has_nul}
use sunwalker_box.Running.Worker.{
  stdin, stdout, stderr, WorkerCall, seccomp, setgroups, setgid, setuid, prctl, chdir, dup2,
  setitimer, traceme, fexecve, WorkerHistory, WorkerHost, Work, EnvVars, internal_user_uid,
  internal_user_gid, filter_flags, pr_set_tsc, pr_tsc_sigsegv, space_dir, exec_wrapper, to_cstrings,
  env_entry, work_call, apply_seccomp_filter, disable_rdtsc, drop_privileges, env_vars, set_timer,
  redirect_streams, become_program, send_report, report_error, executor_worker,
}

-- The timer, where there is a limit.
abbrev pub timer_calls : Option ℕ → WorkerHistory
timer_calls none = []
timer_calls (some limit) = setitimer (limit / 1_000_000_000) (limit % 1_000_000_000 / 1000) ∷ []

-- What the worker has called to confine itself, the latest first.
abbrev pub confining_calls : Option ℕ → WorkerHistory
confining_calls cpu_time_limit =
    traceme
    ∷ (timer_calls cpu_time_limit
        ++ dup2 stderr 2
          ∷ dup2 stdout 1
          ∷ dup2 stdin 0
          ∷ chdir space_dir
          ∷ prctl pr_set_tsc pr_tsc_sigsegv
          ∷ setuid internal_user_uid
          ∷ setgid internal_user_gid
          ∷ setgroups (internal_user_gid ∷ [])
          ∷ seccomp filter_flags
          ∷ [])

-- No text ends before its end.
abbrev pub NoNuls : List (List ℕ) → Type 0
NoNuls [] = Unit {0}
NoNuls (text ∷ texts) = (has_nul text ≡ false) × NoNuls texts

-- The variables of the program: those it was given, or else those of the box.
abbrev pub chosen_vars : WorkerHost → Option EnvVars → Option EnvVars
chosen_vars host none = host.vars
chosen_vars host (some env) = some env

-- Each of the calls succeeded.
abbrev pub AllGranted : WorkerHost → WorkerHistory → Type 0
AllGranted host [] = Unit {0}
AllGranted host (c ∷ h) = (host.call_reply h c ≡ none) × AllGranted host h

to_cstrings_rest :
    (text : List ℕ) (texts : List (List ℕ)) (r : Result (List (List ℕ))) (made : List (List ℕ))
    → and_then r (λ rest. ok (text ∷ rest)) ≡ ok made
    → (rest : List (List ℕ)) × (r ≡ ok rest) × (made ≡ text ∷ rest)
to_cstrings_rest text texts (ok rest) made e = (rest, refl, cc)
to_cstrings_rest text texts (err x) made e = absurd (cc)

to_cstrings_lem :
    (texts made : List (List ℕ)) → to_cstrings texts ≡ ok made → (made ≡ texts) × NoNuls texts
unfolding to_cstrings
to_cstrings_lem [] made e = (cc, tt)
to_cstrings_lem (text ∷ texts) made e = elim (Bool-cases (has_nul text)) [
  | inl z ↦ let e' = rw z at e in absurd (cc)
  | inr z ↦
      let e' = rw z at e in
      let (rest, one, two) = to_cstrings_rest text texts (to_cstrings texts) made e' in
      let (same, nuls) = to_cstrings_lem texts rest one in
      (two ∙ ap (λ x. text ∷ x) same, (z, nuls))
]

-- Whenever a program was executed, it was the wrapper with the arguments and the variables of the
-- program, none of which has a zero byte, and the calls before it were those that confine it, each
-- with success.
abbrev pub Confined :
    WorkerHost → List (List ℕ) → Option EnvVars → Option ℕ → WorkerHistory → Type 0
Confined host argv env limit [] = Unit {0}
Confined host argv env limit (fexecve args envp ∷ h) =
    ((args ≡ exec_wrapper ∷ argv) × NoNuls args)
    × ((vars : EnvVars) × (chosen_vars host env ≡ some vars)
        × (envp ≡ map env_entry vars)
        × NoNuls envp)
    × (h ≡ confining_calls limit)
    × AllGranted host h
Confined host argv env limit (_ ∷ h) = Confined host argv env limit h

module _ (host : WorkerHost) (argv : List (List ℕ)) (env : Option EnvVars) (limit : Option ℕ) where
  -- The calls so far are these, each with success.
  abbrev At : WorkerHistory → WorkerHistory → Type 0
  At k h = AllGranted host h × (h ≡ k)

  abbrev Keeps :
      {A : Type 0} → (WorkerHistory → Type 0) → (A → WorkerHistory → Type 0) → Work A → Type 0
  Keeps P Q m = Triple (Confined host argv env limit) P Q m

  Keeps-call :
      {k : WorkerHistory} (c : WorkerCall)
      → ((h : WorkerHistory)
          → Confined host argv env limit h
          → At k h
          → Confined host argv env limit (c ∷ h))
      → Keeps (At k) (λ _. At (c ∷ k)) (work_call host c)
  unfolding work_call
  Keeps-call c keep =
      Triple-granted c host.call_reply keep (λ u h (g, same) e. ((e, g), ap (λ x. c ∷ x) same))

  module _ {k : WorkerHistory} where
    Keeps-drop_privileges :
        Keeps
          (At k)
          (λ _. At (
            setuid internal_user_uid
            ∷ setgid internal_user_gid
            ∷ setgroups (internal_user_gid ∷ [])
            ∷ k))
          (drop_privileges host)
    unfolding drop_privileges
    Keeps-drop_privileges =
        Triple-bind _ _ (Keeps-call _ (λ h i p. i))
          (λ _. Triple-bind _ _ (Keeps-call _ (λ h i p. i)) (λ _. Keeps-call _ (λ h i p. i)))

    Keeps-redirect_streams :
        Keeps
          (At k)
          (λ _. At (dup2 stderr 2 ∷ dup2 stdout 1 ∷ dup2 stdin 0 ∷ k))
          (redirect_streams host)
    unfolding redirect_streams
    Keeps-redirect_streams =
        Triple-bind _ _ (Keeps-call _ (λ h i p. i))
          (λ _. Triple-bind _ _ (Keeps-call _ (λ h i p. i)) (λ _. Keeps-call _ (λ h i p. i)))

    Keeps-env_vars :
        (env' : Option EnvVars)
        → Keeps (At k) (λ vars h. (chosen_vars host env' ≡ some vars) × At k h) (env_vars host env')
    Keeps-env_vars (some vars) = Triple-pure vars (λ _ p. (refl, p))
    Keeps-env_vars none = Triple-unwrap host.vars (λ vars e _ p. (e, p))

    Keeps-cstrings :
        (texts : List (List ℕ))
        → Keeps
            (At k)
            (λ made h. ((made ≡ texts) × NoNuls made) × At k h)
            (lift (to_cstrings texts))
    Keeps-cstrings texts = Triple-lift (to_cstrings texts) (λ made e _ p.
        let (same, nuls) = to_cstrings_lem texts made e in
        ((same, subst NoNuls (sym same) nuls), p))

  Keeps-set_timer :
      (o : Option ℕ) (k : WorkerHistory)
      → Keeps (At k) (λ _. At (timer_calls o ++ k)) (set_timer host o)
  unfolding set_timer
  Keeps-set_timer none k = Triple-skip (λ _ p. p)
  Keeps-set_timer (some n) k = Keeps-call _ (λ h i p. i)

  abbrev streams_calls : WorkerHistory
  streams_calls =
      dup2 stderr 2
      ∷ dup2 stdout 1
      ∷ dup2 stdin 0
      ∷ chdir space_dir
      ∷ prctl pr_set_tsc pr_tsc_sigsegv
      ∷ setuid internal_user_uid
      ∷ setgid internal_user_gid
      ∷ setgroups (internal_user_gid ∷ [])
      ∷ seccomp filter_flags
      ∷ []

  -- The program is executed with these.
  Keeps-execute :
      (args envp : List (List ℕ)) (vars : EnvVars)
      → (args ≡ exec_wrapper ∷ argv) × NoNuls args
      → chosen_vars host env ≡ some vars
      → (envp ≡ map env_entry vars) × NoNuls envp
      → Keeps
          (At streams_calls)
          (λ _ _. Unit {0})
          (set_timer host limit >>= λ _.
            work_call host traceme >>= λ _. work_call host (fexecve args envp))
  Keeps-execute args envp vars qa chosen qe =
      Triple-bind _ _ (Keeps-set_timer limit streams_calls) (λ _.
        Triple-bind _ _ (Keeps-call _ (λ h i p. i)) (λ _.
          Triple-weaken_end _ (λ _ _ _. tt)
            (Keeps-call _ (λ h i (g, at). (qa, (vars, chosen, qe.0, qe.1), at, g)))))

  Keeps-become_program : Keeps (At []) (λ _ _. Unit {0}) (become_program host argv env limit)
  unfolding become_program apply_seccomp_filter disable_rdtsc
  Keeps-become_program = Triple-bind _ _ (Keeps-call _ (λ h i p. i)) (λ _.
      Triple-bind _ _ Keeps-drop_privileges (λ _. Triple-bind _ _ (Keeps-call _ (λ h i p. i)) (λ _.
        Triple-bind _ _ (Keeps-call _ (λ h i p. i)) (λ _.
          Triple-bind _ _ Keeps-redirect_streams (λ _.
            Triple-bind _ _ (Keeps-cstrings (exec_wrapper ∷ argv)) (λ args. Triple-given _ (λ qa.
              Triple-bind _ _ (Keeps-env_vars env) (λ vars. Triple-given _ (λ chosen.
                Triple-bind _ _ (Keeps-cstrings (map env_entry vars)) (λ envp.
                  Triple-given _ (λ qe. Keeps-execute args envp vars qa chosen qe)))))))))))

  report_error-Confined :
      (r : Result (Unit {0})) (h : WorkerHistory)
      → Confined host argv env limit h
      → Confined host argv env limit (report_error host r h).1
  report_error-Confined (ok u) h c = unfold skip in c
  report_error-Confined (err panic) h c = unfold fail in c
  report_error-Confined (err (nix x)) h c = unfold send_report in c
  report_error-Confined (err (io x)) h c = unfold send_report in c
  report_error-Confined (err (message x)) h c = unfold send_report in c
  report_error-Confined (err unfinished) h c = unfold send_report in c

  -- However the calls are answered, whenever the worker has executed anything, it was the wrapper with
  -- the arguments and variables of the program, and none of these has a zero byte; the filter was in
  -- place before, the user and group were 1000, `rdtsc` was disabled, the directory was `/space`, the
  -- streams were redirected, the timer was set where there is a limit and the tracer was on, each by a
  -- call that succeeded.
  pub executor_worker-Confined :
      Confined host argv env limit (executor_worker host argv env limit []).1
  unfolding executor_worker
  executor_worker-Confined =
      report_error-Confined (become_program host argv env limit []).0
        (become_program host argv env limit []).1
        (Triple-ends _ [] Keeps-become_program tt (tt, refl)).0
