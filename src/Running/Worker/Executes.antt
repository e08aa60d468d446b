-- ===== src/Running/Worker/Executes.antt =====
-- When `executor_worker` of linux/running.rs becomes the program.
use sunwalker_box.Common.{ℕ, ◌≡◌, refl, ap, ◌∙◌, Option, none, some, List, [], ◌∷◌, ◌++◌, map}
use sunwalker_box.Common.Exec.{Result, ok, pure, lift, skip, unwrap, continue_with, ◌>>=◌, granted}
use sunwalker_box.Serde.Text.{has_nul}
use sunwalker_box.Running.Worker.{
  WorkerCall, fexecve, WorkerHistory, WorkerHost, Work, EnvVars, exec_wrapper, to_cstrings,
  env_entry, work_call, apply_seccomp_filter, disable_rdtsc, drop_privileges, env_vars, set_timer,
  redirect_streams, become_program, executor_worker,
}
use sunwalker_box.Running.Worker.Confined.{timer_calls, confining_calls, NoNuls, chosen_vars}

-- No call fails.
abbrev pub GrantsAll : WorkerHost → Type 0
GrantsAll host = (h : WorkerHistory) (c : WorkerCall) → host.call_reply h c ≡ none

to_cstrings-NoNuls : (texts : List (List ℕ)) → NoNuls texts → to_cstrings texts ≡ ok texts
unfolding to_cstrings
to_cstrings-NoNuls [] n = refl
to_cstrings-NoNuls (text ∷ texts) (z, n) = let rest = to_cstrings-NoNuls texts n in simp (z, rest)

module _ {A B : Type 0} where
  -- A block goes on after an action that returned.
  bind_went :
      (m : Work A) (f : A → Work B) (h h' : WorkerHistory) (a : A)
      → m h ≡ (ok a, h')
      → (m >>= f) h ≡ f a h'
  unfolding ◌>>=◌
  bind_went m f h h' a e = ap (λ p. continue_with p.0 f p.1) e

module _ (host : WorkerHost) (g : GrantsAll host) where
  work_call_went : (c : WorkerCall) (h : WorkerHistory) → work_call host c h ≡ (ok tt, c ∷ h)
  unfolding work_call skip
  work_call_went c h = ap (λ o. granted o (c ∷ h)) (g h c)

  -- The rest of a block after a call.
  call_then :
      (c : WorkerCall) (f : Unit {0} → Work (Unit {0})) (h : WorkerHistory)
      → (work_call host c >>= f) h ≡ f tt (c ∷ h)
  call_then c f h = bind_went (work_call host c) f h (c ∷ h) tt (work_call_went c h)

  three_went :
      (a b c : WorkerCall) (h : WorkerHistory)
      → (work_call host a >>= λ _. work_call host b >>= λ _. work_call host c) h
        ≡ (ok tt, c ∷ b ∷ a ∷ h)
  three_went a b c h = call_then a _ h ∙ call_then b _ (a ∷ h) ∙ work_call_went c (b ∷ a ∷ h)

  set_timer_went :
      (limit : Option ℕ) (h : WorkerHistory)
      → set_timer host limit h ≡ (ok tt, timer_calls limit ++ h)
  unfolding set_timer skip
  set_timer_went none h = refl
  set_timer_went (some limit) h = work_call_went _ h

  lift_went :
      {A : Type 0} (r : Result A) (a : A) (h : WorkerHistory) → r ≡ ok a → lift r h ≡ (ok a, h)
  unfolding lift
  lift_went r a h e = ap (λ x. (x, h)) e

  env_vars_went :
      (env : Option EnvVars) (vars : EnvVars) (h : WorkerHistory)
      → chosen_vars host env ≡ some vars
      → env_vars host env h ≡ (ok vars, h)
  unfolding pure unwrap
  env_vars_went none vars h e = ap (λ o. unwrap o h) e
  env_vars_went (some env) vars h e = cc

  become_program_went :
      (argv : List (List ℕ)) (env : Option EnvVars) (limit : Option ℕ) (vars : EnvVars)
      → NoNuls argv
      → chosen_vars host env ≡ some vars
      → NoNuls (map env_entry vars)
      → become_program host argv env limit []
        ≡ (ok tt, fexecve (exec_wrapper ∷ argv) (map env_entry vars) ∷ confining_calls limit)
  unfolding become_program apply_seccomp_filter disable_rdtsc drop_privileges redirect_streams
      has_nul
  become_program_went argv env limit vars na v ne =
      call_then _ _ _
      ∙ bind_went _ _ _ _ tt (three_went _ _ _ _)
      ∙ call_then _ _ _
      ∙ call_then _ _ _
      ∙ bind_went _ _ _ _ tt (three_went _ _ _ _)
      ∙ bind_went _ _ _ _ (exec_wrapper ∷ argv)
          (lift_went _ _ _ (to_cstrings-NoNuls (exec_wrapper ∷ argv) (refl, na)))
      ∙ bind_went _ _ _ _ vars (env_vars_went env vars _ v)
      ∙ bind_went _ _ _ _ (map env_entry vars)
          (lift_went _ _ _ (to_cstrings-NoNuls (map env_entry vars) ne))
      ∙ bind_went _ _ _ _ tt (set_timer_went limit _)
      ∙ call_then _ _ _
      ∙ work_call_went _ _

  -- Where no call fails, no argument has a zero byte, and the variables, which can be read, have
  -- none either, the worker executes the wrapper with these arguments and variables, after the calls
  -- that confine it and no others.
  pub executor_worker-executes :
      (argv : List (List ℕ)) (env : Option EnvVars) (limit : Option ℕ) (vars : EnvVars)
      → NoNuls argv
      → chosen_vars host env ≡ some vars
      → NoNuls (map env_entry vars)
      → executor_worker host argv env limit []
        ≡ (ok tt, fexecve (exec_wrapper ∷ argv) (map env_entry vars) ∷ confining_calls limit)
  unfolding executor_worker skip
  executor_worker-executes argv env limit vars na v ne =
      simp (become_program_went argv env limit vars na v ne)
