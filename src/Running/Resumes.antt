-- ===== src/Running/Resumes.antt =====
-- Which processes the tracer of linux/running.rs resumes at an event. A stop that is reported leaves
-- a process waiting: where it is not resumed it hangs, and the other processes are not stopped.
use sunwalker_box.Common.{
  ℕ, zero, suc, ◌≤◌, ◌≡◌, refl, Bool, true, false, List, ◌∷◌, arith, if◌then◌else◌, ap, ◌∙◌,
}
use sunwalker_box.Common.Exec.{Result, ok, err, Failure, pure, fail, gets, modify, skip, ◌>>=◌}
use sunwalker_box.Tracing.{History, Kernel, Sys, call, resume, resume_signal, resume_step}
use sunwalker_box.Running.{SingleRun, ProcessState}
use sunwalker_box.Running.Events.{Run, sys, attempt, set_process}
use sunwalker_box.Running.Quiet.{resumed, again, Quiet}

-- After an action: `n` more resumptions of the process where it returned, at most as many where it
-- failed, and of no other process.
abbrev pub After : {A : Type 0} → ℕ → ℕ → Result A → History → History → Type 0
After pid n (ok a) h h' = resumed h' ≡ again n pid (resumed h)
After pid n (err e) h h' = (j : ℕ) × (j ≤ n) × (resumed h' ≡ again j pid (resumed h))

pub record Resumes {A : Type 0} (pid n : ℕ) (m : Run A) : Type 0 where
  pub at : (s : SingleRun) → After pid n (m s).0 s.history (m s).1.history

module _ {A : Type 0} (pid : ℕ) where
  quiet-After : (r : Result A) (h h' : History) → resumed h' ≡ resumed h → After pid 0 r h h'
  unfolding again
  quiet-After (ok a) h h' e = e
  quiet-After (err f) h h' e = (0, omega arith, e)

  attempt-After : (r : Result A) (h h' : History) → After pid 0 r h h' → resumed h' ≡ resumed h
  unfolding again
  attempt-After (ok a) h h' e = e
  attempt-After (err f) h h' (zero, _, e) = e
  attempt-After (err f) h h' (suc j, le, e) = absurd (omega arith)

module _ {A : Type 0} {pid : ℕ} where
  pub Resumes-pure : (a : A) → Resumes pid 0 (pure a)
  unfolding pure again
  Resumes-pure a = record { at = λ s. refl }

  pub Resumes-gets : (f : SingleRun → A) → Resumes pid 0 (gets f)
  unfolding gets again
  Resumes-gets f = record { at = λ s. refl }

  pub Resumes-fail : (n : ℕ) (e : Failure) → Resumes {A = A} pid n (fail e)
  unfolding fail again
  Resumes-fail n e = record { at = λ s. (0, omega arith, refl) }

  pub Resumes-if :
      (n : ℕ) (b : Bool) (m m' : Run A)
      → Resumes pid n m
      → Resumes pid n m'
      → Resumes pid n (if b then m else m')
  Resumes-if n true m m' rm rm' = rm
  Resumes-if n false m m' rm rm' = rm'

  pub Resumes-sys : (m : Sys A) → Quiet m → Resumes pid 0 (sys m)
  unfolding sys
  Resumes-sys m q = record {
    at = λ s. let (r, h) = m s.history in quiet-After pid r s.history h (q.at s.history);
  }

  pub Resumes-attempt : (m : Run A) → Resumes pid 0 m → Resumes pid 0 (attempt m)
  unfolding attempt again
  Resumes-attempt m rm = record {
    at = λ s. attempt-After pid (m s).0 s.history (m s).1.history (rm.at s);
  }

pub Resumes-skip : (pid : ℕ) → Resumes pid 0 skip
unfolding skip again
Resumes-skip pid = record { at = λ s. refl }

pub Resumes-set_process : (pid p : ℕ) (state : ProcessState) → Resumes pid 0 (set_process p state)
unfolding set_process again
Resumes-set_process pid p state = record { at = λ s. refl }

pub Resumes-modify_processes :
    (pid : ℕ) (f : SingleRun → List (ℕ × ProcessState))
    → Resumes pid 0 (modify (λ s. record s { processes = f s }))
unfolding modify again
Resumes-modify_processes pid f = record { at = λ s. refl }

-- A call that resumes the process counts whatever the kernel answers.
resumption-After :
    (pid : ℕ) (r : Result (Unit {0})) (h h' : History)
    → resumed h' ≡ pid ∷ resumed h
    → After pid 1 r h h'
unfolding again
resumption-After pid (ok a) h h' e = e
resumption-After pid (err f) h h' e = (1, omega arith, e)

module _ (k : Kernel) (pid : ℕ) where
  pub resume-Resumes : Resumes pid 1 (sys (resume k pid))
  unfolding sys resume call resumed
  resume-Resumes = record { at = λ s. resumption-After pid _ s.history _ refl }

  pub resume_signal-Resumes : (signal : ℕ) → Resumes pid 1 (sys (resume_signal k pid signal))
  unfolding sys resume_signal call resumed
  resume_signal-Resumes signal = record { at = λ s. resumption-After pid _ s.history _ refl }

  pub resume_step-Resumes : Resumes pid 1 (sys (resume_step k pid))
  unfolding sys resume_step call resumed
  resume_step-Resumes = record { at = λ s. resumption-After pid _ s.history _ refl }

-- What went before resumed nothing.
transport-After :
    {B : Type 0} (pid n : ℕ) (r : Result B) (h h' h'' : History)
    → resumed h' ≡ resumed h
    → After pid n r h' h''
    → After pid n r h h''
transport-After pid n (ok b) h h' h'' e a = a ∙ ap (again n pid) e
transport-After pid n (err c) h h' h'' e (j, le, a) = (j, le, a ∙ ap (again j pid) e)

then_quiet :
    {B : Type 0} (pid : ℕ) (r : Result B) (h h' h'' : History)
    → resumed h' ≡ again 1 pid (resumed h)
    → After pid 0 r h' h''
    → After pid 1 r h h''
unfolding again
then_quiet pid (ok b) h h' h'' e a = a ∙ e
then_quiet pid (err c) h h' h'' e (zero, _, a) = (1, omega arith, a ∙ e)
then_quiet pid (err c) h h' h'' e (suc j, le, a) = absurd (omega arith)

module _ {A B : Type 0} {pid : ℕ} where
  bind-After :
      (n : ℕ) (r : Result A) (f : A → Run B) (s s' : SingleRun)
      → After pid 0 r s.history s'.history
      → ((a : A) → Resumes pid n (f a))
      → After pid n (((λ _. (r, s')) >>= f) s).0 s.history (((λ _. (r, s')) >>= f) s).1.history
  unfolding ◌>>=◌ again
  bind-After n (ok a) f s s' e rf = transport-After pid n (f a s').0 _ _ _ e ((rf a).at s')
  bind-After n (err c) f s s' (j, le, e) rf = (j, omega arith, e)

  -- The first action resumes nothing.
  pub Resumes-bind :
      (n : ℕ) (m : Run A) (f : A → Run B)
      → Resumes pid 0 m
      → ((a : A) → Resumes pid n (f a))
      → Resumes pid n (m >>= f)
  unfolding ◌>>=◌
  Resumes-bind n m f rm rf = record {
    at = λ s. let (r, s') = m s in bind-After n r f s s' (rm.at s) rf;
  }

  -- Nothing is resumed after the first action.
  before_quiet :
      (r : Result A) (f : A → Run B) (s s' : SingleRun)
      → After pid 1 r s.history s'.history
      → ((a : A) → Resumes pid 0 (f a))
      → After pid 1 (((λ _. (r, s')) >>= f) s).0 s.history (((λ _. (r, s')) >>= f) s).1.history
  unfolding ◌>>=◌
  before_quiet (ok a) f s s' e rf = then_quiet pid (f a s').0 _ _ _ e ((rf a).at s')
  before_quiet (err c) f s s' e rf = e

  pub Resumes-bind_last :
      (m : Run A) (f : A → Run B)
      → Resumes pid 1 m
      → ((a : A) → Resumes pid 0 (f a))
      → Resumes pid 1 (m >>= f)
  unfolding ◌>>=◌
  Resumes-bind_last m f rm rf = record {
    at = λ s. let (r, s') = m s in before_quiet r f s s' (rm.at s) rf;
  }
