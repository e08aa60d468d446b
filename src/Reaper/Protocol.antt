-- ===== src/Reaper/Protocol.antt =====
-- The conversation of the reaper of linux/reaper.rs with its controller: each command is answered
-- before the next one is received.
use sunwalker_box.Common.{
  ℕ, zero, suc, ◌≡◌, refl, sym, ap, ◌∙◌, Bool, true, false, Option, none, some, [], ◌∷◌, ◌==◌,
  if◌then◌else◌,
}
use sunwalker_box.Common.Exec.{Result, ok, err, Failure, pure, fail, skip, ◌>>=◌, bind_returned}
use sunwalker_box.Reaper.{
  Command, init_command, reset_command, Signal, sigusr1, sigio, sigchld, other_signal, Waited,
  changed, unchanged, wait_failed, ReaperCall, recv_command, send_reply, ReaperHistory, ReaperHost,
  Reaping, demand, outcome_of, Next, goes_on, leaves, execute_command, received_command,
  answer_command, after_wait, reap_children, on_signal, after_signal, main_loop,
}

-- Whether a command is waiting for its answer; `none` where two commands or two answers meet.
abbrev received : Option Bool → Option Bool
received (some false) = some true
received _ = none

abbrev answered : Option Bool → Option Bool
answered (some true) = some false
answered _ = none

unfoldable pub waiting : ReaperHistory → Option Bool
waiting [] = some false
waiting (recv_command ∷ h) = received (waiting h)
waiting (send_reply _ ∷ h) = answered (waiting h)
waiting (_ ∷ h) = waiting h

-- From one state of the conversation an action that returns leads to another.
pub record Leads (from to : Bool) {A : Type 0} (m : Reaping A) : Type 0 where
  pub at :
      (h : ReaperHistory) (a : A)
      → waiting h ≡ some from
      → (m h).0 ≡ ok a
      → waiting (m h).1 ≡ some to

module _ {A : Type 0} where
  Leads-pure : (b : Bool) (a : A) → Leads b b (pure a)
  unfolding pure
  Leads-pure b a = record { at = λ h x w e. w }

  Leads-fail : (b c : Bool) (f : Failure) → Leads b c {A = A} (fail f)
  unfolding fail
  Leads-fail b c f = record { at = λ h x w e. absurd (cc) }

  Leads-demand :
      (b c : Bool) (call : ReaperCall) (reply : ReaperHistory → Result A)
      → ((h : ReaperHistory) → waiting h ≡ some b → waiting (call ∷ h) ≡ some c)
      → Leads b c (demand call reply)
  unfolding demand
  Leads-demand b c call reply l = record { at = λ h x w e. l h w }

  Leads-if :
      (b c t : Bool) (m n : Reaping A) → Leads b c m → Leads b c n → Leads b c (if t then m else n)
  Leads-if b c true m n lm ln = lm
  Leads-if b c false m n lm ln = ln

Leads-skip : (b : Bool) → Leads b b skip
unfolding skip
Leads-skip b = record { at = λ h x w e. w }

module _ {A B : Type 0} where
  Leads-bind :
      (b c d : Bool) (m : Reaping A) (f : A → Reaping B)
      → Leads b c m
      → ((a : A) → Leads c d (f a))
      → Leads b d (m >>= f)
  Leads-bind b c d m f lm lf = record {
    at = λ h x w e.
        let whole : (m >>= f) h ≡ (ok x, ((m >>= f) h).1) = ap (λ r. (r, ((m >>= f) h).1)) e in
        let (a, ea, e') = bind_returned m f h x ((m >>= f) h).1 whole in
        let there = (lf a).at (m h).1 x (lm.at h a w ea) (ap (λ r. r.0) e') in
        ap waiting (ap (λ r. r.1) (sym e')) ∙ there;
  }

-- An action that leaves the conversation where it is, whether it returns or not.
record Still {A : Type 0} (m : Reaping A) : Type 0 where
  at : (h : ReaperHistory) → waiting (m h).1 ≡ waiting h

module _ {A B : Type 0} where
  Still-continue :
      (r : Result A) (f : A → Reaping B)
      → ((a : A) → Still (f a))
      → (h h' : ReaperHistory) → waiting h' ≡ waiting h
      → waiting (((λ _. (r, h')) >>= f) h).1 ≡ waiting h
  unfolding ◌>>=◌
  Still-continue (ok a) f sf h h' e = (sf a).at h' ∙ e
  Still-continue (err c) f sf h h' e = e

  Still-bind :
      (m : Reaping A) (f : A → Reaping B) → Still m → ((a : A) → Still (f a)) → Still (m >>= f)
  unfolding ◌>>=◌
  Still-bind m f sm sf = record {
    at = λ h. let (r, h') = m h in Still-continue r f sf h h' (sm.at h);
  }

Still-demand :
    {A : Type 0} (call : ReaperCall) (reply : ReaperHistory → Result A)
    → ((h : ReaperHistory) → waiting (call ∷ h) ≡ waiting h)
    → Still (demand call reply)
unfolding demand
Still-demand call reply e = record { at = e }

Leads-outcome_of : (b : Bool) (m : Reaping (Unit {0})) → Still m → Leads b b (outcome_of m)
unfolding outcome_of
Leads-outcome_of b m sm = record { at = λ h x w e. sm.at h ∙ w }

module _ (host : ReaperHost) where
  execute_command-Still : (command : Command) → Still (execute_command host command)
  unfolding execute_command waiting
  execute_command-Still init_command =
      Still-bind _ _ (Still-demand _ _ (λ h. refl)) (λ _. Still-demand _ _ (λ h. refl))
  execute_command-Still reset_command =
      Still-bind _ _ (Still-demand _ _ (λ h. refl)) (λ _. Still-demand _ _ (λ h. refl))

  received_command-Leads :
      (message : Option Command) → Leads true true (received_command host message)
  received_command-Leads none = Leads-fail true true _
  received_command-Leads (some command) = Leads-pure true command

  answer_command-Leads : Leads false false (answer_command host)
  unfolding answer_command waiting
  answer_command-Leads =
      Leads-bind false true false _ _ (Leads-demand false true _ _ (λ h w. ap received w))
        (λ message. Leads-bind true true false _ _ (received_command-Leads message) (λ command.
          Leads-bind true true false _ _ (Leads-outcome_of true _ (execute_command-Still command))
            (λ result. Leads-demand true false _ _ (λ h w. ap answered w))))

  after_wait-Leads :
      (next : Reaping Next) (waited : Waited)
      → Leads false false next
      → Leads false false (after_wait host next waited)
  after_wait-Leads next unchanged l = Leads-pure false goes_on
  after_wait-Leads next (wait_failed e) l =
      Leads-if false false (e == 10) _ _ (Leads-pure false leaves) (Leads-fail false false _)
  after_wait-Leads next (changed pid) l =
      Leads-if false false (pid == host.manager_pid) _ _ (Leads-pure false goes_on) l

  reap_children-Leads : (fuel : ℕ) → Leads false false (reap_children host fuel)
  unfolding reap_children waiting
  reap_children-Leads zero = Leads-fail false false _
  reap_children-Leads (suc fuel) =
      Leads-bind false false false _ _ (Leads-demand false false _ _ (λ h w. w))
        (λ waited. after_wait-Leads (reap_children host fuel) waited (reap_children-Leads fuel))

  on_signal-Leads : (fuel : ℕ) (signal : Signal) → Leads false false (on_signal host fuel signal)
  unfolding on_signal
  on_signal-Leads fuel sigusr1 = Leads-pure false leaves
  on_signal-Leads fuel sigio =
      Leads-bind false false false _ _ answer_command-Leads (λ _. Leads-pure false goes_on)
  on_signal-Leads fuel sigchld = reap_children-Leads fuel
  on_signal-Leads fuel other_signal = Leads-fail false false _

  after_signal-Leads :
      (loop : Reaping (Unit {0})) (next : Next)
      → Leads false false loop
      → Leads false false (after_signal host loop next)
  after_signal-Leads loop leaves l = Leads-skip false
  after_signal-Leads loop goes_on l = l

  -- In every run of the loop that ends, whatever signals come and however the commands fare, each
  -- command that was received has been answered once, before the next one was received.
  pub main_loop-Leads : (fuel : ℕ) → Leads false false (main_loop host fuel)
  unfolding main_loop waiting
  main_loop-Leads zero = Leads-fail false false _
  main_loop-Leads (suc fuel) =
      Leads-bind false false false _ _ (Leads-demand false false _ _ (λ h w. w)) (λ signal.
        Leads-bind false false false _ _ (on_signal-Leads fuel signal)
          (λ next. after_signal-Leads (main_loop host fuel) next (main_loop-Leads fuel)))
