-- ===== src/Entry/Serve/Answers.antt =====
-- Each line of the input of linux/entry.rs is answered by one line of the output.
use mathlib.Core.Path.{subst}
use sunwalker_box.Common.{
  Bool, true, false, if◌then◌else◌, ℕ, ◌≡◌, refl, ap, arith, List, [], length, inl, inr,
}
use sunwalker_box.Common.Exec.{
  nix, io, message, panic, unfinished, Result, ok, err, Answer, continue_with, ◌>>=◌,
}
use sunwalker_box.Common.Exec.Safe.{Safe-bind}
use sunwalker_box.Rootfs.Reset.{DiskQuotas}
use sunwalker_box.Controller.Machine.{ControllerHost, Control, try_new}
use sunwalker_box.Controller.Machine.Wired.{perform-Safe}
use sunwalker_box.Controller.Machine.Started.{
  AllConfined, IsOrderly, PanicEntering, Stops, Safe-Stops, extend-IsOrderly, join_core-Safe,
  enter_root-Stops, start-Safe,
}
use sunwalker_box.Entry.Commands.{Json, FileHost}
use sunwalker_box.Entry.Commands.Total.{IsLawful}
use sunwalker_box.Entry.Serve.{Session, Serving, control, serve, run_box, fresh}
use sunwalker_box.Entry.Serve.Lines.{Served, Answers, with_world, serve_lem}

abbrev ServedConfined :
    ControllerHost → List (Answer (List ℕ)) → Result (Unit {0}) × Session → Type 0
ServedConfined host input (r, s) = Served host input (r, s) × AllConfined s.world.history

module _ (json : Json) (lawful : IsLawful json) (host : ControllerHost) (files : FileHost)
    (to_lowercase : List ℕ → List ℕ) where
  continue-Served :
      {A : Type 0} (input : List (Answer (List ℕ))) (f : A → Serving (Unit {0})) (r : Result A)
      (t : Session)
      → PanicEntering r t.world.history
      → IsOrderly host t.world
      → t.printed ≡ []
      → ((a : A) (t : Session)
          → IsOrderly host t.world
          → t.printed ≡ []
          → ServedConfined host input (f a t))
      → ServedConfined host input (continue_with r f t)
  continue-Served input f (ok a) t n w e sf = sf a t w e
  continue-Served input f (err (nix x)) t n w e sf = (inr (inl e), w.1)
  continue-Served input f (err (io x)) t n w e sf = (inr (inl e), w.1)
  continue-Served input f (err (message x)) t n w e sf = (inr (inl e), w.1)
  continue-Served input f (err panic) t n w e sf = (inr (inl (e, n)), w.1)
  continue-Served input f (err unfinished) t n w e sf = (inr (inl e), w.1)

  control-Served :
      {A : Type 0} (input : List (Answer (List ℕ))) (m : Control A) (f : A → Serving (Unit {0}))
      (s : Session)
      → Stops host m
      → ((a : A) (t : Session)
          → IsOrderly host t.world
          → t.printed ≡ []
          → ServedConfined host input (f a t))
      → IsOrderly host s.world
      → s.printed ≡ []
      → ServedConfined host input ((control m >>= f) s)
  unfolding control ◌>>=◌
  control-Served input m f s sm sf wired e =
      let (n, wired') = sm.at s.world wired in by_end (m s.world).1.aborted refl n wired'
    where
      by_end :
          (b : Bool)
          → (m s.world).1.aborted ≡ b
          → PanicEntering (m s.world).0 (m s.world).1.history
          → IsOrderly host (m s.world).1
          → ServedConfined host input (
              continue_with (if b then err panic else (m s.world).0) f (with_world (m s.world).1 s))
      by_end true over n w = (inr (inr (refl, w.2 over, omega (arith, ap length e))), w.1)
      by_end false running n w =
          continue-Served input f (m s.world).0 (with_world (m s.world).1 s) n w e sf

  Answers-Served :
      (input : List (Answer (List ℕ))) (o : Result (Unit {0}) × Session)
      → Answers host input 0 o
      → ServedConfined host input o
  Answers-Served input o (inl (e, n), h) = (inl (e, omega (arith, n)), h)
  Answers-Served input o (inr (e, gone, n), h) = (inr (inr (e, gone, omega (arith, n))), h)

  run_box_lem :
      (quotas : DiskQuotas) (core : ℕ) (root : List ℕ) (input : List (Answer (List ℕ)))
      → ServedConfined host input
          (run_box json host files to_lowercase core root input (fresh quotas))
  unfolding run_box try_new
  run_box_lem quotas core root input =
      control-Served input _ _ (fresh quotas)
        (Safe-Stops host _ (
          Safe-bind _ _ (perform-Safe (extend-IsOrderly host) _ tt)
            (λ _. perform-Safe (extend-IsOrderly host) _ tt)))
        (λ _ s w e.
          control-Served input _ _ s (Safe-Stops host _ (join_core-Safe host core))
            (λ _ s w e.
              control-Served input _ _ s (enter_root-Stops host root)
                (λ _ s w e.
                  control-Served input _ _ s (Safe-Stops host _ (start-Safe host))
                    (λ _ t w e. Answers-Served input _ (
                      subst (λ n. Answers host input n (serve json host files to_lowercase input t))
                        (ap length e) (serve_lem json lawful host files to_lowercase input t w)))
                    w e)
                w e)
            w e)
        ((λ h. absurd (cc)), tt, (λ h. absurd (cc))) refl

  -- Whatever the host answers, its links included, and whatever the input is: each file that the commands
  -- mkdir, mkfile and mksymlink create or write is below `/newroot` and no direct child of it,
  -- each that cat reads and ls lists is below `/newroot`, and what `bind` mounts comes from below `/oldroot`
  -- and goes below `/newroot`, as does what it changes the propagation of. The calls by which the box
  -- is set up, and those by which reset mounts and umounts, are not part of this. The JSON that is read
  -- has durations for times.
  pub run_box-AllConfined :
      (quotas : DiskQuotas) (core : ℕ) (root : List ℕ) (input : List (Answer (List ℕ)))
      → AllConfined
          (run_box json host files to_lowercase core root input (fresh quotas)).1.world.history
  run_box-AllConfined quotas core root input = (run_box_lem quotas core root input).1
