-- ===== src/Controller/Machine/Started.antt =====
-- The invariant of the controller of linux/controller.rs from its start on: a channel to the reaper
-- comes with its pid, which is stored before the channel is, and every call was on confined paths.
use sunwalker_box.Common.{ℕ, ◌≡◌, refl, ◌&&◌, true, Bool-cases, inl, inr, some, List, [], ◌∷◌}
use sunwalker_box.Common.Exec.{
  modify, ◌>>=◌, nix, io, message, panic, unfinished, Result, ok, err, continue_with,
}
use sunwalker_box.Common.Exec.Safe.{NotPanic, Safe, NotPanic-answered, Safe-bind}
use sunwalker_box.Reaper.{init_command}
use sunwalker_box.Controller.Machine.{
  enter_working_area, ControllerHistory, ControllerHost, World, Control, request, is_watched,
  is_gone, unless_gone, take_cgroup, join_core, enter_root, start,
}
use sunwalker_box.Controller.Machine.Calls.{Confined}
use sunwalker_box.Controller.Machine.Wired.{
  not_aborted, Extends, HasPid, IsWired, request-Safe, required-Safe, reply_value-Safe,
  perform-Safe, recv-Safe, run_reaper_command-Safe, reset-Safe,
}

abbrev pub AllConfined : ControllerHistory → Type 0
AllConfined [] = Unit {0}
AllConfined (c ∷ h) = Confined c × AllConfined h

-- The thread that watches the child has ended the process.
abbrev pub Gone : ControllerHost → ControllerHistory → Type 0
Gone host h = (is_watched h && host.child_ended h) ≡ true

abbrev pub IsOrderly : ControllerHost → World → Type 0
IsOrderly host w = IsWired w × AllConfined w.history × (w.aborted ≡ true → Gone host w.history)

abbrev HasPidOrderly : ControllerHost → World → Type 0
HasPidOrderly host w = HasPid w × AllConfined w.history × (w.aborted ≡ true → Gone host w.history)

pub is_gone-Gone :
    (host : ControllerHost) (w : World)
    → (w.aborted ≡ true → Gone host w.history)
    → is_gone host w ≡ true
    → Gone host w.history
is_gone-Gone host w before gone = elim (Bool-cases w.aborted) [
  | inl over ↦ before over
  | inr running ↦ let e = rw running at gone in e
]

pub extend-IsOrderly : (host : ControllerHost) → Extends host (IsOrderly host)
extend-IsOrderly host = record {
  on_call = λ w c confined there (p, h, before). (p, (confined, h), λ over. absurd (cc));
  on_abort = λ w gone (p, h, before). (p, h, λ _. is_gone-Gone host w before gone);
}

extend-HasPidOrderly : (host : ControllerHost) → Extends host (HasPidOrderly host)
extend-HasPidOrderly host = record {
  on_call = λ w c confined there (p, h, before). (p, (confined, h), λ over. absurd (cc));
  on_abort = λ w gone (p, h, before). (p, h, λ _. is_gone-Gone host w before gone);
}

modify-Safe :
    {P : World → Type 0} (f : World → World) → ((w : World) → P w → P (f w)) → Safe P (modify f)
unfolding modify
modify-Safe f keep = record { at = λ w p. (tt, keep w p) }

-- The last call was `enter_working_area`.
abbrev pub IsEntering : ControllerHistory → Type 0
IsEntering h = (before : ControllerHistory) × (h ≡ enter_working_area ∷ before)

abbrev pub PanicEntering : {A : Type 0} → Result A → ControllerHistory → Type 0
PanicEntering (ok a) h = Unit {0}
PanicEntering (err panic) h = IsEntering h
PanicEntering (err _) h = Unit {0}

-- A panic comes from `enter_working_area` only.
pub record Stops (host : ControllerHost) {A : Type 0} (m : Control A) : Type 0 where
  pub at :
      (w : World)
      → IsOrderly host w
      → PanicEntering (m w).0 (m w).1.history × IsOrderly host (m w).1

NotPanic-PanicEntering :
    {A : Type 0} (r : Result A) (h : ControllerHistory) → NotPanic r → PanicEntering r h
NotPanic-PanicEntering (ok a) h n = tt
NotPanic-PanicEntering (err (nix e)) h n = tt
NotPanic-PanicEntering (err (io e)) h n = tt
NotPanic-PanicEntering (err (message t)) h n = tt
NotPanic-PanicEntering (err panic) h n = absurd n
NotPanic-PanicEntering (err unfinished) h n = tt

area-PanicEntering :
    (r : Result (Unit {0})) (h : ControllerHistory) → PanicEntering r (enter_working_area ∷ h)
area-PanicEntering (ok a) h = tt
area-PanicEntering (err (nix e)) h = tt
area-PanicEntering (err (io e)) h = tt
area-PanicEntering (err (message t)) h = tt
area-PanicEntering (err panic) h = (h, refl)
area-PanicEntering (err unfinished) h = tt

module _ (host : ControllerHost) where
  continue-Stops :
      {A B : Type 0} (r : Result A) (f : A → Control B) (w : World)
      → PanicEntering r w.history
      → IsOrderly host w
      → ((a : A) → Stops host (f a))
      → PanicEntering (continue_with r f w).0 (continue_with r f w).1.history
        × IsOrderly host (continue_with r f w).1
  continue-Stops (ok a) f w n p sf = (sf a).at w p
  continue-Stops (err (nix e)) f w n p sf = (tt, p)
  continue-Stops (err (io e)) f w n p sf = (tt, p)
  continue-Stops (err (message t)) f w n p sf = (tt, p)
  continue-Stops (err panic) f w n p sf = (n, p)
  continue-Stops (err unfinished) f w n p sf = (tt, p)

  pub Safe-Stops : {A : Type 0} (m : Control A) → Safe (IsOrderly host) m → Stops host m
  Safe-Stops m sm = record {
    at = λ w p. let (n, p') = sm.at w p in (NotPanic-PanicEntering (m w).0 (m w).1.history n, p');
  }

  Stops-bind :
      {A B : Type 0} (m : Control A) (f : A → Control B)
      → Safe (IsOrderly host) m
      → ((a : A) → Stops host (f a))
      → Stops host (m >>= f)
  unfolding ◌>>=◌
  Stops-bind m f sm sf = record {
    at = λ w p. let (n, p') = (Safe-Stops m sm).at w p in continue-Stops (m w).0 f (m w).1 n p' sf;
  }

  entering :
      (reply : ControllerHistory → Result (Unit {0})) (w : World)
      → IsOrderly host w
      → PanicEntering
          (request host enter_working_area reply w).0
          (request host enter_working_area reply w).1.history
        × IsOrderly host (request host enter_working_area reply w).1
  unfolding request unless_gone
  entering reply w p = elim (Bool-cases (is_gone host w)) [
    | inl gone ↦ rw gone (tt, (extend-IsOrderly host).on_abort w gone p)
    | inr there ↦ rw there (
      area-PanicEntering (reply w.history) w.history,
      (extend-IsOrderly host).on_call w enter_working_area tt (not_aborted w.aborted _ there) p,
    )
  ]

  Stops-area :
      {B : Type 0} (reply : ControllerHistory → Result (Unit {0})) (rest : Control B)
      → Safe (IsOrderly host) rest
      → Stops host (request host enter_working_area reply >>= λ _. rest)
  unfolding ◌>>=◌
  Stops-area reply rest sr = record {
    at = λ w p.
        let (n, p') = entering reply w p in
        let m = request host enter_working_area reply in
        continue-Stops (m w).0 (λ _. rest) (m w).1 n p' (λ _. Safe-Stops rest sr);
  }

  pub join_core-Safe : (core : ℕ) → Safe (IsOrderly host) (join_core host core)
  unfolding join_core
  join_core-Safe core =
      Safe-bind _ _ (perform-Safe (extend-IsOrderly host) _ tt)
        λ _. Safe-bind _ _ (perform-Safe (extend-IsOrderly host) _ tt) λ _. modify-Safe _ (λ w p. p)

  pub enter_root-Stops : (root : List ℕ) → Stops host (enter_root host root)
  unfolding enter_root
  enter_root-Stops root =
      Stops-bind _ _ (request-Safe (extend-IsOrderly host) _ _ tt (λ h. NotPanic-answered _))
        λ root'. Stops-bind _ _ (perform-Safe (extend-IsOrderly host) _ tt) λ _.
          Stops-bind _ _ (perform-Safe (extend-IsOrderly host) _ tt) λ _.
            Stops-area host.area_reply _ (
              Safe-bind _ _ (perform-Safe (extend-IsOrderly host) _ tt) λ _.
                Safe-bind _ _
                  (request-Safe (extend-IsOrderly host) _ _ tt (λ h. NotPanic-answered _))
                  λ state. modify-Safe _ (λ w p. p))

  take_cgroup-Safe : Safe (IsOrderly host) take_cgroup
  unfolding take_cgroup
  take_cgroup-Safe = record { at = λ w p. (tt, p) }

  -- From where the pid is stored, more is kept.
  stored-Safe :
      {A : Type 0} (pid : ℕ) (m : Control A)
      → Safe (HasPidOrderly host) m
      → Safe (IsOrderly host) (
          modify (λ w. record w { controller = record w.controller { reaper_pid = some pid } })
          >>= λ _. m)
  unfolding ◌>>=◌ modify
  stored-Safe pid m sm = record {
    at = λ w (_, h, before).
        let (n, (pid', h', before')) = sm.at _ ((pid, refl), h, before) in
        (n, ((λ _. pid'), h', before'));
  }

  pub start-Safe : Safe (IsOrderly host) (start host)
  unfolding start
  start-Safe = Safe-bind _ _ (perform-Safe (extend-IsOrderly host) _ tt) λ _.
      Safe-bind _ _ (perform-Safe (extend-IsOrderly host) _ tt) λ _.
        Safe-bind _ _ (perform-Safe (extend-IsOrderly host) _ tt) λ _.
          Safe-bind _ _ (perform-Safe (extend-IsOrderly host) _ tt) λ _.
            Safe-bind _ _ take_cgroup-Safe λ cgroup.
              Safe-bind _ _ (required-Safe (extend-IsOrderly host) _ cgroup) λ _.
                Safe-bind _ _
                  (request-Safe (extend-IsOrderly host) _ _ tt (λ h. NotPanic-answered _))
                  λ pid. stored-Safe pid _ (
                    Safe-bind _ _ (perform-Safe (extend-HasPidOrderly host) _ tt) λ _.
                      Safe-bind _ _ (recv-Safe (extend-HasPidOrderly host) _ tt) λ ready.
                        Safe-bind _ _ (reply_value-Safe (extend-HasPidOrderly host) ready) λ _.
                          Safe-bind _ _ (modify-Safe _ (λ w p. p)) λ _.
                            Safe-bind _ _ (modify-Safe _ (λ w p. p)) λ _.
                              Safe-bind _ _
                                (run_reaper_command-Safe (extend-HasPidOrderly host) (λ w p _. p.0)
                                  init_command)
                                λ _. reset-Safe (extend-HasPidOrderly host) (λ w p _. p.0))
