-- ===== src/Manager/Exchange/Answers.antt =====
-- What the client of the manager gets, in every order of steps of the manager and the controller.
use sunwalker_box.Common.{◌≡◌, refl, sym, ap, ◌∙◌, ◌⊎◌, inl, inr, none, List, [], ◌∷◌, ◌++◌}
use sunwalker_box.Controller.Machine.{ManagerCommand, Reply, value}
use sunwalker_box.Manager.Exchange.{
  ManagerPhase, starting, receiving, ended, executing, ControllerPhase, awaiting_ready, idle,
  awaiting, Link, link_made, receive_command, send_reply, receive_reply, channel_closed, Reach,
  here, next,
}
use sunwalker_box.Manager.Exchange.InStep.{Together, IsTogether, Reach-IsTogether}

-- Every reply that was given has been taken for its own command, but at most one, which is for the
-- command that is awaited.
abbrev pub Answered :
    ControllerPhase → List (ManagerCommand × Reply) → List (ManagerCommand × Reply) → Type 0
Answered awaiting_ready g t = g ≡ t
Answered idle g t = g ≡ t
Answered (awaiting c) g t = (g ≡ t) ⊎ ((r : Reply) × (g ≡ (c, r) ∷ t))

-- A command that is awaited can come to its end: its reply is taken, or the manager has died.
abbrev pub CanEnd : ControllerPhase → Link → Type 0
CanEnd awaiting_ready s = Unit {0}
CanEnd idle s = Unit {0}
CanEnd (awaiting c) s =
    (s' : Link) × Reach s s'
    × (s'.controller ≡ idle)
    × (((r : Reply) × (s'.taken ≡ (c, r) ∷ s.taken))
        ⊎ ((s'.taken ≡ s.taken) × (s'.manager ≡ ended)))

Together-Answered :
    (k : ControllerPhase) (m : ManagerPhase) (q : List ManagerCommand) (p : List Reply)
    (g t : List (ManagerCommand × Reply))
    → Together k m q p g t
    → Answered k g t
Together-Answered awaiting_ready starting q p g t (a, b, c) = c
Together-Answered awaiting_ready receiving q p g t (a, b, c) = c
Together-Answered awaiting_ready ended q p g t (a, b) = b
Together-Answered awaiting_ready (executing c) q p g t h = absurd h
Together-Answered idle starting q p g t h = absurd h
Together-Answered idle receiving q p g t (a, b, c) = c
Together-Answered idle ended q p g t (a, b) = b
Together-Answered idle (executing c) q p g t h = absurd h
Together-Answered (awaiting c) starting q p g t h = absurd h
Together-Answered (awaiting c) receiving q p g t (inl (a, b, d)) = inl d
Together-Answered (awaiting c) receiving q p g t (inr (a, (r, b, d))) = inr (r, d)
Together-Answered (awaiting c) ended q p g t (inl (b, d)) = inl d
Together-Answered (awaiting c) ended q p g t (inr (r, b, d)) = inr (r, d)
Together-Answered (awaiting c) (executing c') q p g t (same, a, b, d) = inl d

taken_now :
    (s : Link) (c : ManagerCommand) (r : Reply) (rest : List Reply)
    → s.controller ≡ awaiting c
    → s.replies ≡ r ∷ rest
    → CanEnd (awaiting c) s
taken_now s c r rest e f = (_, next here (receive_reply e f), refl, inl (r, refl))

executed :
    (s : Link) (c : ManagerCommand)
    → s.controller ≡ awaiting c
    → s.manager ≡ executing c
    → s.replies ≡ []
    → CanEnd (awaiting c) s
executed s c e f g = (
  _,
  next (next here (send_reply (value none) f))
      (receive_reply {reply = value none} {rest = []} e (ap (λ l. l ++ value none ∷ []) g)),
  refl,
  inl (value none, refl),
)

received :
    (s : Link) (c : ManagerCommand)
    → s.controller ≡ awaiting c
    → s.manager ≡ receiving
    → s.requests ≡ c ∷ []
    → s.replies ≡ []
    → CanEnd (awaiting c) s
received s c e f g h = (
  _,
  next (next (next here (receive_command f g)) (send_reply (value none) refl))
      (receive_reply {reply = value none} {rest = []} e (ap (λ l. l ++ value none ∷ []) h)),
  refl,
  inl (value none, refl),
)

Together-CanEnd :
    (s : Link) (c : ManagerCommand) (m : ManagerPhase)
    → s.controller ≡ awaiting c
    → s.manager ≡ m
    → Together (awaiting c) m s.requests s.replies s.given s.taken
    → CanEnd (awaiting c) s
Together-CanEnd s c starting e f h = absurd h
Together-CanEnd s c receiving e f (inl (a, b, d)) = received s c e f a b
Together-CanEnd s c receiving e f (inr (a, (r, b, d))) = taken_now s c r [] e b
Together-CanEnd s c ended e f (inl (b, d)) =
    (_, next here (channel_closed e b f), refl, inr (refl, f))
Together-CanEnd s c ended e f (inr (r, b, d)) = taken_now s c r [] e b
Together-CanEnd s c (executing c') e f (same, a, b, d) =
    executed s c e (f ∙ ap executing (sym same)) b

controller_cases : (s : Link) (k : ControllerPhase) → s.controller ≡ k → IsTogether s → CanEnd k s
controller_cases s awaiting_ready e h = tt
controller_cases s idle e h = tt
controller_cases s (awaiting c) e h = Together-CanEnd s c s.manager e refl (rw e at h)

-- However the controller and the manager take their steps, and wherever the manager dies: every reply
-- of the manager is taken once, in order, for the command that it was given to, before the next
-- command is sent; and a command that is awaited can come to its end.
pub Reach-Answered :
    {s : Link} → Reach link_made s → Answered s.controller s.given s.taken × CanEnd s.controller s
Reach-Answered {s} r =
    let h : IsTogether s = Reach-IsTogether r (refl, refl, refl) in
    (
      Together-Answered s.controller s.manager s.requests s.replies s.given s.taken h,
      controller_cases s s.controller refl h,
    )
