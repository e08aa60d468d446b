-- ===== src/Manager/Exchange/InStep.antt =====
-- The controller and the manager stay in step: a reply is taken for the command that it was given to.
use sunwalker_box.Common.{◌≡◌, ap, ◌⊎◌, inl, inr, none, List, [], ◌∷◌, ◌++◌}
use sunwalker_box.Controller.Machine.{ManagerCommand, Reply, value}
use sunwalker_box.Manager.Exchange.{
  ManagerPhase, starting, receiving, ended, executing, ControllerPhase, awaiting_ready, idle,
  awaiting, Link, Step, ready, receive_command, send_reply, die, receive_ready, send_command,
  send_failed, receive_reply, channel_closed, Reach, here, next,
}

-- What is on the way, for each pair of phases: what was given but not taken is the reply to the command
-- that is awaited.
abbrev pub Together :
    ControllerPhase
    → ManagerPhase
    → List ManagerCommand
    → List Reply
    → List (ManagerCommand × Reply)
    → List (ManagerCommand × Reply)
    → Type 0
Together awaiting_ready starting q p g t = (q ≡ []) × (p ≡ []) × (g ≡ t)
Together awaiting_ready receiving q p g t = (q ≡ []) × (p ≡ value none ∷ []) × (g ≡ t)
Together awaiting_ready ended q p g t = ((p ≡ []) ⊎ (p ≡ value none ∷ [])) × (g ≡ t)
Together awaiting_ready (executing c) q p g t = ⊥
Together idle starting q p g t = ⊥
Together idle receiving q p g t = (q ≡ []) × (p ≡ []) × (g ≡ t)
Together idle ended q p g t = (p ≡ []) × (g ≡ t)
Together idle (executing c) q p g t = ⊥
Together (awaiting c) starting q p g t = ⊥
Together (awaiting c) receiving q p g t =
    ((q ≡ c ∷ []) × (p ≡ []) × (g ≡ t))
    ⊎ ((q ≡ []) × ((r : Reply) × (p ≡ r ∷ []) × (g ≡ (c, r) ∷ t)))
Together (awaiting c) ended q p g t =
    ((p ≡ []) × (g ≡ t)) ⊎ ((r : Reply) × (p ≡ r ∷ []) × (g ≡ (c, r) ∷ t))
Together (awaiting c) (executing c') q p g t = (c ≡ c') × (q ≡ []) × (p ≡ []) × (g ≡ t)

abbrev pub IsTogether : Link → Type 0
IsTogether s = Together s.controller s.manager s.requests s.replies s.given s.taken

module _ (q : List ManagerCommand) (p : List Reply) (g t : List (ManagerCommand × Reply)) where
  at_ready :
      (k : ControllerPhase)
      → Together k starting q p g t
      → Together k receiving q (p ++ value none ∷ []) g t
  at_ready awaiting_ready (a, b, c) = (a, ap (λ l. l ++ value none ∷ []) b, c)
  at_ready idle h = absurd h
  at_ready (awaiting c) h = absurd h

  at_receive :
      (k : ControllerPhase) (c : ManagerCommand) (rest : List ManagerCommand)
      → q ≡ c ∷ rest
      → Together k receiving q p g t
      → Together k (executing c) rest p g t
  at_receive awaiting_ready c rest e (a, b, d) = absurd (cc)
  at_receive idle c rest e (a, b, d) = absurd (cc)
  at_receive (awaiting c') c rest e (inl (a, b, d)) = (cc, cc, b, d)
  at_receive (awaiting c') c rest e (inr (a, d)) = absurd (cc)

  at_send :
      (k : ControllerPhase) (c : ManagerCommand) (r : Reply)
      → Together k (executing c) q p g t
      → Together k receiving q (p ++ r ∷ []) ((c, r) ∷ g) t
  at_send awaiting_ready c r h = absurd h
  at_send idle c r h = absurd h
  at_send (awaiting c') c r (same, a, b, d) = inr (a, (r, ap (λ l. l ++ r ∷ []) b, cc))

  at_die :
      (k : ControllerPhase) (m : ManagerPhase) → Together k m q p g t → Together k ended q p g t
  at_die awaiting_ready starting (a, b, c) = (inl b, c)
  at_die awaiting_ready receiving (a, b, c) = (inr b, c)
  at_die awaiting_ready ended h = h
  at_die awaiting_ready (executing c) h = absurd h
  at_die idle starting h = absurd h
  at_die idle receiving (a, b, c) = (b, c)
  at_die idle ended h = h
  at_die idle (executing c) h = absurd h
  at_die (awaiting c) starting h = absurd h
  at_die (awaiting c) receiving (inl (a, b, d)) = inl (b, d)
  at_die (awaiting c) receiving (inr (a, d)) = inr d
  at_die (awaiting c) ended h = h
  at_die (awaiting c) (executing c') (same, a, b, d) = inl (b, d)

  at_receive_ready :
      (m : ManagerPhase) (r : Reply) (rest : List Reply)
      → p ≡ r ∷ rest
      → Together awaiting_ready m q p g t
      → Together idle m q rest g t
  at_receive_ready starting r rest e (a, b, d) = absurd (cc)
  at_receive_ready receiving r rest e (a, b, d) = (a, cc, d)
  at_receive_ready ended r rest e (inl b, d) = absurd (cc)
  at_receive_ready ended r rest e (inr b, d) = (cc, d)
  at_receive_ready (executing c) r rest e h = absurd h

  at_send_command :
      (m : ManagerPhase) (c : ManagerCommand)
      → Together idle m q p g t
      → Together (awaiting c) m (q ++ c ∷ []) p g t
  at_send_command starting c h = absurd h
  at_send_command receiving c (a, b, d) = inl (ap (λ l. l ++ c ∷ []) a, b, d)
  at_send_command ended c (b, d) = inl (b, d)
  at_send_command (executing c') c h = absurd h

  at_receive_reply :
      (m : ManagerPhase) (c : ManagerCommand) (r : Reply) (rest : List Reply)
      → p ≡ r ∷ rest
      → Together (awaiting c) m q p g t
      → Together idle m q rest g ((c, r) ∷ t)
  at_receive_reply starting c r rest e h = absurd h
  at_receive_reply receiving c r rest e (inl (a, b, d)) = absurd (cc)
  at_receive_reply receiving c r rest e (inr (a, (r', b, d))) = (a, cc, cc)
  at_receive_reply ended c r rest e (inl (b, d)) = absurd (cc)
  at_receive_reply ended c r rest e (inr (r', b, d)) = (cc, cc)
  at_receive_reply (executing c') c r rest e (same, a, b, d) = absurd (cc)

  at_closed :
      (c : ManagerCommand)
      → p ≡ []
      → Together (awaiting c) ended q p g t
      → Together idle ended q p g t
  at_closed c e (inl (b, d)) = (b, d)
  at_closed c e (inr (r, b, d)) = absurd (cc)

Step-IsTogether : {s t : Link} → Step s t → IsTogether s → IsTogether t
Step-IsTogether {s} (ready e) h =
    at_ready s.requests s.replies s.given s.taken s.controller (rw e at h)
Step-IsTogether {s} (receive_command e f) h =
    at_receive s.requests s.replies s.given s.taken s.controller _ _ f (rw e at h)
Step-IsTogether {s} (send_reply reply e) h =
    at_send s.requests s.replies s.given s.taken s.controller _ reply (rw e at h)
Step-IsTogether {s} die h = at_die s.requests s.replies s.given s.taken s.controller s.manager h
Step-IsTogether {s} (receive_ready e f) h =
    at_receive_ready s.requests s.replies s.given s.taken s.manager _ _ f (rw e at h)
Step-IsTogether {s} (send_command command e) h =
    at_send_command s.requests s.replies s.given s.taken s.manager command (rw e at h)
Step-IsTogether {s} (send_failed e f) h = h
Step-IsTogether {s} (receive_reply e f) h =
    at_receive_reply s.requests s.replies s.given s.taken s.manager _ _ _ f (rw e at h)
Step-IsTogether {s} (channel_closed e f g) h =
    rw g (at_closed s.requests s.replies s.given s.taken _ f (rw (e, g) at h))

pub Reach-IsTogether : {s t : Link} → Reach s t → IsTogether s → IsTogether t
Reach-IsTogether here h = h
Reach-IsTogether (next r step) h = Step-IsTogether step (Reach-IsTogether r h)
