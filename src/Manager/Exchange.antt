-- ===== src/Manager/Exchange.antt =====
-- linux/manager.rs and linux/controller.rs: the loop of the manager and the controller at the two ends of
-- their channel, as steps that interleave. The manager tells first that it is ready; then it receives a
-- command, executes it and sends a reply, until it dies, which it may at any time.
pub mod InStep
pub mod Answers
use sunwalker_box.Common.{◌≡◌, Option, none, some, List, [], ◌∷◌, ◌++◌}
use sunwalker_box.Controller.Machine.{ManagerCommand, Reply, value}

pub data ManagerPhase : Type 0 where
  starting receiving ended : ManagerPhase
  executing : ManagerCommand → ManagerPhase

pub data ControllerPhase : Type 0 where
  awaiting_ready idle : ControllerPhase
  awaiting : ManagerCommand → ControllerPhase

-- What is on the way, the two ends, and the replies that were given and taken with their commands, the
-- latest first.
pub record Link : Type 0 where
  pub requests : List ManagerCommand
  pub replies : List Reply
  pub manager : ManagerPhase
  pub controller : ControllerPhase
  pub given : List (ManagerCommand × Reply)
  pub taken : List (ManagerCommand × Reply)

abbrev pub link_made : Link
link_made = record {
  requests = [];
  replies = [];
  manager = starting;
  controller = awaiting_ready;
  given = [];
  taken = [];
}

pub data Step (s : Link) : Link → Type 0 where
  -- The manager.
  ready :
      s.manager ≡ starting
      → Step s (record s { manager = receiving; replies = s.replies ++ value none ∷ [] })
  receive_command :
      {command : ManagerCommand} {rest : List ManagerCommand}
      → s.manager ≡ receiving
      → s.requests ≡ command ∷ rest
      → Step s (record s { manager = executing command; requests = rest })
  send_reply :
      {command : ManagerCommand} (reply : Reply)
      → s.manager ≡ executing command
      → Step s (record s {
        manager = receiving;
        replies = s.replies ++ reply ∷ [];
        given = (command, reply) ∷ s.given;
      })
  die : Step s (record s { manager = ended })
  -- The controller, in `start` and in `run_manager_command`.
  receive_ready :
      {reply : Reply} {rest : List Reply}
      → s.controller ≡ awaiting_ready
      → s.replies ≡ reply ∷ rest
      → Step s (record s { controller = idle; replies = rest })
  send_command :
      (command : ManagerCommand)
      → s.controller ≡ idle
      → Step s (record s { controller = awaiting command; requests = s.requests ++ command ∷ [] })
  -- "Failed to send command": nobody reads any more.
  send_failed : s.controller ≡ idle → s.manager ≡ ended → Step s s
  receive_reply :
      {command : ManagerCommand} {reply : Reply} {rest : List Reply}
      → s.controller ≡ awaiting command
      → s.replies ≡ reply ∷ rest
      → Step s (record s { controller = idle; replies = rest; taken = (command, reply) ∷ s.taken })
  -- "No reply from child".
  channel_closed :
      {command : ManagerCommand}
      → s.controller ≡ awaiting command
      → s.replies ≡ []
      → s.manager ≡ ended
      → Step s (record s { controller = idle })

pub data Reach (s : Link) : Link → Type 0 where
  here : Reach s s
  next : {t u : Link} → Reach s t → Step t u → Reach s u
