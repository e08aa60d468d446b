-- ===== src/Witnesses/Exchange.antt =====
-- A manager that is ready and has received the command to make a mount read-only.
use sunwalker_box.Common.{refl, [], ◌∷◌}
use sunwalker_box.Controller.Machine.{remount_readonly}
use sunwalker_box.Manager.Exchange.{
  Link, link_made, ready, receive_ready, send_command, receive_command, executing, awaiting, Reach,
  here, next,
}
use sunwalker_box.Manager.Exchange.Answers.{Answered, CanEnd, Reach-Answered}

abbrev busy : Link
busy = record link_made {
  manager = executing (remount_readonly (47 ∷ []));
  controller = awaiting (remount_readonly (47 ∷ []));
}

busy_reached : Reach link_made busy
busy_reached =
    next
      (next (next (next here (ready refl)) (receive_ready {rest = []} refl refl))
        (send_command (remount_readonly (47 ∷ [])) refl))
      (receive_command {rest = []} refl refl)

Reach-Answered_example :
    Answered busy.controller busy.given busy.taken × CanEnd busy.controller busy
Reach-Answered_example = Reach-Answered busy_reached
