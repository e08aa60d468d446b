-- ===== src/Entry/Serve/Lines.antt =====
-- The loop of linux/entry.rs over the lines of its input: each that is read is answered by one line.
use mathlib.Core.Path.{subst}
use sunwalker_box.Common.{
  true, false, if◌then◌else◌, Bool-cases, ◌≤◌, suc, ℕ, ◌+◌, ◌≡◌, refl, sym, ap, arith, List, [],
  ◌∷◌, length, ◌⊎◌, inl, inr,
}
use sunwalker_box.Common.Exec.{
  nix, io, message, panic, unfinished, Result, ok, err, Answer, answer, errno, answered, lift, skip,
  continue_with, ◌>>=◌, ◌>>◌,
}
use sunwalker_box.Common.Exec.Safe.{NotPanic}
use sunwalker_box.Controller.Machine.{ControllerHost, World, is_gone, unless_gone, stand_by}
use sunwalker_box.Controller.Machine.Wired.{not_aborted}
use sunwalker_box.Controller.Machine.Started.{
  AllConfined, Gone, is_gone-Gone, IsOrderly, IsEntering, extend-IsOrderly,
}
use sunwalker_box.Entry.Commands.{Json, FileHost, Output, handle_command}
use sunwalker_box.Entry.Commands.Total.{IsLawful}
use sunwalker_box.Entry.Commands.Handled.{handle_command-Safe}
use sunwalker_box.Entry.Serve.{
  Printed, ok_line, error_line, Session, Serving, split_once, command_name, print_result,
  attempt_control, control, serve_line, serve,
}

-- The lines before the first that cannot be read.
abbrev pub lines_read : List (Answer (List ℕ)) → ℕ
lines_read [] = 0
lines_read (answer line ∷ input) = 1 + lines_read input
lines_read (errno e ∷ input) = 0

-- How the reading of the input ends.
abbrev pub reading_ends : List (Answer (List ℕ)) → Result (Unit {0})
reading_ends [] = ok tt
reading_ends (answer line ∷ input) = reading_ends input
reading_ends (errno e ∷ input) = err (io e)

-- The box failed while it was set up, and by a panic only while it entered its working area.
abbrev pub SetUpFailed : Result (Unit {0}) → Session → Type 0
SetUpFailed (ok _) s = ⊥
SetUpFailed (err panic) s = (s.printed ≡ []) × IsEntering s.world.history
SetUpFailed (err _) s = s.printed ≡ []

-- The child ended, and the process with it: the lines up to one of those that can be read are answered.
abbrev pub ChildEnded : ControllerHost → ℕ → Result (Unit {0}) × Session → Type 0
ChildEnded host lines (r, s) =
    (r ≡ err panic) × Gone host s.world.history × (length s.printed ≤ lines)

-- Each line that was read has been answered by a line; or the box failed while it was set up; or the
-- child ended.
abbrev pub Served : ControllerHost → List (Answer (List ℕ)) → Result (Unit {0}) × Session → Type 0
Served host input (r, s) =
    ((r ≡ reading_ends input) × (length s.printed ≡ lines_read input))
    ⊎ SetUpFailed r s
    ⊎ ChildEnded host (lines_read input) (r, s)

-- What is left of the input has been answered, from this state on.
abbrev pub Answers :
    ControllerHost → List (Answer (List ℕ)) → ℕ → Result (Unit {0}) × Session → Type 0
Answers host input before (r, s) =
    (((r ≡ reading_ends input) × (length s.printed ≡ before + lines_read input))
      ⊎ ChildEnded host (before + lines_read input) (r, s))
    × AllConfined s.world.history

abbrev pub with_world : World → Session → Session
with_world w s = record s { world = w }

print_result_lem :
    (r : Result Output) (s : Session)
    → NotPanic r
    → (line : Printed) × (print_result r s ≡ (ok tt, record s { printed = line ∷ s.printed }))
unfolding print_result
print_result_lem (ok output) s n = (ok_line output, refl)
print_result_lem (err (nix e)) s n = (error_line (nix e), refl)
print_result_lem (err (io e)) s n = (error_line (io e), refl)
print_result_lem (err (message t)) s n = (error_line (message t), refl)
print_result_lem (err panic) s n = absurd n
print_result_lem (err unfinished) s n = (error_line unfinished, refl)

module _ (json : Json) (lawful : IsLawful json) (host : ControllerHost) (files : FileHost)
    (to_lowercase : List ℕ → List ℕ) where
  -- A line is answered by a line, or the process has ended.
  serve_line_lem :
      (line : List ℕ) (s : Session)
      → IsOrderly host s.world
      → (w : World) × IsOrderly host w
        × (((printed : Printed) × (serve_line json host files to_lowercase line s
                ≡ (ok tt, record { world = w; printed = printed ∷ s.printed })))
            ⊎ (Gone host w.history
                × (serve_line json host files to_lowercase line s ≡ (err panic, with_world w s))))
  unfolding serve_line attempt_control ◌>>=◌
  serve_line_lem line s wired =
      let m =
        handle_command json host files (command_name (to_lowercase (split_once line).0))
          (split_once line).1 in
      let (n, wired') =
        (handle_command-Safe (extend-IsOrderly host) (λ w p. p.0) json lawful files
            (command_name (to_lowercase (split_once line).0)) (split_once line).1).at
          s.world wired in
      let (printed, e) = print_result_lem (m s.world).0 (with_world (m s.world).1 s) n in
      elim (Bool-cases (m s.world).1.aborted) [
        | inl over ↦ ((m s.world).1, wired', inr (wired'.2 over, rw over refl))
        | inr running ↦ ((m s.world).1, wired', inl (printed, rw running e))
      ]

  Answers-suc :
      (input : List (Answer (List ℕ))) (before : ℕ) (o : Result (Unit {0}) × Session)
      → Answers host input (suc before) o
      → (line : List ℕ) → Answers host (answer line ∷ input) before o
  Answers-suc input before o (inl (e, n), h) line = (inl (e, omega (arith, n)), h)
  Answers-suc input before o (inr (e, gone, n), h) line = (inr (e, gone, omega (arith, n)), h)

  waited : (s : Session) → is_gone host s.world ≡ false → control (stand_by host) s ≡ (ok tt, s)
  unfolding control stand_by unless_gone skip
  waited s there =
      rw there (ap (λ b. (if b then err panic else ok tt, s)) (not_aborted s.world.aborted _ there))

  abbrev ended_session : Session → Session
  ended_session s = with_world (record s.world { aborted = true }) s

  stopped :
      (s : Session)
      → is_gone host s.world ≡ true
      → control (stand_by host) s ≡ (err panic, ended_session s)
  unfolding control stand_by unless_gone
  stopped s gone = rw gone refl

  abbrev served_on : Answer (List ℕ) → List (Answer (List ℕ)) → Serving (Unit {0})
  served_on line input = do
    line' ← lift (answered line)
    serve_line json host files to_lowercase line'
    serve json host files to_lowercase input

  serve_stopped :
      (line : Answer (List ℕ)) (input : List (Answer (List ℕ))) (s : Session)
      → is_gone host s.world ≡ true
      → serve json host files to_lowercase (line ∷ input) s ≡ (err panic, ended_session s)
  unfolding serve ◌>>=◌
  serve_stopped line input s gone =
      ap (λ r. continue_with r.0 (λ _. served_on line input) r.1) (stopped s gone)

  serve_waited :
      (line : Answer (List ℕ)) (input : List (Answer (List ℕ))) (s : Session)
      → is_gone host s.world ≡ false
      → serve json host files to_lowercase (line ∷ input) s ≡ served_on line input s
  unfolding serve ◌>>=◌
  serve_waited line input s there =
      ap (λ r. continue_with r.0 (λ _. served_on line input) r.1) (waited s there)

  gone-Answers :
      (input : List (Answer (List ℕ))) (s : Session)
      → IsOrderly host s.world
      → is_gone host s.world ≡ true
      → Answers host input (length s.printed) (err panic, ended_session s)
  gone-Answers input s wired gone =
      (inr (refl, is_gone-Gone host s.world wired.2 gone, omega arith), wired.1)

  line_lem :
      (line : Answer (List ℕ)) (input : List (Answer (List ℕ))) (s : Session)
      → IsOrderly host s.world
      → ((t : Session)
          → IsOrderly host t.world
          → Answers host input (length t.printed) (serve json host files to_lowercase input t))
      → Answers host (line ∷ input) (length s.printed) (served_on line input s)
  unfolding ◌>>=◌ lift
  line_lem (errno e) input s wired later = (inl (refl, omega arith), wired.1)
  line_lem (answer line) input s wired later =
      let (w, wired', outcome) = serve_line_lem line s wired in
      elim outcome [
        | inl (printed, e) ↦
            let t : Session = record { world = w; printed = printed ∷ s.printed } in
            rw e (
              Answers-suc input (length s.printed) (serve json host files to_lowercase input t)
                (later t wired') line)
        | inr (gone, e) ↦ rw e (inr (refl, gone, omega arith), wired'.1)
      ]

  pub serve_lem :
      (input : List (Answer (List ℕ))) (s : Session)
      → IsOrderly host s.world
      → Answers host input (length s.printed) (serve json host files to_lowercase input s)
  unfolding serve skip
  serve_lem [] s wired = (inl (refl, omega arith), wired.1)
  serve_lem (line ∷ input) s wired = elim (Bool-cases (is_gone host s.world)) [
    | inl gone ↦
        subst (Answers host (line ∷ input) (length s.printed))
          (sym (serve_stopped line input s gone)) (gone-Answers (line ∷ input) s wired gone)
    | inr there ↦
        subst (Answers host (line ∷ input) (length s.printed))
          (sym (serve_waited line input s there)) (line_lem line input s wired (serve_lem input))
  ]
