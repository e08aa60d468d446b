-- ===== src/Controller/Machine/Calls.antt =====
-- Which paths the calls of the controller name: what is changed from outside is below `/newroot` and no
-- direct child of it, what is read is below `/newroot`, and what is bound comes from below `/oldroot`.
use sunwalker_box.Common.{ℕ, ◌≡◌, Option, none, some, List, [], ◌∷◌, ◌++◌, length}
use sunwalker_box.Common.Exec.{Result, ok}
use sunwalker_box.Rootfs.{newroot, oldroot, space, resolve_abs_box_root, resolve_abs_old_root}
use sunwalker_box.Rootfs.Names.{AllNames, space-AllNames}
use sunwalker_box.Rootfs.Resolve.{render, Agrees, resolve_abs-Agrees}
use sunwalker_box.Controller.{ensure_allowed_to_modify}
use sunwalker_box.Controller.Protected.{ensure_allowed_to_modify-resolve_abs_box_root}
use sunwalker_box.Controller.Machine.{FileCall, ControllerCall}

-- A path below a root, with names that are neither empty nor dots.
abbrev pub Below : List ℕ → List ℕ → Type 0
Below root path = (stack : List (List ℕ)) × AllNames stack × (path ≡ root ++ render stack)

abbrev pub Changeable : List ℕ → Type 0
Changeable path =
    (stack : List (List ℕ)) × AllNames stack
    × (path ≡ newroot ++ render stack)
    × (¬ (length stack ≡ 1))

abbrev pub ConfinedFile : FileCall → Type 0
ConfinedFile (FileCall.create_dir path) = Changeable path
ConfinedFile (FileCall.read_dir path) = Below newroot path
ConfinedFile (FileCall.open_file path) = Below newroot path
ConfinedFile (FileCall.create_file path) = Changeable path
ConfinedFile (FileCall.write_all path content) = Changeable path
ConfinedFile (FileCall.make_symlink target link) = Changeable link

abbrev pub Confined : ControllerCall → Type 0
Confined (ControllerCall.file_call c) = ConfinedFile c
Confined (ControllerCall.bind_mount external internal) =
    Below oldroot external × Below newroot internal
Confined (ControllerCall.change_propagation internal) = Below newroot internal
Confined _ = Unit {0}

module _ (read_link : List ℕ → Option (List ℕ)) where
  Agrees-Below :
      (root : List ℕ) (r : Result (List ℕ)) (o : Option (List (List ℕ))) (path : List ℕ)
      → Agrees read_link root r o
      → r ≡ ok path
      → Below root path
  Agrees-Below root r none path e h = absurd (cc)
  Agrees-Below root r (some stack) path (e, names) h = (stack, names, cc)

  pub resolve_abs_box_root-Below :
      (path path' : List ℕ) → resolve_abs_box_root read_link path ≡ ok path' → Below newroot path'
  unfolding resolve_abs_box_root render
  resolve_abs_box_root-Below path path' h =
      Agrees-Below newroot _ _ path'
        (resolve_abs-Agrees read_link newroot path (space ∷ []) 0 space-AllNames) h

  pub resolve_abs_old_root-Below :
      (path path' : List ℕ) → resolve_abs_old_root read_link path ≡ ok path' → Below oldroot path'
  unfolding resolve_abs_old_root render
  resolve_abs_old_root-Below path path' h =
      Agrees-Below oldroot _ _ path' (resolve_abs-Agrees read_link oldroot path [] 0 tt) h

  pub ensured-Changeable :
      (path path' : List ℕ)
      → resolve_abs_box_root read_link path ≡ ok path'
      → ensure_allowed_to_modify path' ≡ ok tt
      → Changeable path'
  ensured-Changeable path path' h allowed =
      let (stack, names, e, iff) =
        ensure_allowed_to_modify-resolve_abs_box_root read_link path path' h in
      (stack, names, e, iff.0 allowed)
