-- ===== src/Rootfs.antt =====
-- linux/rootfs.rs: how a path is resolved below a root, and what is mounted in the box. A path is a
-- list of bytes. What the file system answers is a parameter.
pub mod Names
pub mod Resolve
pub mod Mounts
pub mod Restores
pub mod Reset
pub mod Create
use sunwalker_box.Common.{
  ℕ, zero, suc, ◌-◌, Bool, true, false, ◌&&◌, Option, none, some, List, [], ◌∷◌, ◌++◌, length, take,
  ltb, ◌==◌, if◌then◌else◌,
}
use sunwalker_box.Common.Exec.{Result, ok, err, and_then, io, panic}

abbrev pub slash : ℕ
slash = 47

abbrev pub dot : ℕ
dot = 46

-- `std::path::Component`, of which `Prefix` does not occur on Unix.
pub data Component : Type 0 where
  root_dir cur_dir parent_dir : Component
  normal : List ℕ → Component

abbrev pub add_to_first : ℕ → List (List ℕ) → List (List ℕ)
add_to_first c [] = (c ∷ []) ∷ []
add_to_first c (p ∷ ps) = (c ∷ p) ∷ ps

-- What stands between the slashes.
unfoldable pub split_slash : List ℕ → List (List ℕ)
split_slash [] = [] ∷ []
split_slash (c ∷ cs) =
    let rest = split_slash cs in if c == slash then [] ∷ rest else add_to_first c rest

unfoldable pub eq_bytes : List ℕ → List ℕ → Bool
eq_bytes [] [] = true
eq_bytes [] (y ∷ ys) = false
eq_bytes (x ∷ xs) [] = false
eq_bytes (x ∷ xs) (y ∷ ys) = x == y && eq_bytes xs ys

unfoldable pub add_part : List ℕ → List Component → List Component
unfolding eq_bytes
add_part p cs =
    if eq_bytes p []
    then cs
    else if eq_bytes p (dot ∷ [])
    then cs
    else if eq_bytes p (dot ∷ dot ∷ [])
    then parent_dir ∷ cs
    else normal p ∷ cs

unfoldable pub parts : List (List ℕ) → List Component
unfolding add_part
parts [] = []
parts (p ∷ ps) = add_part p (parts ps)

unfoldable pub leading : List (List ℕ) → List Component
unfolding parts
leading [] = []
leading (p ∷ ps) = if eq_bytes p (dot ∷ []) then cur_dir ∷ parts ps else parts (p ∷ ps)

-- `Path::components`: a dot counts at the start of a relative path only.
unfoldable pub components : List ℕ → List Component
unfolding leading split_slash
components [] = []
components (c ∷ cs) =
    if c == slash then root_dir ∷ parts (split_slash cs) else leading (split_slash (c ∷ cs))

abbrev found_later : Bool → Option ℕ → Option ℕ
found_later here (some i) = some (suc i)
found_later true none = some 0
found_later false none = none

-- `acc.iter().rposition(|&r| r == b'/')`.
unfoldable pub rposition : List ℕ → Option ℕ
rposition [] = none
rposition (c ∷ cs) = found_later (c == slash) (rposition cs)

abbrev pub truncate_at : List ℕ → Option ℕ → Result (List ℕ)
truncate_at acc none = err panic
truncate_at acc (some i) = ok (take i acc)

-- `ErrorKind::FilesystemLoop`.
abbrev pub eloop : ℕ
eloop = 40

module _ (read_link : List ℕ → Option (List ℕ)) (root : List ℕ) where
  -- A target that was read is resolved from where the link stands.
  abbrev pub follow_link :
      (List ℕ → List ℕ → Result (List ℕ)) → List ℕ → List ℕ → Option (List ℕ) → Result (List ℕ)
  follow_link resolve acc extended none = ok extended
  follow_link resolve acc extended (some target) = resolve target (take (length acc) extended)

  unfoldable pub step_component :
      (List ℕ → List ℕ → Result (List ℕ)) → List ℕ → Component → Result (List ℕ)
  unfolding rposition
  step_component resolve acc root_dir = ok (take (length root) acc)
  step_component resolve acc cur_dir = ok acc
  step_component resolve acc parent_dir =
      if ltb (length root) (length acc) then truncate_at acc (rposition acc) else ok acc
  step_component resolve acc (normal part) =
      follow_link resolve acc (acc ++ slash ∷ part) (read_link (acc ++ slash ∷ part))

  unfoldable pub walk :
      (List ℕ → List ℕ → Result (List ℕ)) → List Component → List ℕ → Result (List ℕ)
  unfolding step_component
  walk resolve [] acc = ok acc
  walk resolve (c ∷ cs) acc = and_then (step_component resolve acc c) (walk resolve cs)

  -- With so many levels of links left.
  unfoldable pub resolve_level : ℕ → List ℕ → List ℕ → Result (List ℕ)
  unfolding walk components
  resolve_level zero path acc = err (io eloop)
  resolve_level (suc levels) path acc = walk (resolve_level levels) (components path) acc

  -- `link_level > 255` is an error, and each link adds one to it.
  unfoldable pub resolve_abs : List ℕ → List ℕ → ℕ → Result (List ℕ)
  unfolding resolve_level
  resolve_abs path acc link_level = resolve_level (256 - link_level) path acc

-- The bytes of `/newroot`, `/newroot/space` and `/oldroot`.
abbrev pub newroot : List ℕ
newroot = 47 ∷ 110 ∷ 101 ∷ 119 ∷ 114 ∷ 111 ∷ 111 ∷ 116 ∷ []

abbrev pub space : List ℕ
space = 115 ∷ 112 ∷ 97 ∷ 99 ∷ 101 ∷ []

abbrev pub oldroot : List ℕ
oldroot = 47 ∷ 111 ∷ 108 ∷ 100 ∷ 114 ∷ 111 ∷ 111 ∷ 116 ∷ []

module _ (read_link : List ℕ → Option (List ℕ)) where
  unfoldable pub resolve_abs_box_root : List ℕ → Result (List ℕ)
  unfolding resolve_abs
  resolve_abs_box_root path = resolve_abs read_link newroot path (newroot ++ slash ∷ space) 0

  unfoldable pub resolve_abs_old_root : List ℕ → Result (List ℕ)
  unfolding resolve_abs
  resolve_abs_old_root path = resolve_abs read_link oldroot path oldroot 0
