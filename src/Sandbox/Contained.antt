-- ===== src/Sandbox/Contained.antt =====
-- What `enter_working_area` and `create_dev_copy` of linux/sandbox.rs change and expose.
use Prim.Native.String.{String}
use sunwalker_box.Common.{◌≡◌, ◌⊎◌, Bool, true, false, ◌||◌, List, [], ◌∷◌, ◌++◌}
use sunwalker_box.Common.Exec.Triples.{Triple}
use sunwalker_box.Sandbox.{
  AreaPath, MountSource, label, path, AreaCall, create_dir_all, create_dir, create_file, write_file,
  mount, pivot_root, symlink, AreaHistory, AreaHost, Area, working_area, device_source,
}

abbrev pub is_pivot : AreaCall → Bool
is_pivot pivot_root = true
is_pivot _ = false

abbrev pub pivoted : AreaHistory → Bool
pivoted [] = false
pivoted (c ∷ h) = is_pivot c || pivoted h

-- Where the worker may change something: in the working area, and when that has become the root, not
-- in the old root.
abbrev pub Inside : Bool → AreaPath → Type 0
Inside false p = (rest : AreaPath) × (p ≡ working_area ++ rest)
Inside true p = (rest : AreaPath) → p ≡ "oldroot" ∷ rest → ⊥

abbrev pub IsIn : {A : Type 0} → A → List A → Type 0
IsIn x [] = ⊥
IsIn x (y ∷ ys) = (x ≡ y) ⊎ IsIn x ys

abbrev host_device : String → AreaPath
host_device name = "oldroot" ∷ "dev" ∷ name ∷ []

-- What may be shown by a bind mount: the `/proc` and nine devices of the host, and the terminals of the
-- box.
abbrev pub shown_paths : List AreaPath
shown_paths =
    ("oldroot" ∷ "proc" ∷ [])
    ∷ ("dev" ∷ "pts" ∷ "ptmx" ∷ [])
    ∷ host_device "null"
    ∷ host_device "full"
    ∷ host_device "zero"
    ∷ host_device "urandom"
    ∷ host_device "stdin"
    ∷ host_device "stdout"
    ∷ host_device "stderr"
    ∷ host_device "tty"
    ∷ host_device "fd"
    ∷ []

-- A mount that binds nothing has one of three labels for a source.
abbrev pub IsShown : MountSource → Type 0
IsShown (label text) = IsIn text ("none" ∷ "devpts" ∷ "tmpfs" ∷ [])
IsShown (path p) = IsIn p shown_paths

abbrev pub Allowed : Bool → AreaCall → Type 0
Allowed b (create_dir_all p) = Inside b p
Allowed b (create_dir p) = Inside b p
Allowed b (create_file p) = Inside b p
Allowed b (write_file p) = Inside b p
Allowed b (mount source p type flags options) = Inside b p × IsShown source
Allowed b (symlink text p) = Inside b p
Allowed b _ = Unit {0}

abbrev pub Contained : AreaHistory → Type 0
Contained [] = Unit {0}
Contained (c ∷ h) = Allowed (pivoted h) c × Contained h

-- The action keeps this, and leads from the one root to the other where it returns.
abbrev Moves : {A : Type 0} → Bool → Bool → Area A → Type 0
Moves b b' m = Triple Contained (λ h. pivoted h ≡ b) (λ _ h. pivoted h ≡ b') m

module _ (host : AreaHost) where
  abbrev AllShown : List String → Type 0
  AllShown [] = Unit {0}
  AllShown (name ∷ names) = IsIn (device_source name) shown_paths × AllShown names
