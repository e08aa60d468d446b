-- ===== src/Rootfs/Create/Guarded.antt =====
-- What is mounted by `create_rootfs` of linux/rootfs.rs, and that it is read-only.
use mathlib.Core.Path.{subst}
use sunwalker_box.Common.{
  ℕ, true, ap, ◌≡◌, refl, sym, false, Option, none, some, List, [], ◌∷◌, Bool-cases, inl, inr,
}
use sunwalker_box.Common.Exec.{Answer, Result, ok, ◌>>=◌}
use sunwalker_box.Common.Exec.Triples.{
  Triple-granted, Triple, Triple-bind, Triple-skip, Triple-lift, Triple-pure, Triple-if_cases,
  Triple-given, Triple-called, Triple-ends,
}
use sunwalker_box.Serde.Text.{is_utf8}
use sunwalker_box.Rootfs.Mounts.{FilePath, MountPoints}
use sunwalker_box.Rootfs.Create.{
  FileType, symlink_type, dir_type, file_type, FsCall, read_dir, get_type, read_link, bind_mount,
  bind_mount_rec, remount_readonly, read_mounts, FsHistory, FsHost, FsAction, space_name, dev_name,
  proc_name, tmp_name, is_left_out, in_newroot, join_name, to_text, fs_call, list_dir, ask_type,
  ask_link, read_child_mounts, mount_readonly, copy_entry, mount_entry, mount_image, make_ephemeral,
  mount_dev, create_rootfs,
}

abbrev pub unless_granted : Option ℕ → FilePath → Option FilePath
unless_granted none target = none
unless_granted (some e) target = some target

-- Where the last call was a bind mount, or did not succeed in making one read-only, its target.
abbrev pub pending : FsHost → FsHistory → Option FilePath
pending host (bind_mount s t ∷ h) = some t
pending host (bind_mount_rec s t ∷ h) = some t
pending host (remount_readonly t ∷ h) = unless_granted (host.call_reply h (remount_readonly t)) t
pending host _ = none

abbrev pub Settled : FsHost → FsHistory → Type 0
Settled host h = pending host h ≡ none

-- The entries of the image called space, dev, proc, tmp or sys are not shown.
abbrev pub IsShown : FilePath → Type 0
IsShown name =
    (name ≡ 115 ∷ 112 ∷ 97 ∷ 99 ∷ 101 ∷ [] → ⊥)
    × (name ≡ 100 ∷ 101 ∷ 118 ∷ [] → ⊥)
    × (name ≡ 112 ∷ 114 ∷ 111 ∷ 99 ∷ [] → ⊥)
    × (name ≡ 116 ∷ 109 ∷ 112 ∷ [] → ⊥)
    × (name ≡ 115 ∷ 121 ∷ 115 ∷ [] → ⊥)

is_left_out-IsShown : (name : FilePath) → is_left_out name ≡ false → IsShown name
unfolding is_left_out
is_left_out-IsShown name kept =
    let hidden : (other : FilePath) → is_left_out other ≡ true → name ≡ other → ⊥ =
      λ other out e. absurd (cc) in
    (hidden _ refl, hidden _ refl, hidden _ refl, hidden _ refl, hidden _ refl)

abbrev pub below_newroot : FilePath → FilePath
below_newroot name = 47 ∷ 110 ∷ 101 ∷ 119 ∷ 114 ∷ 111 ∷ 111 ∷ 116 ∷ 47 ∷ name

-- What may be mounted: of the image, what has not one of the five names, at its own name; and `/dev`.
abbrev pub Allowed : FilePath → FsCall → Type 0
Allowed root (bind_mount s t) =
    (name : FilePath) × IsShown name × (s ≡ join_name root name) × (t ≡ below_newroot name)
Allowed root (bind_mount_rec s t) =
    (s ≡ 47 ∷ 100 ∷ 101 ∷ 118 ∷ []) × (t ≡ below_newroot (100 ∷ 101 ∷ 118 ∷ []))
Allowed root _ = Unit {0}

-- Only what may be mounted is, and the call after a bind mount makes it read-only.
abbrev pub Guarded : FsHost → FilePath → FsHistory → Type 0
Guarded host root [] = Unit {0}
Guarded host root (c ∷ h) =
    Allowed root c
    × ((target : FilePath) → pending host h ≡ some target → c ≡ remount_readonly target)
    × Guarded host root h

-- The action keeps this, and leaves no mount writable where it returns.
abbrev Guards : {A : Type 0} → FsHost → FilePath → FsAction A → Type 0
Guards host root m = Triple (Guarded host root) (Settled host) (λ _. Settled host) m

-- A call that mounts nothing.
record IsPlain (host : FsHost) (root : FilePath) (c : FsCall) : Type 0 where
  allowed : Allowed root c
  settles : (h : FsHistory) → Settled host (c ∷ h)

Guarded-Settled :
    (host : FsHost) (root : FilePath) (c : FsCall) (h : FsHistory)
    → Allowed root c
    → Guarded host root h
    → Settled host h
    → Guarded host root (c ∷ h)
Guarded-Settled host root c h a g z = (a, (λ target p. absurd (cc)), g)

to_text_same : (p q : FilePath) → to_text p ≡ ok q → q ≡ p
unfolding to_text
to_text_same p q e = elim (Bool-cases (is_utf8 p)) [
  | inl z ↦ let e' = rw z at e in cc
  | inr z ↦ let e' = rw z at e in absurd (cc)
]

module _ (host : FsHost) (root : FilePath) where
  Guards-call : (c : FsCall) → IsPlain host root c → Guards host root (fs_call host c)
  unfolding fs_call
  Guards-call c p =
      Triple-granted c host.call_reply (λ h g z. Guarded-Settled host root c h p.allowed g z)
        (λ _ h z e. p.settles h)

  -- An answer about the file system.
  Guards-ask :
      {A : Type 0} (c : FsCall) (reply : FsHistory → Result A)
      → IsPlain host root c
      → Guards host root (λ h. (reply h, c ∷ h))
  Guards-ask c reply p =
      Triple-called c (λ h s. (reply h, s)) (λ h s. refl)
        (λ h g z. Guarded-Settled host root c h p.allowed g z) (λ _ h z e. p.settles h)

  -- A mount that is made read-only at once.
  Guards-pair :
      (c : FsCall) (target : FilePath)
      → Allowed root c
      → ((h : FsHistory) → pending host (c ∷ h) ≡ some target)
      → Guards host root (fs_call host c >>= λ _. fs_call host (remount_readonly target))
  unfolding fs_call
  Guards-pair c target a p =
      Triple-bind {Q = λ _ h. pending host h ≡ some target} _ _
        (Triple-granted c host.call_reply (λ h g z. Guarded-Settled host root c h a g z)
          (λ _ h z e. p h))
        (λ _.
          Triple-granted (remount_readonly target) host.call_reply (λ h g z. (tt, (λ t q. cc), g))
            (λ _ h z e. ap (λ r. unless_granted r target) e))

  Guards-mount_readonly :
      (name : FilePath)
      → is_left_out name ≡ false
      → Guards host root (mount_readonly host (join_name root name) (in_newroot name))
  unfolding mount_readonly
  Guards-mount_readonly name kept =
      Guards-pair (bind_mount (join_name root name) (in_newroot name)) (in_newroot name)
        (name, is_left_out-IsShown name kept, refl, refl) (λ h. refl)

  Guards-copy_entry :
      (name source_path : FilePath) (type : FileType)
      → is_left_out name ≡ false
      → source_path ≡ join_name root name
      → Guards host root (copy_entry host source_path (in_newroot name) type)
  unfolding copy_entry ask_link
  Guards-copy_entry name source_path symlink_type kept same =
      Triple-bind _ _
        (Guards-ask (read_link source_path) _ (record { allowed = tt; settles = λ h. refl }))
        (λ link_target. Guards-call _ (record { allowed = tt; settles = λ h. refl }))
  Guards-copy_entry name source_path dir_type kept same =
      Triple-bind _ _ (Guards-call _ (record { allowed = tt; settles = λ h. refl })) (λ _.
        subst (λ p. Guards host root (mount_readonly host p (in_newroot name))) (sym same)
          (Guards-mount_readonly name kept))
  Guards-copy_entry name source_path file_type kept same =
      Triple-bind _ _ (Guards-call _ (record { allowed = tt; settles = λ h. refl })) (λ _.
        subst (λ p. Guards host root (mount_readonly host p (in_newroot name))) (sym same)
          (Guards-mount_readonly name kept))

  Guards-mount_entry : (name : FilePath) → Guards host root (mount_entry host root name)
  unfolding mount_entry ask_type
  Guards-mount_entry name =
      Triple-if_cases (is_left_out name) _ _ (λ _. Triple-skip (λ _ z. z))
        (λ kept.
          Triple-bind
            {Q = λ source_path h. (to_text (join_name root name) ≡ ok source_path) × Settled host h}
            _ _ (Triple-lift _ (λ _ same _ z. (same, z)))
            (λ source_path. Triple-given _ (λ same.
              Triple-bind _ _
                (Guards-ask (get_type source_path) _ (record { allowed = tt; settles = λ h. refl }))
                (λ type.
                  Guards-copy_entry name source_path type kept
                    (to_text_same (join_name root name) source_path same)))))

  Guards-mount_image :
      (entries : List (Answer FilePath)) → Guards host root (mount_image host root entries)
  unfolding mount_image
  Guards-mount_image [] = (Triple-skip (λ _ z. z))
  Guards-mount_image (entry ∷ entries) =
      Triple-bind _ _ (Triple-lift _ (λ _ _ _ z. z)) (λ file_name.
        Triple-bind _ _ (Triple-lift _ (λ _ _ _ z. z))
          (λ name. Triple-bind _ _ (Guards-mount_entry name) (λ _. Guards-mount_image entries)))

  Guards-make_ephemeral : (names : List FilePath) → Guards host root (make_ephemeral host names)
  unfolding make_ephemeral
  Guards-make_ephemeral [] = (Triple-skip (λ _ z. z))
  Guards-make_ephemeral (name ∷ names) =
      Triple-bind _ _ (Guards-call _ (record { allowed = tt; settles = λ h. refl }))
        (λ _. Guards-make_ephemeral names)

  Guards-create_rootfs : Guards host root (create_rootfs host root)
  unfolding create_rootfs list_dir mount_dev read_child_mounts
  Guards-create_rootfs =
      Triple-bind _ _ (Guards-call _ (record { allowed = tt; settles = λ h. refl })) (λ _.
        Triple-bind _ _
          (Guards-ask (read_dir root) _ (record { allowed = tt; settles = λ h. refl }))
          (λ entries. Triple-bind _ _ (Guards-mount_image entries) (λ _.
            Triple-bind _ _
              (Guards-make_ephemeral (space_name ∷ dev_name ∷ proc_name ∷ tmp_name ∷ []))
              (λ _. Triple-bind _ _ (Guards-pair _ _ (refl, refl) (λ h. refl)) (λ _.
                Triple-bind _ _
                  (Guards-ask read_mounts _ (record { allowed = tt; settles = λ h. refl }))
                  (λ paths. Triple-pure _ (λ _ z. z)))))))

  -- However the calls are answered, `create_rootfs` mounts nothing but entries of the image, at their
  -- names, and the `/dev` of the working area; no entry called space, dev, proc, tmp or sys is among
  -- them; the next call is to make the mount read-only, and where it does not succeed no other call
  -- follows. Where `create_rootfs` returns, each has succeeded. The mounts below `/dev`, which come with
  -- it, are not made read-only.
  pub create_rootfs-Guarded :
      Guarded host root (create_rootfs host root []).1
      × ((counts : MountPoints)
          → (create_rootfs host root []).0 ≡ ok counts
          → Settled host (create_rootfs host root []).1)
  create_rootfs-Guarded = Triple-ends _ [] Guards-create_rootfs tt refl
