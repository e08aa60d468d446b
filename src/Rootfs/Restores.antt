-- ===== src/Rootfs/Restores.antt =====
-- `reset` of linux/rootfs.rs undoes the mounts that were added since `create_rootfs`, as often as
-- they were added.
use sunwalker_box.Common.{
  ℕ, ◌+◌, ◌-◌, ◌≡◌, refl, sym, ap, ◌∙◌, true, false, List, [], ◌∷◌, ◌==◌, ==_iff, ==_refl,
  if◌then◌else◌, arith, Bool-cases, inl, inr,
}
use sunwalker_box.Rootfs.{eq_bytes}
use sunwalker_box.Rootfs.Mounts.{
  FilePath, MountPoints, lookup_count, set_count, count_mounts, is_whitelisted, paths_to_umount,
}

eq_bytes_refl : (xs : List ℕ) → eq_bytes xs xs ≡ true
unfolding eq_bytes
eq_bytes_refl [] = refl
eq_bytes_refl (x ∷ xs) = rw (==_refl x, eq_bytes_refl xs) refl

eq_bytes_sound : (xs ys : List ℕ) → eq_bytes xs ys ≡ true → xs ≡ ys
unfolding eq_bytes
eq_bytes_sound [] [] h = refl
eq_bytes_sound [] (y ∷ ys) h = absurd (cc)
eq_bytes_sound (x ∷ xs) [] h = absurd (cc)
eq_bytes_sound (x ∷ xs) (y ∷ ys) h =
    let same : x ≡ y = ground arith in let rest = eq_bytes_sound xs ys (ground arith) in cc

-- How often a path stands in a list.
unfoldable pub count : FilePath → List FilePath → ℕ
count path [] = 0
count path (p ∷ ps) = let rest = count path ps in if eq_bytes p path then rest + 1 else rest

lookup-set_same :
    (path : FilePath) (n : ℕ) (counts : MountPoints)
    → lookup_count path (set_count path n counts) ≡ n
unfolding lookup_count set_count
lookup-set_same path n [] = rw (eq_bytes_refl path) refl
lookup-set_same path n ((p, m) ∷ counts) = elim (Bool-cases (eq_bytes p path)) [
  | inl e ↦ rw e (rw e refl)
  | inr e ↦ rw e (rw e (lookup-set_same path n counts))
]

lookup-set_other :
    (path other : FilePath) (n : ℕ) (counts : MountPoints)
    → eq_bytes path other ≡ false
    → lookup_count other (set_count path n counts) ≡ lookup_count other counts
unfolding lookup_count set_count
lookup-set_other path other n [] h = rw h refl
lookup-set_other path other n ((p, m) ∷ counts) h = elim (Bool-cases (eq_bytes p path)) [
  | inl e ↦
      let e' : eq_bytes p other ≡ false =
        ap (λ q. eq_bytes q other) (eq_bytes_sound p path e) ∙ h in
      rw e (rw e' refl)
  | inr e ↦ rw e (elim (Bool-cases (eq_bytes p other)) [
    | inl e' ↦ rw e' refl
    | inr e' ↦ rw e' (lookup-set_other path other n counts h)
  ])
]

-- What is stored under a path, by whichever of two equal paths it is set and looked up.
lookup-set :
    (p path : FilePath) (n : ℕ) (counts : MountPoints)
    → eq_bytes p path ≡ true
    → (lookup_count path (set_count p n counts) ≡ n)
      × (lookup_count p counts ≡ lookup_count path counts)
lookup-set p path n counts e =
    let same = eq_bytes_sound p path e in
    (
      ap (λ q. lookup_count q (set_count p n counts)) (sym same) ∙ lookup-set_same p n counts,
      ap (λ q. lookup_count q counts) same,
    )

count-count_mounts :
    (path : FilePath) (paths : List FilePath) (counts : MountPoints)
    → lookup_count path (count_mounts paths counts) ≡ lookup_count path counts + count path paths
unfolding count_mounts count
count-count_mounts path [] counts = omega arith
count-count_mounts path (p ∷ ps) counts =
    let now = lookup_count p counts + 1 in
    let later = count-count_mounts path ps (set_count p now counts) in
    elim (Bool-cases (eq_bytes p path)) [
      | inl e ↦
          let (stored, same) = lookup-set p path now counts e in
          rw e (omega (arith, later, stored, same))
      | inr e ↦ rw e (omega (arith, later, lookup-set_other p path now counts e))
    ]

whitelisted_same :
    (p path : FilePath) → eq_bytes p path ≡ true → is_whitelisted p ≡ is_whitelisted path
whitelisted_same p path e = ap is_whitelisted (eq_bytes_sound p path e)

-- The mounts that the kernel and the reaper keep are left alone.
count-whitelisted :
    (path : FilePath) (current : List FilePath) (counts : MountPoints)
    → is_whitelisted path ≡ true
    → count path (paths_to_umount current counts) ≡ 0
unfolding paths_to_umount count
count-whitelisted path [] counts w = refl
count-whitelisted path (p ∷ ps) counts w =
    let other : is_whitelisted p ≡ false → eq_bytes p path ≡ false = λ h.
      elim (Bool-cases (eq_bytes p path)) [
        | inl e ↦ absurd (ground (arith, whitelisted_same p path e))
        | inr e ↦ e
      ] in
    elim (Bool-cases (is_whitelisted p)) [
      | inl h ↦ rw h (count-whitelisted path ps counts w)
      | inr h ↦ rw h (elim (Bool-cases (lookup_count p counts == 0)) [
        | inl z ↦ rw z (rw (other h) (count-whitelisted path ps counts w))
        | inr z ↦ rw z (count-whitelisted path ps _ w)
      ])
    ]

count-paths_to_umount :
    (path : FilePath) (current : List FilePath) (counts : MountPoints)
    → is_whitelisted path ≡ false
    → count path (paths_to_umount current counts) ≡ count path current - lookup_count path counts
unfolding paths_to_umount count
count-paths_to_umount path [] counts w = omega arith
count-paths_to_umount path (p ∷ ps) counts w = elim (Bool-cases (eq_bytes p path)) [
  | inl e ↦
      let (stored, same) = lookup-set p path (lookup_count p counts - 1) counts e in
      rw e (
        rw (whitelisted_same p path e ∙ w) (elim (Bool-cases (lookup_count p counts == 0)) [
          | inl z ↦
              rw z (
                rw e
                  (omega (arith, count-paths_to_umount path ps counts w, same, (==_iff _ _).0 z)))
          | inr z ↦ rw z (
              ground (
                arith,
                count-paths_to_umount path ps (set_count p (lookup_count p counts - 1) counts) w,
                stored,
                same,
              ))
        ]))
  | inr e ↦ rw e (elim (Bool-cases (is_whitelisted p)) [
    | inl h ↦ rw h (count-paths_to_umount path ps counts w)
    | inr h ↦ rw h (elim (Bool-cases (lookup_count p counts == 0)) [
      | inl z ↦ rw z (rw e (count-paths_to_umount path ps counts w))
      | inr z ↦ rw z (
          count-paths_to_umount path ps _ w
          ∙ ap (λ n. count path ps - n)
              (lookup-set_other p path (lookup_count p counts - 1) counts e))
    ])
  ])
]

-- Each path is undone as often as it is mounted now beyond what was mounted when the root was made;
-- what is kept by the exceptions is not undone.
pub count-reset :
    (path : FilePath) (before current : List FilePath)
    → count path (paths_to_umount current (count_mounts before []))
      ≡ (if is_whitelisted path then 0 else count path current - count path before)
count-reset path before current = elim (Bool-cases (is_whitelisted path)) [
  | inl w ↦ rw w (count-whitelisted path current _ w)
  | inr w ↦ rw w (
      count-paths_to_umount path current _ w
      ∙ ap (λ n. count path current - n)
          (count-count_mounts path before [] ∙ (unfold lookup_count in omega arith)))
]
