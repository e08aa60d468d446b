-- ===== src/Manager/Remount.antt =====
-- The trial of flags in linux/manager.rs.
use sunwalker_box.Common.{
  ℕ, ◌+◌, ◌≡◌, refl, ap, ◌∙◌, arith, take, drop, Bool, true, false, ◌&&◌, ◌||◌, Option, none, some,
  List, [], ◌∷◌, if◌then◌else◌,
}
use sunwalker_box.Common.Exec.{ok, skip, ◌>>=◌}
use sunwalker_box.Manager.{flag_sets, bind_mount_opt, after_attempt, try_flags, remount_readonly}

-- The flags that a mount was made with and that a remount must keep: NOSUID, NODEV and NOEXEC.
abbrev pub Locked : Type 0
Locked = Bool × Bool × Bool

abbrev bit : ℕ → Bool → ℕ
bit n true = n
bit n false = 0

abbrev pub locked_flags : Locked → ℕ
locked_flags (nosuid, nodev, noexec) = bit 2 nosuid + bit 4 nodev + bit 8 noexec

abbrev lacks : Bool → Bool → Bool
lacks true false = true
lacks _ _ = false

-- A set of flags lacks one that is locked.
abbrev pub lacks_some : Locked → Locked → Bool
lacks_some (nosuid, nodev, noexec) (nosuid', nodev', noexec') =
    lacks nosuid nosuid' || (lacks nodev nodev' || lacks noexec noexec')

-- What the kernel answers to a read-only remount: EPERM where a locked flag is missing.
abbrev pub Grants : (List ℕ → ℕ → Option ℕ) → Locked → Type 0
Grants mount_reply l =
    (tried : List ℕ) (set : Locked)
    → mount_reply tried (32 + 1 + locked_flags set + 4096)
      ≡ (if lacks_some l set then some 1 else none)

abbrev all_lack : Locked → List Locked → Bool
all_lack l [] = true
all_lack l (b ∷ bs) = lacks_some l b && all_lack l bs

abbrev flags_then : List Locked → List ℕ → List ℕ
flags_then [] rest = rest
flags_then (b ∷ bs) rest = locked_flags b ∷ flags_then bs rest

-- `flag_sets`, in its order.
abbrev locked_sets : List Locked
locked_sets =
    (false, false, false)
    ∷ (true, false, false)
    ∷ (false, true, false)
    ∷ (true, true, false)
    ∷ (false, false, true)
    ∷ (true, false, true)
    ∷ (false, true, true)
    ∷ (true, true, true)
    ∷ []

module _ (mount_reply : List ℕ → ℕ → Option ℕ) where
  step :
      (flags : ℕ) (rest : List ℕ) (result : Option ℕ) (tried : List ℕ) (reply : Option ℕ)
      → mount_reply tried (32 + 1 + flags + 4096) ≡ reply
      → try_flags mount_reply (flags ∷ rest) result tried
        ≡ after_attempt mount_reply
            (try_flags mount_reply rest reply)
            reply
            ((32 + 1 + flags + 4096) ∷ tried)
  unfolding try_flags bind_mount_opt ◌>>=◌
  step flags rest result tried reply e = rw e refl

  module _ (l : Locked) (g : Grants mount_reply l) where
    -- Sets that lack a flag are passed over, up to one that lacks none.
    passes :
        (before : List Locked) (set : Locked) (rest : List ℕ) (result : Option ℕ) (tried : List ℕ)
        → all_lack l before ≡ true
        → lacks_some l set ≡ false
        → (tried' : List ℕ) × (try_flags mount_reply
              (flags_then before (locked_flags set ∷ rest))
              result
              tried
            ≡ (ok tt, (32 + 1 + locked_flags set + 4096) ∷ tried'))
    passes [] set rest result tried h e = (
      tried,
      step (locked_flags set) rest result tried none
            (g tried set ∙ ap (λ b. if b then some 1 else none) e)
          ∙ (unfold skip in refl),
    )
    passes (b ∷ bs) set rest result tried h e =
        let lack : lacks_some l b ≡ true = ground arith in
        let (tried', go) =
          passes bs set rest (some 1) ((32 + 1 + locked_flags b + 4096) ∷ tried) (ground arith) e in
        (
          tried',
          step (locked_flags b) (flags_then bs (locked_flags set ∷ rest)) result tried (some 1)
                (g tried b ∙ ap (λ b. if b then some 1 else none) lack)
              ∙ go,
        )

  -- The mount becomes read-only with the flags that it has to keep, and with no other.
  pub remount_readonly_lem :
      (l : Locked)
      → Grants mount_reply l
      → (tried : List ℕ) × (remount_readonly mount_reply []
          ≡ (ok tt, (32 + 1 + locked_flags l + 4096) ∷ tried))
  unfolding remount_readonly
  remount_readonly_lem (false, false, false) g =
      passes (false, false, false) g (take 0 locked_sets) (false, false, false) (drop 1 flag_sets)
        none [] refl refl
  remount_readonly_lem (true, false, false) g =
      passes (true, false, false) g (take 1 locked_sets) (true, false, false) (drop 2 flag_sets)
        none [] refl refl
  remount_readonly_lem (false, true, false) g =
      passes (false, true, false) g (take 2 locked_sets) (false, true, false) (drop 3 flag_sets)
        none [] refl refl
  remount_readonly_lem (true, true, false) g =
      passes (true, true, false) g (take 3 locked_sets) (true, true, false) (drop 4 flag_sets) none
        [] refl refl
  remount_readonly_lem (false, false, true) g =
      passes (false, false, true) g (take 4 locked_sets) (false, false, true) (drop 5 flag_sets)
        none [] refl refl
  remount_readonly_lem (true, false, true) g =
      passes (true, false, true) g (take 5 locked_sets) (true, false, true) (drop 6 flag_sets) none
        [] refl refl
  remount_readonly_lem (false, true, true) g =
      passes (false, true, true) g (take 6 locked_sets) (false, true, true) (drop 7 flag_sets) none
        [] refl refl
  remount_readonly_lem (true, true, true) g =
      passes (true, true, true) g (take 7 locked_sets) (true, true, true) (drop 8 flag_sets) none []
        refl refl
