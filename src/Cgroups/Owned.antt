-- ===== src/Cgroups/Owned.antt =====
-- linux/cgroups.rs: the end of a box cgroup, which is removed when it is destroyed or else when its
-- owner goes out of scope. The line on stderr about an error there is left out.
use sunwalker_box.Common.{ℕ, ◌≡◌, refl, Bool, true, false, if◌then◌else◌}
use sunwalker_box.Common.Exec.{panic, Result, ok, err}
use sunwalker_box.Cgroups.Removal.{
  Cg, Directory, CgroupHistory, CgroupFs, kill_cgroup, remove_cgroup,
}

pub record BoxCgroup : Type 0 where
  pub dir : Directory
  pub dropped : Bool

-- Only a panic is passed on.
abbrev forget_error : Result (Unit {0}) → Result (Unit {0})
forget_error (err panic) = err panic
forget_error _ = ok tt

module _ (fs : CgroupFs) (depth : ℕ) where
  -- `_destroy`: the flag is set before the removal, which may fail.
  unfoldable pub destroy_once :
      BoxCgroup → CgroupHistory → (Result (Unit {0}) × CgroupHistory) × BoxCgroup
  unfolding remove_cgroup
  destroy_once box h = (remove_cgroup fs depth box.dir h, record box { dropped = true })

  -- `drop`.
  unfoldable pub drop_box : BoxCgroup → Cg (Unit {0})
  unfolding destroy_once
  drop_box box h =
      let ((result, h'), _) = destroy_once box h in
      if box.dropped then (ok tt, h) else (forget_error result, h')

  -- `destroy` owns the box, which is dropped at its end.
  unfoldable pub destroy_box : BoxCgroup → Cg (Unit {0})
  unfolding destroy_once drop_box
  destroy_box box h =
      let ((result, h'), box') = destroy_once box h in
      let (_, h'') = drop_box box' h' in (result, h'')

  -- `ProcCgroup::destroy`.
  unfoldable pub destroy_proc : Directory → Cg (Unit {0})
  unfolding remove_cgroup
  destroy_proc dir = remove_cgroup fs depth dir

  unfoldable pub kill_box : BoxCgroup → Cg (Unit {0})
  unfolding kill_cgroup
  kill_box box = kill_cgroup fs box.dir

  -- A box that is destroyed is removed once, whether that fails or not.
  pub destroy_box_lem :
      (box : BoxCgroup) (h : CgroupHistory) → destroy_box box h ≡ remove_cgroup fs depth box.dir h
  unfolding destroy_box drop_box destroy_once
  destroy_box_lem box h = refl

  -- A box that goes out of scope is removed then, and an error of that is not passed on.
  pub drop_box_lem :
      (box : BoxCgroup) (h : CgroupHistory)
      → box.dropped ≡ false
      → (drop_box box h).1 ≡ (remove_cgroup fs depth box.dir h).1
  unfolding drop_box destroy_once
  drop_box_lem box h e = rw e refl
