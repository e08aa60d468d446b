-- ===== src/Witnesses/Files.antt =====
-- Paths, mounts, statistics and files of linux/.

use sunwalker_box.Common.{
  ℕ, ◌+◌, ◌-◌, ◌^◌, ◌≡◌, ◌<◌, ◌↔◌, refl, Option, none, some, List, [], ◌∷◌, ◌++◌, length, take,
  drop, min, ◌==◌, if◌then◌else◌, arith,
}
use sunwalker_box.Common.Exec.{answer, ok}
use sunwalker_box.Rootfs.{eq_bytes, resolve_abs, newroot, resolve_abs_box_root}
use sunwalker_box.Rootfs.Names.{AllNames}
use sunwalker_box.Rootfs.Resolve.{render, below, link_at, stack_level, Agrees, resolve_abs-Agrees}
use sunwalker_box.Rootfs.Mounts.{paths_to_umount, count_mounts, is_whitelisted}
use sunwalker_box.Rootfs.Restores.{count, count-reset}
use sunwalker_box.Controller.{ensure_allowed_to_modify}
use sunwalker_box.Controller.Protected.{ensure_allowed_to_modify-resolve_abs_box_root}
use sunwalker_box.Cgroups.{user_usec, system_usec, oom_kill, get_cpu_stats}
use sunwalker_box.Cgroups.Statistics.{
  Entry, show_entries, last_value, last_micros, memory_sum, get_cpu_stats-show_entries,
}
use sunwalker_box.Cgroups.Removal.{CgroupFs, remove_empty}
use sunwalker_box.Cgroups.Removal.Backoff.{Settled, remove_empty-Settled}
use sunwalker_box.Entry.{ReadCount, cat}
use sunwalker_box.Entry.Cat.{IsReader, cat_lem}

-- `/space/l` is a link to `../../x`.
abbrev link_path : List ℕ
link_path = newroot ++ 47 ∷ 115 ∷ 112 ∷ 97 ∷ 99 ∷ 101 ∷ 47 ∷ 108 ∷ []

abbrev link_target : List ℕ
link_target = 46 ∷ 46 ∷ 47 ∷ 46 ∷ 46 ∷ 47 ∷ 120 ∷ []

abbrev read_link : List ℕ → Option (List ℕ)
read_link path = if eq_bytes path link_path then some link_target else none

resolve_abs_example :
    Agrees read_link newroot
      (resolve_abs read_link newroot (47 ∷ 108 ∷ []) (below read_link newroot []) 3)
      (stack_level (link_at read_link newroot) (256 - 3) (47 ∷ 108 ∷ []) [])
resolve_abs_example = resolve_abs-Agrees read_link newroot (47 ∷ 108 ∷ []) [] 3 tt

-- The link `l` leads to `/x`, below the root.
box_path : resolve_abs_box_root read_link (108 ∷ []) ≡ ok (newroot ++ 47 ∷ 120 ∷ [])
unfolding resolve_abs_box_root eq_bytes
box_path = refl

ensure_allowed_to_modify_example :
    (stack : List (List ℕ)) × AllNames stack
    × ((newroot ++ 47 ∷ 120 ∷ []) ≡ newroot ++ render stack)
    × ((ensure_allowed_to_modify (newroot ++ 47 ∷ 120 ∷ []) ≡ ok tt) ↔ (¬ (length stack ≡ 1)))
ensure_allowed_to_modify_example =
    ensure_allowed_to_modify-resolve_abs_box_root read_link (108 ∷ []) (newroot ++ 47 ∷ 120 ∷ [])
      box_path

abbrev mount_a : List ℕ
mount_a = newroot ++ 47 ∷ 97 ∷ []

count-reset_example :
    count mount_a
      (paths_to_umount (mount_a ∷ mount_a ∷ mount_a ∷ []) (count_mounts (mount_a ∷ []) []))
    ≡ (if is_whitelisted mount_a
        then 0
        else count mount_a (mount_a ∷ mount_a ∷ mount_a ∷ []) - count mount_a (mount_a ∷ []))
count-reset_example = count-reset mount_a (mount_a ∷ []) (mount_a ∷ mount_a ∷ mount_a ∷ [])

abbrev anon_entry : Entry
anon_entry = record {
  first = 97;
  others = 110 ∷ 111 ∷ 110 ∷ [];
  value = 4096;
  is_plain = (refl, (refl, (refl, (refl, tt))));
  fits = omega arith;
}

abbrev sock_entry : Entry
sock_entry = record {
  first = 115;
  others = 111 ∷ 99 ∷ 107 ∷ [];
  value = 10;
  is_plain = (refl, (refl, (refl, (refl, tt))));
  fits = omega arith;
}

memory_small : memory_sum (anon_entry ∷ sock_entry ∷ []) < 2 ^ 64
unfolding memory_sum eq_bytes
memory_small = omega arith

abbrev user_entry : Entry
user_entry = record {
  first = 117;
  others = 115 ∷ 101 ∷ 114 ∷ 95 ∷ 117 ∷ 115 ∷ 101 ∷ 99 ∷ [];
  value = 2500;
  is_plain = (refl, (refl, (refl, (refl, (refl, (refl, (refl, (refl, (refl, tt)))))))));
  fits = omega arith;
}

get_cpu_stats_example :
    get_cpu_stats (show_entries (anon_entry ∷ user_entry ∷ []))
    ≡ ok (record {
      user = last_micros user_usec (anon_entry ∷ user_entry ∷ []) 0;
      system = last_micros system_usec (anon_entry ∷ user_entry ∷ []) 0;
      total =
          last_micros user_usec (anon_entry ∷ user_entry ∷ []) 0
          + last_micros system_usec (anon_entry ∷ user_entry ∷ []) 0;
    })
get_cpu_stats_example = get_cpu_stats-show_entries (anon_entry ∷ user_entry ∷ [])

abbrev oom_entry : Entry
oom_entry = record {
  first = 111;
  others = 111 ∷ 109 ∷ 95 ∷ 107 ∷ 105 ∷ 108 ∷ 108 ∷ [];
  value = 1;
  is_plain = (refl, (refl, (refl, (refl, (refl, (refl, (refl, (refl, tt))))))));
  fits = omega arith;
}

oom_found : last_value oom_kill (anon_entry ∷ oom_entry ∷ []) none ≡ some 1
unfolding last_value eq_bytes
oom_found = refl

-- A kernel where the directory stays busy, and one where no file is found.
abbrev busy_fs : CgroupFs
busy_fs = record {
  open_reply = λ h dir name. none;
  write_reply = λ h dir name. none;
  lines_reply = λ h dir name. ok [];
  list_reply = λ h dir. ok [];
  sub_dir_reply = λ h dir. none;
  rmdir_reply = λ h dir. some 16;
  kill_reply = λ h pid. none;
  setup_reply = λ h c. none;
  text_reply = λ h dir name. answer [];
}

remove_empty_example :
    Settled 1550 []
      (remove_empty busy_fs ("box-a" ∷ []) []).0
      (remove_empty busy_fs ("box-a" ∷ []) []).1
remove_empty_example = remove_empty-Settled busy_fs ("box-a" ∷ []) []

-- A file whose reads return one byte at a time.
abbrev bytewise : ReadCount
bytewise pos want = min want 1

abbrev text : List ℕ
text = 104 ∷ 101 ∷ 108 ∷ 108 ∷ 111 ∷ []

bytewise-IsReader : IsReader bytewise text
bytewise-IsReader = record {
  progress = λ pos want h h'. omega arith;
  no_more = λ pos want. omega arith;
}

cat_example : cat bytewise text [] 1 3 ≡ ok (if 3 == 0 then drop 1 text else take 3 (drop 1 text))
cat_example = cat_lem bytewise text bytewise-IsReader [] 1 3 (omega arith) (omega arith)
