-- ===== src/Runner/Maps.antt =====
-- The maps that `configure_ns` of linux/userns.rs writes, as the kernel reads them.
use sunwalker_box.Common.{
  ℕ, ◌+◌, ◌-◌, ◌&&◌, Option, none, some, List, [], ◌∷◌, ltb, leb, if◌then◌else◌,
}
use sunwalker_box.Cgroups.{split_ascii_whitespace, parse_number}
use sunwalker_box.Runner.{
  id_map, allow_text, uid_map, gid_map, setgroups_file, ConfigureCall, recv, getppid, write_file,
}

-- The first id inside, the first outside, and how many.
abbrev pub IdRange : Type 0
IdRange = ℕ × ℕ × ℕ

abbrev pub with_range : Option ℕ → Option ℕ → Option ℕ → List IdRange → List IdRange
with_range (some inside) (some outside) (some count) ranges = (inside, outside, count) ∷ ranges
with_range a b c ranges = []

abbrev pub read_ranges : List (List ℕ) → List IdRange
read_ranges (a ∷ b ∷ c ∷ words) =
    with_range (parse_number a) (parse_number b) (parse_number c) (read_ranges words)
read_ranges _ = []

-- The id outside of an id inside.
abbrev pub outside_of : List IdRange → ℕ → Option ℕ
outside_of [] id = none
outside_of ((inside, outside, count) ∷ ranges) id =
    if leb inside id && ltb id (inside + count)
    then some (outside + (id - inside))
    else outside_of ranges id

abbrev pub kernel_maps : List ℕ → ℕ → Option ℕ
kernel_maps text id = outside_of (read_ranges (split_ascii_whitespace text)) id

abbrev pub configure_calls : ℕ → List ConfigureCall
configure_calls ppid =
    recv
    ∷ getppid
    ∷ write_file ppid uid_map id_map
    ∷ write_file ppid setgroups_file allow_text
    ∷ write_file ppid gid_map id_map
    ∷ []
