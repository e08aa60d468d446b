-- ===== src/Cgroups.antt =====
-- linux/cgroups.rs: the statistics of a box's cgroup, and how a cgroup is removed. A file is given by
-- its lines, each a list of bytes.
pub mod Numbers
pub mod Statistics
pub mod Removal
pub mod Owned
pub mod Setup
use sunwalker_box.Common.{
  ℕ, zero, suc, ◌+◌, ◌-◌, ◌*◌, ◌/◌, ◌%◌, ◌^◌, Bool, true, false, ◌&&◌, ◌||◌, Option, none, some,
  List, [], ◌∷◌, ◌++◌, ltb, leb, ◌==◌, if◌then◌else◌,
}
use sunwalker_box.Common.Exec.{Result, ok, err, message, and_then}
use sunwalker_box.Rootfs.Mounts.{starts_with}

-- `u8::is_ascii_whitespace`.
abbrev pub is_whitespace : ℕ → Bool
is_whitespace c = c == 32 || (c == 9 || (c == 10 || (c == 12 || c == 13)))

abbrev pub extend_word : ℕ → List (List ℕ) → List (List ℕ)
extend_word c [] = (c ∷ []) ∷ []
extend_word c (w ∷ ws) = (c ∷ w) ∷ ws

unfoldable pub split_whitespace : List ℕ → List (List ℕ)
split_whitespace [] = [] ∷ []
split_whitespace (c ∷ cs) =
    let rest = split_whitespace cs in if is_whitespace c then [] ∷ rest else extend_word c rest

unfoldable pub nonempty_words : List (List ℕ) → List (List ℕ)
nonempty_words [] = []
nonempty_words ([] ∷ ws) = nonempty_words ws
nonempty_words ((c ∷ cs) ∷ ws) = (c ∷ cs) ∷ nonempty_words ws

-- `line.split_ascii_whitespace()`.
unfoldable pub split_ascii_whitespace : List ℕ → List (List ℕ)
unfolding split_whitespace nonempty_words
split_ascii_whitespace line = nonempty_words (split_whitespace line)

abbrev pub is_digit : ℕ → Bool
is_digit c = leb 48 c && leb c 57

-- `u64::from_str` and `usize::from_str`: decimal, with a plus sign or none, and no overflow.
unfoldable pub parse_digits : ℕ → List ℕ → Option ℕ
parse_digits n [] = some n
parse_digits n (c ∷ cs) =
    let rest = parse_digits (n * 10 + (c - 48)) cs in
    if is_digit c then (if ltb (n * 10 + (c - 48)) (2 ^ 64) then rest else none) else none

abbrev pub parse_unsigned : List ℕ → Option ℕ
parse_unsigned [] = none
parse_unsigned (c ∷ cs) = parse_digits 0 (c ∷ cs)

unfoldable pub parse_number : List ℕ → Option ℕ
unfolding parse_digits
parse_number [] = none
parse_number (c ∷ cs) = if c == 43 then parse_unsigned cs else parse_unsigned (c ∷ cs)

abbrev pub invalid_format : {A : Type 0} → Result A
invalid_format = err (message "Invalid format")

abbrev number_of : Option ℕ → Result ℕ
number_of none = invalid_format
number_of (some n) = ok n

abbrev second_word : List (List ℕ) → Result (List ℕ)
second_word (_ ∷ w ∷ _) = ok w
second_word _ = invalid_format

-- The number that is the second word of a line.
unfoldable pub parse_line : List ℕ → Result ℕ
unfolding split_ascii_whitespace parse_number
parse_line line =
    and_then (second_word (split_ascii_whitespace line)) λ w. number_of (parse_number w)

-- The keys, with the space that follows them.
abbrev pub user_usec : List ℕ
user_usec = 117 ∷ 115 ∷ 101 ∷ 114 ∷ 95 ∷ 117 ∷ 115 ∷ 101 ∷ 99 ∷ []

abbrev pub system_usec : List ℕ
system_usec = 115 ∷ 121 ∷ 115 ∷ 116 ∷ 101 ∷ 109 ∷ 95 ∷ 117 ∷ 115 ∷ 101 ∷ 99 ∷ []

abbrev pub anon : List ℕ
anon = 97 ∷ 110 ∷ 111 ∷ 110 ∷ []

abbrev pub sock : List ℕ
sock = 115 ∷ 111 ∷ 99 ∷ 107 ∷ []

abbrev pub shmem : List ℕ
shmem = 115 ∷ 104 ∷ 109 ∷ 101 ∷ 109 ∷ []

abbrev pub oom_kill : List ℕ
oom_kill = 111 ∷ 111 ∷ 109 ∷ 95 ∷ 107 ∷ 105 ∷ 108 ∷ 108 ∷ []

unfoldable pub has_key : List ℕ → List ℕ → Bool
unfolding starts_with
has_key line key = starts_with line (key ++ 32 ∷ [])

pub record CpuStats : Type 0 where
  pub user : ℕ
  pub system : ℕ
  pub total : ℕ

-- The loop over the lines of `cpu.stat`; times are nanoseconds.
unfoldable pub scan_cpu : List (List ℕ) → ℕ → ℕ → Result (ℕ × ℕ)
unfolding has_key parse_line
scan_cpu [] user system = ok (user, system)
scan_cpu (line ∷ lines) user system =
    let skipped = scan_cpu lines user system in
    let as_user : ℕ → Result (ℕ × ℕ) = λ n. scan_cpu lines (n * 1000) system in
    let as_system : ℕ → Result (ℕ × ℕ) = λ n. scan_cpu lines user (n * 1000) in
    if has_key line user_usec
    then and_then (parse_line line) as_user
    else if has_key line system_usec
    then and_then (parse_line line) as_system
    else skipped

unfoldable pub get_cpu_stats : List (List ℕ) → Result CpuStats
unfolding scan_cpu
get_cpu_stats lines =
    and_then (scan_cpu lines 0 0)
      λ (user, system). ok (record { user = user; system = system; total = user + system })

-- The loop over the lines of `memory.stat`. The sum wraps around, as in a release build.
unfoldable pub scan_memory : List (List ℕ) → ℕ → Result ℕ
unfolding has_key parse_line
scan_memory [] total = ok total
scan_memory (line ∷ lines) total =
    let skipped = scan_memory lines total in
    let added : ℕ → Result ℕ = λ n. scan_memory lines ((total + n) % 2 ^ 64) in
    if has_key line anon || (has_key line sock || has_key line shmem)
    then and_then (parse_line line) added
    else skipped

unfoldable pub get_memory_total : List (List ℕ) → Result ℕ
unfolding scan_memory
get_memory_total lines = scan_memory lines 0

unfoldable pub scan_oom : List (List ℕ) → Option ℕ → Result (Option ℕ)
unfolding has_key parse_line
scan_oom [] found = ok found
scan_oom (line ∷ lines) found =
    let skipped = scan_oom lines found in
    let taken : ℕ → Result (Option ℕ) = λ n. scan_oom lines (some n) in
    if has_key line oom_kill then and_then (parse_line line) taken else skipped

abbrev was_killed : Option ℕ → Result Bool
was_killed none = err (message "oom_kill is missing from memory.events")
was_killed (some n) = ok (ltb 0 n)

unfoldable pub was_oom_killed : List (List ℕ) → Result Bool
unfolding scan_oom
was_oom_killed lines = and_then (scan_oom lines none) was_killed
