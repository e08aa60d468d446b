-- ===== src/Cgroups/Statistics.antt =====
-- The statistics of linux/cgroups.rs on files that are written as the kernel writes them: lines of a
-- key and a number, in any order.
use sunwalker_box.Common.{
  ℕ, ◌+◌, ◌*◌, ◌%◌, ◌^◌, ◌<◌, ◌≡◌, refl, ap, ◌∙◌, Bool, true, false, not, ◌&&◌, ◌||◌, Option, none,
  some, List, [], ◌∷◌, ltb, if◌then◌else◌, arith, Bool-cases, inl, inr,
}
use sunwalker_box.Common.Exec.{ok}
use sunwalker_box.Rootfs.{eq_bytes}
use sunwalker_box.Cgroups.{
  is_whitespace, user_usec, system_usec, anon, sock, shmem, oom_kill, has_key, parse_line, scan_cpu,
  get_cpu_stats, scan_memory, get_memory_total, scan_oom, was_oom_killed,
}
use sunwalker_box.Cgroups.Numbers.{IsPlain, show_line, parse_line-show_line, has_key-show_line}

pub record Entry : Type 0 where
  pub first : ℕ
  pub others : List ℕ
  pub value : ℕ
  pub is_plain : IsPlain (first ∷ others)
  pub fits : value < 2 ^ 64

abbrev pub key : Entry → List ℕ
key e = e.first ∷ e.others

unfoldable pub show_entries : List Entry → List (List ℕ)
show_entries [] = []
show_entries (e ∷ es) = show_line (key e) e.value ∷ show_entries es

parse_entry : (e : Entry) → parse_line (show_line (key e) e.value) ≡ ok e.value
parse_entry e = parse_line-show_line e.first e.others e.value e.is_plain e.fits

entry_key :
    (e : Entry) (k : List ℕ)
    → IsPlain k
    → has_key (show_line (key e) e.value) k ≡ eq_bytes (key e) k
entry_key e k h = has_key-show_line (key e) k e.value e.is_plain h

abbrev all_plain : List ℕ → Bool
all_plain [] = true
all_plain (c ∷ cs) = not (is_whitespace c) && all_plain cs

all_plain_lem : (cs : List ℕ) → all_plain cs ≡ true → IsPlain cs
all_plain_lem [] h = tt
all_plain_lem (c ∷ cs) h = (ground arith, all_plain_lem cs (ground arith))

user_usec-IsPlain : IsPlain user_usec
user_usec-IsPlain = all_plain_lem user_usec refl

system_usec-IsPlain : IsPlain system_usec
system_usec-IsPlain = all_plain_lem system_usec refl

anon-IsPlain : IsPlain anon
anon-IsPlain = all_plain_lem anon refl

sock-IsPlain : IsPlain sock
sock-IsPlain = all_plain_lem sock refl

shmem-IsPlain : IsPlain shmem
shmem-IsPlain = all_plain_lem shmem refl

oom_kill-IsPlain : IsPlain oom_kill
oom_kill-IsPlain = all_plain_lem oom_kill refl

-- What is read: the last value under a key, or the sum of the values under three keys.
unfoldable pub last_value : List ℕ → List Entry → Option ℕ → Option ℕ
last_value k [] found = found
last_value k (e ∷ es) found = last_value k es (if eq_bytes (key e) k then some e.value else found)

abbrev pub counts_as_memory : Entry → Bool
counts_as_memory e = eq_bytes (key e) anon || (eq_bytes (key e) sock || eq_bytes (key e) shmem)

unfoldable pub memory_sum : List Entry → ℕ
memory_sum [] = 0
memory_sum (e ∷ es) =
    let rest = memory_sum es in if counts_as_memory e then e.value + rest else rest

scan_memory_lem :
    (es : List Entry) (total : ℕ)
    → total + memory_sum es < 2 ^ 64
    → scan_memory (show_entries es) total ≡ ok (total + memory_sum es)
unfolding scan_memory show_entries memory_sum
scan_memory_lem [] total h = ap ok (omega arith)
scan_memory_lem (e ∷ es) total h = rw (entry_key e anon anon-IsPlain) (
    rw (entry_key e sock sock-IsPlain) (
      rw (entry_key e shmem shmem-IsPlain) (elim (Bool-cases (counts_as_memory e)) [
        | inl c ↦
            let small : total + (e.value + memory_sum es) < 2 ^ 64 = ground arith in
            rw c (
              rw (parse_entry e) (
                scan_memory_lem es ((total + e.value) % 2 ^ 64) (omega arith)
                ∙ ap ok (omega arith)))
        | inr c ↦ rw c (scan_memory_lem es total (ground arith))
      ])))

-- The memory in use is the sum of the entries `anon`, `sock` and `shmem`, where that is a `usize`.
pub get_memory_total-show_entries :
    (es : List Entry)
    → memory_sum es < 2 ^ 64
    → get_memory_total (show_entries es) ≡ ok (memory_sum es)
unfolding get_memory_total
get_memory_total-show_entries es h = scan_memory_lem es 0 (omega arith) ∙ ap ok (omega arith)

scan_oom_lem :
    (es : List Entry) (found : Option ℕ)
    → scan_oom (show_entries es) found ≡ ok (last_value oom_kill es found)
unfolding scan_oom show_entries last_value
scan_oom_lem [] found = refl
scan_oom_lem (e ∷ es) found =
    rw (entry_key e oom_kill oom_kill-IsPlain) (elim (Bool-cases (eq_bytes (key e) oom_kill)) [
      | inl c ↦ rw c (rw (parse_entry e) (scan_oom_lem es (some e.value)))
      | inr c ↦ rw c (scan_oom_lem es found)
    ])

-- The box ran out of memory exactly when the counter `oom_kill` is positive.
pub was_oom_killed-show_entries :
    (es : List Entry) (n : ℕ)
    → last_value oom_kill es none ≡ some n
    → was_oom_killed (show_entries es) ≡ ok (ltb 0 n)
unfolding was_oom_killed
was_oom_killed-show_entries es n h = rw (scan_oom_lem es none) (rw h refl)

-- The last value under a key, in nanoseconds.
unfoldable pub last_micros : List ℕ → List Entry → ℕ → ℕ
last_micros k [] time = time
last_micros k (e ∷ es) time = last_micros k es (if eq_bytes (key e) k then e.value * 1000 else time)

not_both : (name : List ℕ) → eq_bytes name user_usec ≡ true → eq_bytes name system_usec ≡ false
unfolding eq_bytes
not_both [] h = refl
not_both (c ∷ cs) h = ground arith

scan_cpu_lem :
    (es : List Entry) (user system : ℕ)
    → scan_cpu (show_entries es) user system
      ≡ ok (last_micros user_usec es user, last_micros system_usec es system)
unfolding scan_cpu show_entries last_micros
scan_cpu_lem [] user system = refl
scan_cpu_lem (e ∷ es) user system = rw (entry_key e user_usec user_usec-IsPlain) (
    rw (entry_key e system_usec system_usec-IsPlain)
      (elim (Bool-cases (eq_bytes (key e) user_usec)) [
        | inl u ↦
            rw u (
              rw (not_both (key e) u)
                (rw (parse_entry e) (scan_cpu_lem es (e.value * 1000) system)))
        | inr u ↦ rw u (elim (Bool-cases (eq_bytes (key e) system_usec)) [
          | inl y ↦ rw y (rw (parse_entry e) (scan_cpu_lem es user (e.value * 1000)))
          | inr y ↦ rw y (scan_cpu_lem es user system)
        ])
      ]))

-- The CPU time is the user time and the system time, whatever other entries the file has.
pub get_cpu_stats-show_entries :
    (es : List Entry)
    → get_cpu_stats (show_entries es)
      ≡ ok (record {
        user = last_micros user_usec es 0;
        system = last_micros system_usec es 0;
        total = last_micros user_usec es 0 + last_micros system_usec es 0;
      })
unfolding get_cpu_stats
get_cpu_stats-show_entries es = rw (scan_cpu_lem es 0 0) refl
