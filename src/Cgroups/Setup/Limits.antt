-- ===== src/Cgroups/Setup/Limits.antt =====
-- The limits that linux/cgroups.rs writes and the peak that it reads.
use Prim.Native.String.{String}
use sunwalker_box.Common.{
  ℕ, ◌^◌, ◌<◌, ◌≡◌, refl, ap, ◌∙◌, Option, none, some, List, [], ◌∷◌, ◌++◌, ◌==◌, if◌then◌else◌,
  Bool-cases, inl, inr,
}
use sunwalker_box.Common.Exec.{Result, ok, err, io, answer, fail, pure, lift, ◌>>=◌}
use sunwalker_box.Cgroups.{parse_number}
use sunwalker_box.Cgroups.Numbers.{show_number, IsPlain, show_number-IsPlain, parse-show_number}
use sunwalker_box.Cgroups.Removal.{
  Directory, open_file, write_text, CgroupHistory, CgroupFs, ask, enoent,
}
use sunwalker_box.Cgroups.Setup.{
  number_line, zero_line, one_line, trim_start, trim_end, read_peak, get_memory_peak,
}

trim_end_line : (w : List ℕ) → IsPlain w → trim_end (w ++ 10 ∷ []) ≡ w
unfolding trim_end
trim_end_line [] h = refl
trim_end_line (c ∷ []) (h, hs) = rw h refl
trim_end_line (c ∷ d ∷ ds) (h, hs) = rw (trim_end_line (d ∷ ds) hs) refl

trim_start_line : (w : List ℕ) → IsPlain w → trim_end (trim_start (w ++ 10 ∷ [])) ≡ w
unfolding trim_start trim_end
trim_start_line [] h = refl
trim_start_line (c ∷ cs) (h, hs) = rw h (trim_end_line (c ∷ cs) (h, hs))

-- A number and a newline are read as the number.
pub parse-number_line :
    (n : ℕ) → n < 2 ^ 64 → parse_number (trim_end (trim_start (number_line n))) ≡ some n
parse-number_line n h =
    ap parse_number (trim_start_line (show_number n) (show_number-IsPlain n))
    ∙ parse-show_number n h

-- The file is there; or it is not, as on an older kernel; or it cannot be opened.
abbrev pub peak_for : Option ℕ → ℕ → Result (Option ℕ)
peak_for none n = ok (some n)
peak_for (some e) n = if e == enoent then ok none else err (io e)

module _ (fs : CgroupFs) (dir : Directory) where
  -- Where the kernel shows a peak of less than 2^64 bytes, it is read off; where the file is missing
  -- there is no peak, and any other failure to open it is passed on.
  pub get_memory_peak-number_line :
      (n : ℕ) (h : CgroupHistory)
      → n < 2 ^ 64
      → ((h : CgroupHistory) → fs.text_reply h dir "memory.peak" ≡ answer (number_line n))
      → (get_memory_peak fs dir h).0 ≡ peak_for (fs.open_reply h dir "memory.peak") n
  unfolding get_memory_peak ask ◌>>=◌ pure fail lift
  get_memory_peak-number_line n h small shown = opened (fs.open_reply h dir "memory.peak")
    where
      opened :
          (o : Option ℕ) → (read_peak fs dir o (open_file dir "memory.peak" ∷ h)).0 ≡ peak_for o n
      opened none = rw (shown _) (rw (parse-number_line n small) refl)
      opened (some e) = elim (Bool-cases (e == enoent)) [ inl z ↦ rw z refl | inr z ↦ rw z refl ]

-- The three writes of a memory limit, the latest first.
abbrev pub limit_calls : Directory → List ℕ → CgroupHistory → CgroupHistory
limit_calls dir t h =
    write_text dir "memory.oom.group" one_line
    ∷ open_file dir "memory.oom.group"
    ∷ write_text dir "memory.swap.max" zero_line
    ∷ open_file dir "memory.swap.max"
    ∷ write_text dir "memory.max" t
    ∷ open_file dir "memory.max"
    ∷ h
