-- ===== src/Entry.antt =====
-- linux/entry.rs: the command `cat`, which reads a part of a file of the box. How much a read returns
-- is a parameter; the file does not change meanwhile.
pub mod Cat
pub mod Commands
pub mod Serve
use sunwalker_box.Common.{
  ℕ, zero, suc, ◌+◌, ◌-◌, Bool, true, false, ◌&&◌, List, [], ◌∷◌, ◌++◌, length, take, drop, min,
  ltb, ◌==◌, if◌then◌else◌,
}
use sunwalker_box.Common.Exec.{Result, ok, err, message, unfinished}

-- The number of bytes that a read at a position returns, of those wanted.
abbrev pub ReadCount : Type 0
ReadCount = ℕ → ℕ → ℕ

module _ (n_read : ReadCount) (file : List ℕ) where
  -- The loop `while ptr < read_len`, with what it has read.
  unfoldable pub read_loop : ℕ → ℕ → ℕ → ℕ → List ℕ → Result (List ℕ)
  read_loop zero at read_len ptr buf = err unfinished
  read_loop (suc fuel) at read_len ptr buf =
      let n = n_read (at + ptr) (read_len - ptr) in
      let rest = read_loop fuel at read_len (ptr + n) (buf ++ take n (drop (at + ptr) file)) in
      if ltb ptr read_len then (if n == 0 then ok buf else rest) else ok buf

  abbrev pub read_length : ℕ → ℕ → ℕ
  read_length at len = if len == 0 then length file - at else min (length file - at) len

  -- `special` is what `read_to_end` finds in a file that says that it is empty.
  unfoldable pub cat : List ℕ → ℕ → ℕ → Result (List ℕ)
  unfolding read_loop
  cat special at len =
      if length file == 0 && (len == 0 && at == 0)
      then ok special
      else if ltb (length file) at
      then err (message "Offset after end of file")
      else read_loop (suc (read_length at len)) at (read_length at len) 0 []
