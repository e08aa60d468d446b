-- ===== src/Entry/Commands/Total.antt =====
-- The commands of linux/entry.rs do not panic, but for a time limit that is no duration.
use Prim.Native.String.{String}
use sunwalker_box.Common.{
  ℕ, zero, suc, ◌+◌, ◌-◌, ◌≡◌, true, ◌&&◌, Option, none, some, List, [], ◌∷◌, ◌++◌, length, take,
  drop, ltb, ◌==◌, Bool-cases, inl, inr,
}
use sunwalker_box.Common.Exec.{Answer, unwrap}
use sunwalker_box.Common.Exec.Safe.{
  NotPanic, Safe, NotPanic-answered, Safe-pure, Safe-message, Safe-lift, Safe-if, Safe-if_cases,
  Safe-skip, Safe-bind,
}
use sunwalker_box.Controller.{ensure_allowed_to_modify}
use sunwalker_box.Rootfs.{components}
use sunwalker_box.Controller.Machine.{World, required}
use sunwalker_box.Entry.{ReadCount, read_loop, read_length, cat}
use sunwalker_box.Entry.Commands.{
  Json, DirEntry, list_entries, parse_argument, string_argument, cat_arguments, content_bytes,
  content_argument, strings, nonempty, argv_argument, stream_argument, time_argument,
  count_argument, env_entries, env_argument, run_options,
}

read_loop-NotPanic :
    (n_read : ReadCount) (file : List ℕ) (fuel at read_len ptr : ℕ) (buf : List ℕ)
    → NotPanic (read_loop n_read file fuel at read_len ptr buf)
unfolding read_loop
read_loop-NotPanic n_read file zero at read_len ptr buf = tt
read_loop-NotPanic n_read file (suc fuel) at read_len ptr buf =
    let n = n_read (at + ptr) (read_len - ptr) in
    let later =
      read_loop-NotPanic n_read file fuel at read_len (ptr + n)
        (buf ++ take n (drop (at + ptr) file)) in
    elim (Bool-cases (ltb ptr read_len)) [
      | inl more ↦ rw more (elim (Bool-cases (n == 0)) [ inl z ↦ rw z tt | inr z ↦ rw z later ])
      | inr done ↦ rw done tt
    ]

pub cat-NotPanic :
    (n_read : ReadCount) (file special : List ℕ) (at len : ℕ)
    → NotPanic (cat n_read file special at len)
unfolding cat
cat-NotPanic n_read file special at len =
    elim (Bool-cases (length file == 0 && (len == 0 && at == 0))) [
      | inl e ↦ rw e tt
      | inr e ↦ rw e (elim (Bool-cases (ltb (length file) at)) [
        | inl after ↦ rw after tt
        | inr inside ↦ rw inside (
            read_loop-NotPanic n_read file (suc (read_length n_read file at len)) at
              (read_length n_read file at len) 0 [])
      ])
    ]

pub ensure-NotPanic : (path : List ℕ) → NotPanic (ensure_allowed_to_modify path)
unfolding ensure_allowed_to_modify
ensure-NotPanic path = elim (Bool-cases (length (components path) == 3)) [
  | inl e ↦ rw e tt
  | inr e ↦ rw e tt
]

-- What is documented of JSON strings, and that the numbers that stand for times are durations.
pub record IsLawful (json : Json) : Type 0 where
  pub string_taken :
      (v : json.Value) → json.is_string v ≡ true → (s : List ℕ) × (json.take_string v ≡ some s)
  pub durations : (f : json.F64) → (t : ℕ) × (json.from_secs_f64 f ≡ some t)

pub req :
    {P : World → Type 0} {A : Type 0} (text : String) (o : Option A) → Safe P (required text o)
unfolding required
req text (some a) = Safe-pure a
req text none = Safe-message text

pub list_entries-Safe :
    {P : World → Type 0} (entries : List (Answer DirEntry)) → Safe P (list_entries entries)
unfolding list_entries
list_entries-Safe [] = Safe-pure []
list_entries-Safe (entry ∷ entries) = Safe-bind _ _ (Safe-lift _ (NotPanic-answered entry)) λ found.
    Safe-bind _ _ (req _ found.file_name) λ name.
      Safe-bind _ _ (Safe-lift _ (NotPanic-answered found.metadata))
        λ metadata. Safe-bind _ _ (list_entries-Safe entries) λ rest. Safe-pure _

module _ {P : World → Type 0} (json : Json) where
  pub parse-Safe : (arg : List ℕ) → Safe P (parse_argument json arg)
  unfolding parse_argument
  parse-Safe arg = req _ (json.parse arg)

  pub string-Safe : (text : String) (v : json.Value) → Safe P (string_argument json text v)
  unfolding string_argument
  string-Safe text v = req text (json.take_string v)

  content_bytes-Safe : (vs : List json.Value) → Safe P (content_bytes json vs)
  unfolding content_bytes
  content_bytes-Safe [] = Safe-pure []
  content_bytes-Safe (v ∷ vs) =
      Safe-bind _ _ (req _ (json.as_u8 v))
        λ byte. Safe-bind _ _ (content_bytes-Safe vs) λ rest. Safe-pure _

  pub content-Safe : (v : json.Value) → Safe P (content_argument json v)
  unfolding content_argument
  content-Safe v = Safe-if _ _ _ (content_bytes-Safe (json.members v)) (Safe-message _)

  strings-Safe : (text : String) (vs : List json.Value) → Safe P (strings json text vs)
  unfolding strings
  strings-Safe text [] = Safe-pure []
  strings-Safe text (v ∷ vs) =
      Safe-bind _ _ (string-Safe text v)
        λ s. Safe-bind _ _ (strings-Safe text vs) λ rest. Safe-pure _

  nonempty-Safe : {A : Type 0} (xs : List A) → Safe P (nonempty xs)
  nonempty-Safe [] = Safe-message _
  nonempty-Safe (x ∷ xs) = Safe-skip

  argv-Safe : (v : json.Value) → Safe P (argv_argument json v)
  unfolding argv_argument
  argv-Safe v =
      Safe-if _ _ _
        (Safe-bind _ _ (strings-Safe _ (json.members v))
          λ argv. Safe-bind _ _ (nonempty-Safe argv) λ _. Safe-pure argv)
        (Safe-message _)

  stream-Safe : (text : String) (v : json.Value) → Safe P (stream_argument json text v)
  unfolding stream_argument
  stream-Safe text v = Safe-if _ _ _ (Safe-pure _) (string-Safe text v)

  count-Safe : (text : String) (v : json.Value) → Safe P (count_argument json text v)
  unfolding count_argument
  count-Safe text v =
      Safe-if _ _ _ (Safe-pure _) (Safe-bind _ _ (req text (json.as_usize v)) (λ n. Safe-pure _))

  env_entries-Safe : (vs : List (List ℕ × json.Value)) → Safe P (env_entries json vs)
  unfolding env_entries
  env_entries-Safe [] = Safe-pure []
  env_entries-Safe ((key, v) ∷ vs) =
      Safe-bind _ _ (string-Safe _ v) λ s. Safe-bind _ _ (env_entries-Safe vs) λ rest. Safe-pure _

  env-Safe : (v : json.Value) → Safe P (env_argument json v)
  unfolding env_argument
  env-Safe v =
      Safe-if _ _ _ (Safe-pure _)
        (Safe-bind _ _ (env_entries-Safe (json.entries v)) (λ env. Safe-pure _))

  module _ (lawful : IsLawful json) where
    unwrap-Safe : {A : Type 0} (o : Option A) (a : A) → o ≡ some a → Safe P (unwrap o)
    unfolding unwrap
    unwrap-Safe o a e = rw e (Safe-pure a)

    time-Safe : (text : String) (v : json.Value) → Safe P (time_argument json text v)
    unfolding time_argument
    time-Safe text v = Safe-if _ _ _ (Safe-pure _) (
        Safe-bind _ _ (req text (json.as_f64 v)) λ f.
          Safe-bind _ _ (unwrap-Safe _ (lawful.durations f).0 (lawful.durations f).1)
            (λ t. Safe-pure _))

    pub cat_arguments-Safe : (arg : json.Value) → Safe P (cat_arguments json arg)
    unfolding cat_arguments
    cat_arguments-Safe arg =
        Safe-if_cases _ _ _
          (λ e. Safe-bind _ _ (unwrap-Safe _ _ (lawful.string_taken arg e).1) (λ path. Safe-pure _))
          (λ _.
            Safe-bind _ _ (string-Safe _ _)
              λ path. Safe-bind _ _ (req _ _) λ at. Safe-bind _ _ (req _ _) λ len. Safe-pure _)

    pub options-Safe : (arg : json.Value) → Safe P (run_options json arg)
    unfolding run_options
    options-Safe arg = Safe-bind _ _ (argv-Safe _) λ argv. Safe-bind _ _ (stream-Safe _ _) λ stdin.
        Safe-bind _ _ (stream-Safe _ _) λ stdout. Safe-bind _ _ (stream-Safe _ _) λ stderr.
          Safe-bind _ _ (time-Safe _ _) λ real. Safe-bind _ _ (time-Safe _ _) λ cpu.
            Safe-bind _ _ (time-Safe _ _) λ idleness. Safe-bind _ _ (count-Safe _ _) λ memory.
              Safe-bind _ _ (count-Safe _ _)
                λ processes. Safe-bind _ _ (env-Safe _) λ env. Safe-pure _
