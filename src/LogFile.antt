-- ===== src/LogFile.antt =====
-- The files of JunCore/log.cpp: `WriteToFile` and `OpenNewLogFile`, while the name that
-- `GenerateLogFileName` makes of the process and the second stays the same.
pub mod Sizes
mod Tests
use jun_core_v.Common.{
  ℕ, zero, suc, ◌+◌, ◌*◌, ◌==◌, Bool, true, false, ltb, if◌then◌else◌, Option, none, some,
}

abbrev pub max_file_size : ℕ
max_file_size = 10 * 1024 * 1024

-- `files` gives the size of the file of a sequence number, if it exists; number 0 has the name without
-- one. `log_file` is the number of the open file.
pub record LogFile : Type 0 where
  pub files : ℕ → Option ℕ
  pub log_file : Option ℕ
  pub current_file_size : ℕ

-- How `OpenNewLogFile` ends: with a file, with the exception of `file_size` for a file that does not
-- exist, or, in the model, without fuel.
pub data Opened : Type 0 where
  opened : LogFile → Opened
  threw out_of_fuel : Opened

abbrev pub set_file : ℕ → ℕ → LogFile → LogFile
set_file sequence size f = record f { files = λ s. if s == sequence then some size else f.files s }

-- The end of `OpenNewLogFile`, with the file of this number open.
abbrev pub after_loop : ℕ → LogFile → Opened
after_loop sequence f =
    if sequence == 2
    then opened (record f { log_file = some sequence; current_file_size = 0 })
    else opened (record f { log_file = some sequence })

-- The loop over the numbers; `can_open` says whether `fopen_s` succeeds.
unfoldable pub find_sequence : (ℕ → Bool) → ℕ → ℕ → LogFile → Opened
find_sequence can_open zero sequence f = out_of_fuel
find_sequence can_open (suc fuel) sequence f =
    let rest = find_sequence can_open fuel (sequence + 1) f in
    elim (f.files sequence) [
      | none ↦ if can_open sequence then after_loop sequence (set_file sequence 0 f) else threw
      | some size ↦
          if ltb size max_file_size
          then (if can_open sequence
              then after_loop sequence (record f { current_file_size = size })
              else rest)
          else rest
    ]

-- `OpenNewLogFile`.
unfoldable pub open_new_log_file : (ℕ → Bool) → ℕ → LogFile → Opened
unfolding find_sequence
open_new_log_file can_open fuel f =
    let search = find_sequence can_open fuel 2 f in
    elim (f.files 0) [
      | none ↦ search
      | some size ↦
          if ltb size max_file_size
          then (if can_open 0
              then opened (record f { log_file = some 0; current_file_size = size })
              else search)
          else search
    ]

-- `fwrite` of so many bytes, and the count.
abbrev pub append_text : ℕ → LogFile → LogFile
append_text length f = elim f.log_file [
  | none ↦ f
  | some sequence ↦ elim (f.files sequence) [
    | none ↦ f
    | some size ↦ record (set_file sequence (size + length) f) {
      current_file_size = f.current_file_size + length;
    }
  ]
]

abbrev pub then_append : ℕ → Opened → Opened
then_append length (opened f) = opened (append_text length f)
then_append length threw = threw
then_append length out_of_fuel = out_of_fuel

-- `WriteToFile` of a text of this length.
unfoldable pub write_to_file : (ℕ → Bool) → ℕ → ℕ → LogFile → Opened
unfolding open_new_log_file
write_to_file can_open fuel length f = elim f.log_file [
  | none ↦ opened f
  | some sequence ↦
      if ltb max_file_size (f.current_file_size + length)
      then then_append length (open_new_log_file can_open fuel (record f { log_file = none }))
      else opened (append_text length f)
]
