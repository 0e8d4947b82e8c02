-- ===== src/LogFile/Tests.antt =====
-- The rotation of the log files at concrete sizes.
use jun_core_v.Common.{ℕ, ◌≡◌, refl, true, ◌==◌, if◌then◌else◌, Option, none, some}
use jun_core_v.LogFile.{LogFile, Opened, opened, open_new_log_file, write_to_file}

-- Only the file without a number is there, and it has room for 10 bytes.
abbrev nearly_full : LogFile
nearly_full = record {
  files = λ s. if s == 0 then some 10485750 else none;
  log_file = some 0;
  current_file_size = 10485750;
}

first_size : Opened → Option ℕ
first_size (opened f) = f.files 0
first_size _ = none

number_of : Opened → Option ℕ
number_of (opened f) = f.log_file
number_of _ = none

fits : first_size (write_to_file (λ s. true) 5 10 nearly_full) ≡ some 10485760
unfolding write_to_file first_size
fits = refl

-- The file has space left, so the rotation opens it again.
reopened : number_of (write_to_file (λ s. true) 5 11 nearly_full) ≡ some 0
unfolding write_to_file open_new_log_file number_of
reopened = refl
