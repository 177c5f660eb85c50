-- ===== src/Tests/System.antt =====
-- The file flags, the streams over handles and the vectored transfers at concrete inputs.
use neo_io.Prelude.{
  ℕ, ◌+◌, ◌≡◌, refl, true, false, none, some, List, [], ◌∷◌, arith, length, passed, assert_failed,
  ◌==◌, if◌then◌else◌,
}
use neo_io.Transfer.{no_error, system_category, native_transfer_result}
use neo_io.File.{OpenMode, default_open_flags}
use neo_io.File.Defaults.{completed, default_open_flags_lem}
use neo_io.File.Posix.{SysOpen, posix_flags, open_file, minus_one}
use neo_io.File.Posix.Flags.{open_file_lem}
use neo_io.File.Windows.{request, FileCalls, open_windows}
use neo_io.File.Windows.Requests.{request_of_posix, request-posix_flags, open_windows_lem}
use neo_io.Native.{Base, posix_invalid, Streams, Op, make, resets, moves, releases, closes, run}
use neo_io.Native.Ownership.{held, adopted_all, held-run}

abbrev no_flags : OpenMode
no_flags = record {
  read = false;
  write = false;
  append = false;
  create = false;
  create_exclusive = false;
  no_create = false;
  no_trunc = false;
  trunc = false;
}

abbrev appending : OpenMode
appending = record no_flags { append = true }

abbrev contradicting : OpenMode
contradicting = record no_flags { write = true; trunc = true; no_trunc = true }

default_open_flags_lem_example : default_open_flags contradicting ≡ assert_failed
default_open_flags_lem_example = default_open_flags_lem contradicting

-- A system that refuses every path but the one of three characters, and logs each descriptor.
abbrev toy_open : SysOpen (List ℕ)
toy_open path flags mode w = if length path == 3 then (5, 0, 5 ∷ w) else (minus_one, 2, w)

open_file_lem_example :
    open_file toy_open (1 ∷ []) appending no_error []
    ≡ passed (none, record { value = 2; category = system_category }, [])
open_file_lem_example = open_file_lem toy_open (1 ∷ []) appending no_error []

request-posix_flags_example :
    request (completed appending) ≡ request_of_posix (posix_flags (completed appending))
request-posix_flags_example = request-posix_flags (completed appending) refl

-- Windows calls that succeed; the system is the position in the file.
abbrev toy_calls : FileCalls ℕ
toy_calls = record { create_file = λ path r w. (length path, 0, 0); seek_end = λ h w. (0, 100) }

open_windows_lem_example :
    open_windows toy_calls (1 ∷ []) appending no_error 0 ≡ passed (some 1, no_error, 100)
open_windows_lem_example = open_windows_lem toy_calls (1 ∷ []) appending no_error 0

-- A system that logs what it closes.
abbrev logging : Base (List ℕ)
logging = record { invalid = posix_invalid; sys_close = λ h w. h ∷ w }

abbrev program : List Op
program = make ∷ resets 0 3 ∷ moves 0 0 ∷ make ∷ moves 0 1 ∷ releases 0 ∷ closes 1 ∷ []

abbrev nothing_yet : Streams (List ℕ)
nothing_yet = record { slots = []; released = []; system = [] }

held-run_example :
    held logging (λ w. w) (λ h w. refl) 3 (λ z. omega arith) (run logging program nothing_yet)
    ≡ held logging (λ w. w) (λ h w. refl) 3 (λ z. omega arith) nothing_yet
      + adopted_all logging (λ w. w) (λ h w. refl) 3 (λ z. omega arith) program nothing_yet
held-run_example = held-run logging (λ w. w) (λ h w. refl) 3 (λ z. omega arith) program nothing_yet
