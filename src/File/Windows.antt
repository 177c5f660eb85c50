-- ===== src/File/Windows.antt =====
-- src/neo/io/stream/file.win.cpp: what `file_stream::open` hands to `CreateFileW`, and the call. The
-- system calls are parameters.
pub mod Requests
use neo_io.Prelude.{
  ℕ, Bool, true, false, ◌==◌, if◌then◌else◌, Option, none, some, List, size_mod, ◌-◌,
}
use neo_io.Transfer.{ErrorCode, system_category}
use neo_io.File.{OpenMode, Checked, passed, assert_failed, default_open_flags}

-- The `creation` argument.
pub data Creation : Type 0 where
  create_new create_always open_always truncate_existing open_existing : Creation

-- The arguments that depend on the flags: the two access rights, and `creation`.
pub record Request : Type 0 where
  pub generic_write : Bool
  pub generic_read : Bool
  pub creation : Creation

pub creation_of : OpenMode → Creation
creation_of m =
    if m.create_exclusive
    then create_new
    else if m.create
    then (if m.trunc then create_always else open_always)
    else (if m.trunc then truncate_existing else open_existing)

pub request : OpenMode → Request
unfolding creation_of
request m = record { generic_write = m.write; generic_read = m.read; creation = creation_of m }

-- The calls, each with what `GetLastError` gives after it. `seek_end` is `SetFilePointer` to the end.
pub record FileCalls (W : Type 0) : Type 0 where
  pub create_file : List ℕ → Request → W → ℕ × ℕ × W
  pub seek_end : ℕ → W → ℕ × W

-- INVALID_HANDLE_VALUE.
abbrev pub invalid_handle : ℕ
invalid_handle = size_mod - 1

module _ {W : Type 0} (c : FileCalls W) where
  -- What follows a successful call: the move to the end if `append` is set.
  pub seek_if_append : OpenMode → ℕ → ErrorCode → W → Checked (Option ℕ × ErrorCode × W)
  seek_if_append flags hndl ec w =
      let (err, w') = c.seek_end hndl w in
      if flags.append
      then (if err == 0 then passed (some hndl, ec, w') else assert_failed)
      else passed (some hndl, ec, w)

  pub create_and_seek :
      List ℕ → ErrorCode → W → Checked OpenMode → Checked (Option ℕ × ErrorCode × W)
  unfolding request seek_if_append
  create_and_seek fpath ec w assert_failed = assert_failed
  create_and_seek fpath ec w (passed flags) =
      let (hndl, err, w') = c.create_file fpath (request flags) w in
      if hndl == invalid_handle
      then passed (none, record { value = err; category = system_category }, w')
      else seek_if_append flags hndl ec w'

  -- `file_stream::open(fpath, flags, ec)` on Windows.
  pub open_windows : List ℕ → OpenMode → ErrorCode → W → Checked (Option ℕ × ErrorCode × W)
  unfolding create_and_seek
  open_windows fpath open_flags ec w = create_and_seek fpath ec w (default_open_flags open_flags)
