-- ===== src/File/Windows/Requests.antt =====
-- What src/neo/io/stream/file.win.cpp asks of the system, next to src/neo/io/stream/file.nix.cpp.
use neo_io.Prelude.{
  ℕ, ◌≡◌, Bool, true, false, ◌||◌, ◌==◌, if◌then◌else◌, Option, none, some, List, arith, Bool-cases,
  inl, inr,
}
use neo_io.Transfer.{ErrorCode, system_category}
use neo_io.File.{OpenMode, Checked, passed, assert_failed}
use neo_io.File.Defaults.{conflicting, completed, unset, creates, truncates, default_open_flags_lem}
use neo_io.File.Posix.{Access, rdonly, wronly, rdwr, OFlags, posix_flags}
use neo_io.File.Windows.{
  Creation, create_new, create_always, open_always, truncate_existing, open_existing, Request,
  request, FileCalls, invalid_handle, open_windows,
}

-- The rights that an access mode of POSIX gives.
abbrev pub may_read : Access → Bool
may_read rdonly = true
may_read wronly = false
may_read rdwr = true

abbrev pub may_write : Access → Bool
may_write rdonly = false
may_write wronly = true
may_write rdwr = true

-- The documented meaning of O_CREAT, O_EXCL and O_TRUNC in the terms of Windows.
abbrev pub creation_of_posix : OFlags → Creation
creation_of_posix o =
    if o.creat
    then (if o.excl then create_new else (if o.trunc then create_always else open_always))
    else (if o.trunc then truncate_existing else open_existing)

abbrev pub request_of_posix : OFlags → Request
request_of_posix o = record {
  generic_write = may_write o.access;
  generic_read = may_read o.access;
  creation = creation_of_posix o;
}

-- For flags that read or write, the two platforms ask their system for the same rights and the same
-- treatment of an existing and of a missing file.
pub request-posix_flags :
    (m : OpenMode) → (m.read || m.write) ≡ true → request m ≡ request_of_posix (posix_flags m)
unfolding request posix_flags
request-posix_flags m h = ground arith

-- What a set of flags asks of Windows, in the terms of the documentation of `open_mode`.
abbrev pub wanted : OpenMode → Request
wanted m = record {
  generic_write = m.write || m.append;
  generic_read = m.read || m.append || unset m;
  creation =
      if m.create_exclusive
      then create_new
      else if creates m
      then (if truncates m then create_always else open_always)
      else (if truncates m then truncate_existing else open_existing);
}

request-completed : (m : OpenMode) → request (completed m) ≡ wanted m
unfolding request
request-completed m = ground arith

module _ {W : Type 0} (c : FileCalls W) where
  -- What becomes of the answer of `CreateFileW`.
  abbrev pub at_end : OpenMode → ErrorCode → ℕ × ℕ × W → Checked (Option ℕ × ErrorCode × W)
  at_end m ec (hndl, err, w) =
      let (seek_err, w') = c.seek_end hndl w in
      if hndl == invalid_handle
      then passed (none, record { value = err; category = system_category }, w)
      else if m.append
      then (if seek_err == 0 then passed (some hndl, ec, w') else assert_failed)
      else passed (some hndl, ec, w)

  -- On Windows `open` fails an assertion on contradicting flags, without a call. On all others it
  -- calls the system once with what the flags ask for, and gives no stream and the system's error,
  -- or the handle with the caller's error code as it was. With `append`, and only then, it moves a
  -- new handle to the end of the file, and fails an assertion if that does not succeed.
  pub open_windows_lem :
      (fpath : List ℕ) (m : OpenMode) (ec : ErrorCode) (w : W)
      → open_windows c fpath m ec w
        ≡ (if conflicting m then assert_failed else at_end m ec (c.create_file fpath (wanted m) w))
  unfolding open_windows
  open_windows_lem fpath m ec w = elim (Bool-cases (conflicting m)) [
    | inl e ↦ rw (default_open_flags_lem m, e)
    | inr e ↦ rw (default_open_flags_lem m, e, request-completed m)
  ]
