-- ===== src/File/Posix/Flags.antt =====
-- What src/neo/io/stream/file.nix.cpp asks of the system for each set of `open_mode` flags.
use neo_io.Prelude.{
  ℕ, ◌≡◌, ◌≢◌, true, false, ◌||◌, if◌then◌else◌, Option, none, some, List, ◌==◌, arith, Bool-cases,
  inl, inr,
}
use neo_io.Transfer.{ErrorCode, system_category, returned, thrown, no_error}
use neo_io.File.{OpenMode, passed, assert_failed}
use neo_io.File.Defaults.{default_open_flags_lem, conflicting, creates, truncates, completed}
use neo_io.File.Posix.{
  Access, rdonly, wronly, rdwr, OFlags, posix_flags, SysOpen, minus_one, open_file, open_or_throw,
}

-- The access that a set of flags asks for; nothing to read or write is opened read-only.
abbrev pub access_of : OpenMode → Access
access_of m = if m.write || m.append then (if m.read || m.append then rdwr else wronly) else rdonly

-- What the flags ask of the system.
abbrev requested : OpenMode → OFlags
requested m = record {
  access = access_of m;
  append = m.append;
  trunc = truncates m;
  creat = creates m;
  excl = m.create_exclusive;
  cloexec = true;
}

-- What the system gets: the requested flags without O_APPEND.
abbrev pub passed_on : OpenMode → OFlags
passed_on m = record (requested m) { append = false }

posix_flags-completed : (m : OpenMode) → posix_flags (completed m) ≡ passed_on m
unfolding posix_flags
posix_flags-completed m = ground arith

-- What becomes of the system's answer.
abbrev pub answer : {W : Type 0} → ErrorCode → ℕ × ℕ × W → Option ℕ × ErrorCode × W
answer ec (fd, errno, w) =
    if fd == minus_one
    then (none, record { value = errno; category = system_category }, w)
    else (some fd, ec, w)

module _ {W : Type 0} (sys_open : SysOpen W) where
  -- `open` fails an assertion exactly on contradicting flags, and then has not called the system.
  -- On all others it calls the system once, with mode 0664 and the flags that are asked for but
  -- without O_APPEND, also if `append` asks for it. It gives the descriptor with the caller's error
  -- code as it was, or no stream and the system's error.
  pub open_file_lem :
      (fpath : List ℕ) (m : OpenMode) (ec : ErrorCode) (w : W)
      → open_file sys_open fpath m ec w ≡ (
          if conflicting m
          then assert_failed
          else passed (answer ec (sys_open fpath (passed_on m) 0o664 w)))
  unfolding open_file
  open_file_lem fpath m ec w = elim (Bool-cases (conflicting m)) [
    | inl e ↦ rw (default_open_flags_lem m, e)
    | inr e ↦ rw (default_open_flags_lem m, e, posix_flags-completed m)
  ]

  -- The throwing constructor never goes on without a stream: on flags that do not contradict it
  -- returns with the system's descriptor, or throws the system's error, provided the system sets
  -- `errno` when it refuses.
  pub open_or_throw-total :
      (fpath : List ℕ) (m : OpenMode) (w : W)
      → conflicting m ≡ false
      → ((sys_open fpath (passed_on m) 0o664 w).0 ≡ minus_one
          → (sys_open fpath (passed_on m) 0o664 w).1 ≢ 0)
      → let (fd, errno, w') = sys_open fpath (passed_on m) 0o664 w in
        open_or_throw sys_open fpath m w
        ≡ passed (
            if fd == minus_one
            then (thrown (record { value = errno; category = system_category }), w')
            else (returned (some fd), w'))
  unfolding open_or_throw
  open_or_throw-total fpath m w e nz = rw (open_file_lem fpath m no_error w, e) (ground arith)
