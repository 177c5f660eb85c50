-- ===== src/File/Posix.antt =====
-- src/neo/io/stream/file.nix.cpp: the flags that `file_stream::open` hands to POSIX `open`, and the
-- call. The system call is a parameter, and so is what holds the file system and the descriptors.
pub mod Flags
use neo_io.Prelude.{
  ℕ, Bool, true, false, ◌&&◌, ◌==◌, if◌then◌else◌, Option, none, some, List, int_mod, ◌-◌,
}
use neo_io.Transfer.{ErrorCode, system_category, Outcome, returned, thrown, is_error, no_error}
use neo_io.File.{OpenMode, Checked, passed, assert_failed, default_open_flags}

-- The access modes, of which O_RDONLY is 0.
pub data Access : Type 0 where
  rdonly wronly rdwr : Access

-- The `int open_mode` of the call, by the access mode and the O_ flags that are set in it.
pub record OFlags : Type 0 where
  pub access : Access
  pub append : Bool
  pub trunc : Bool
  pub creat : Bool
  pub excl : Bool
  pub cloexec : Bool

-- `int open_mode = 0`, and the assignment of an access mode, which replaces all flags.
abbrev pub only : Access → OFlags
only a = record {
  access = a;
  append = false;
  trunc = false;
  creat = false;
  excl = false;
  cloexec = false;
}

-- The statements that build `open_mode`, in order.
pub set_append : OpenMode → OFlags → OFlags
set_append m o = if m.append then record o { append = true } else o

pub set_access : OpenMode → OFlags → OFlags
set_access m o =
    if m.read
    then (if m.write then only rdwr else only rdonly)
    else (if m.write then only wronly else o)

pub set_trunc : OpenMode → OFlags → OFlags
set_trunc m o = if m.trunc then record o { trunc = true } else o

pub set_create : OpenMode → OFlags → OFlags
set_create m o =
    if m.create_exclusive
    then record o { creat = true; excl = true }
    else if m.create
    then record o { creat = true }
    else o

unfoldable pub posix_flags : OpenMode → OFlags
unfolding set_append set_access set_trunc set_create
posix_flags m = record (set_create m (set_trunc m (set_access m (set_append m (only rdonly))))) {
  cloexec = true;
}

-- `::open(path, open_mode, file_mode)`: the descriptor, or -1 with `errno`, as bit patterns.
abbrev pub SysOpen : Type 0 → Type 0
SysOpen W = List ℕ → OFlags → ℕ → W → ℕ × ℕ × W

abbrev pub minus_one : ℕ
minus_one = int_mod - 1

abbrev pub file_mode : ℕ
file_mode = 0b110110100

module _ {W : Type 0} (sys_open : SysOpen W) where
  -- The call of the system, for completed flags.
  pub call_open : List ℕ → ErrorCode → W → Checked OpenMode → Checked (Option ℕ × ErrorCode × W)
  call_open fpath ec w assert_failed = assert_failed
  call_open fpath ec w (passed flags) =
      let (fd, errno, w') = sys_open fpath (posix_flags flags) file_mode w in
      passed (
        if fd == minus_one
        then (none, record { value = errno; category = system_category }, w')
        else (some fd, ec, w'))

  -- `file_stream::open(fpath, flags, ec)`: the descriptor that the new stream owns, the error code
  -- afterwards, and the world.
  unfoldable pub open_file : List ℕ → OpenMode → ErrorCode → W → Checked (Option ℕ × ErrorCode × W)
  unfolding call_open
  open_file fpath open_flags ec w = call_open fpath ec w (default_open_flags open_flags)

  -- The throwing constructor `file_stream(fpath, flags)`: `error_code_thrower` starts with no error
  -- and throws if one was stored.
  pub throw_stored : Checked (Option ℕ × ErrorCode × W) → Checked (Outcome (Option ℕ) × W)
  throw_stored assert_failed = assert_failed
  throw_stored (passed (fs, ec, w)) =
      passed (if is_error ec then (thrown ec, w) else (returned fs, w))

  pub open_or_throw : List ℕ → OpenMode → W → Checked (Outcome (Option ℕ) × W)
  unfolding throw_stored
  open_or_throw fpath flags w = throw_stored (open_file fpath flags no_error w)
