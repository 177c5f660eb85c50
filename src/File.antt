-- ===== src/File.antt =====
-- src/neo/io/stream/file.hpp and src/neo/io/stream/file.nix.cpp: the flags of `open_mode`, their
-- defaults, and how a POSIX `open` is called with them.
pub mod Table
pub mod Defaults
pub mod Posix
pub mod Windows
pub mod Stream
pub use neo_io.Prelude.{Checked, passed, assert_failed}
use neo_io.Prelude.{ℕ, ◌+◌, Bool, true, false, not, ◌&&◌, ◌||◌, ◌==◌, if◌then◌else◌, xor}

-- `open_mode`, an `int` of eight flags, by its flags.
pub record OpenMode : Type 0 where
  pub read : Bool
  pub write : Bool
  pub append : Bool
  pub create : Bool
  pub create_exclusive : Bool
  pub no_create : Bool
  pub no_trunc : Bool
  pub trunc : Bool

abbrev bit : Bool → ℕ → ℕ
bit b value = if b then value else 0

-- The `int` of a set of flags.
abbrev pub int_of : OpenMode → ℕ
int_of m =
    bit m.read 1
    + bit m.write 2
    + bit m.append 4
    + bit m.create 8
    + bit m.create_exclusive 16
    + bit m.no_create 32
    + bit m.no_trunc 64
    + bit m.trunc 128

-- The statements of `default_open_flags`, in order; each reads the flags that the one before left.
pub default_read : OpenMode → OpenMode
default_read m = if int_of m == 0 then record m { read = true } else m

pub append_implies : OpenMode → OpenMode
append_implies m = if m.append then record m { read = true; write = true } else m

pub exclusive_implies : OpenMode → OpenMode
exclusive_implies m = if m.create_exclusive then record m { create = true } else m

pub write_creates : OpenMode → OpenMode
write_creates m = if m.write && not m.no_create then record m { create = true } else m

pub write_truncates : OpenMode → OpenMode
write_truncates m =
    if m.write && (not m.append && not m.no_trunc) then record m { trunc = true } else m

pub else_no_create : OpenMode → OpenMode
else_no_create m = if m.create then m else record m { no_create = true }

pub else_no_trunc : OpenMode → OpenMode
else_no_trunc m = if m.trunc then m else record m { no_trunc = true }

pub default_open_flags : OpenMode → Checked OpenMode
unfolding default_read append_implies exclusive_implies write_creates write_truncates else_no_create
    else_no_trunc
default_open_flags m =
    let m' = else_no_trunc (
      else_no_create
        (write_truncates (write_creates (exclusive_implies (append_implies (default_read m)))))) in
    if xor m'.trunc m'.no_trunc
    then (if xor m'.create m'.no_create then passed m' else assert_failed)
    else assert_failed
