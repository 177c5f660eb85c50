-- ===== src/File/Defaults.antt =====
-- What `default_open_flags` of src/neo/io/stream/file.hpp computes.
use neo_io.Prelude.{◌≡◌, refl, Bool, true, not, ◌&&◌, ◌||◌, if◌then◌else◌, xor}
use neo_io.File.{OpenMode, Checked, passed, assert_failed, default_open_flags}
use neo_io.File.Table.{all_modes, all_modes_sound, same_checked, same_checked→eq}

-- Flags that contradict one another: `trunc` with `no_trunc`, or `no_create` with one that creates.
abbrev pub conflicting : OpenMode → Bool
conflicting m = m.trunc && m.no_trunc || m.no_create && (m.create || m.create_exclusive)

-- No flag at all.
abbrev pub unset : OpenMode → Bool
unset m = not (
    m.read
    || (m.write
        || (m.append
            || (m.create || (m.create_exclusive || (m.no_create || (m.no_trunc || m.trunc)))))))

-- Whether the file is created, and whether it is truncated.
abbrev pub creates : OpenMode → Bool
creates m = m.create || m.create_exclusive || (m.write || m.append) && not m.no_create

abbrev pub truncates : OpenMode → Bool
truncates m = m.trunc || m.write && not m.append && not m.no_trunc

-- The flags that the documentation of `open_mode` promises.
abbrev pub completed : OpenMode → OpenMode
completed m = record {
  read = m.read || m.append || unset m;
  write = m.write || m.append;
  append = m.append;
  create = creates m;
  create_exclusive = m.create_exclusive;
  no_create = not (creates m);
  no_trunc = not (truncates m);
  trunc = truncates m;
}

-- `default_open_flags` fails its assertions exactly on contradicting flags. On all others it returns
-- the completed set: no flag implies reading, `append` implies reading and writing, writing creates
-- unless told otherwise and truncates unless it appends or is told otherwise, and the flags of each
-- opposite pair come out as opposites.
pub default_open_flags_lem :
    (m : OpenMode)
    → default_open_flags m ≡ (if conflicting m then assert_failed else passed (completed m))
unfolding default_open_flags all_modes same_checked xor
default_open_flags_lem m = same_checked→eq _ _ (
    all_modes_sound
      (λ n.
        same_checked (default_open_flags n)
          (if conflicting n then assert_failed else passed (completed n)))
      refl m)

again : Checked OpenMode → Bool
again (passed n) = same_checked (default_open_flags n) (passed n)
again assert_failed = true

again_all : (m : OpenMode) → again (default_open_flags m) ≡ true
unfolding default_open_flags all_modes same_checked xor again
again_all m = all_modes_sound (λ n. again (default_open_flags n)) refl m

-- Completed flags are complete: filling out the defaults a second time changes nothing.
pub default_open_flags_idem :
    (m n : OpenMode) → default_open_flags m ≡ passed n → default_open_flags n ≡ passed n
unfolding again
default_open_flags_idem m n h = same_checked→eq _ _ (rw h at (again_all m))
