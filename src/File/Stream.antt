-- ===== src/File/Stream.antt =====
-- The members of `file_stream` of src/neo/io/stream/file.hpp on a POSIX system. A file stream is the
-- native stream that it holds, which is a handle.
use neo_io.Prelude.{
  ℕ, ◌≡◌, ◌≢◌, refl, true, false, ap, inl, inr, Bool-cases, List, ◌==◌, if◌then◌else◌, arith,
  Checked, passed, assert_failed, ◌>>=◌, ◌∙◌, sym, ==_iff,
}
use neo_io.Transfer.{ErrorCode, system_category, no_error, Outcome}
use neo_io.Throwing.{Result, value, throws, undefined, undefined_throws, Throws, check_then_get}
use neo_io.Native.{Base, posix_invalid, default_stream, close, release, reset}
use neo_io.File.{OpenMode}
use neo_io.File.Defaults.{conflicting}
use neo_io.File.Posix.{SysOpen, open_file, minus_one}
use neo_io.File.Posix.Flags.{answer, passed_on, open_file_lem}

-- The base of the native stream.
abbrev pub posix_base : {W : Type 0} → (ℕ → W → W) → Base W
posix_base sys_close = record { invalid = posix_invalid; sys_close = sys_close }

-- `open_mode{}`, and `open_mode::read`.
abbrev pub no_flags : OpenMode
no_flags = record {
  read = false;
  write = false;
  append = false;
  create = false;
  create_exclusive = false;
  no_create = false;
  no_trunc = false;
  trunc = false;
}

abbrev pub only_read : OpenMode
only_read = record no_flags { read = true }

module _ {W : Type 0} (sys_close : ℕ → W → W) where
  -- The default constructor, and `close()`, which is the native stream's.
  abbrev pub no_file : ℕ
  no_file = default_stream (posix_base sys_close)

  unfoldable pub close_file : ℕ → W → ℕ × W
  unfolding close
  close_file this w = close (posix_base sys_close) this w

  -- `*this = std::move(*fs)`, and the end of the stream in `fs`.
  unfoldable pub adopt : Result ℕ × W → Result ℕ × W
  unfolding release reset close
  adopt (throws ec, w) = (throws ec, w)
  adopt (undefined, w) = (undefined, w)
  adopt (undefined_throws ec, w) = (undefined_throws ec, w)
  adopt (value fs, w) =
      let (handle, left) = release (posix_base sys_close) fs in
      let (this, _, w₁) = reset (posix_base sys_close) no_file handle w in
      let (_, w₂) = close (posix_base sys_close) left w₁ in (value this, w₂)

module _ {W : Type 0} (sys_close : ℕ → W → W) (sys_open : SysOpen W)
    (throw_if : ErrorCode → Outcome (Unit {0})) where
  -- The constructor `file_stream(fpath, flags)`.
  pub file_stream : List ℕ → OpenMode → W → Checked (Result ℕ × W)
  unfolding open_file adopt
  file_stream fpath flags w = open_file sys_open fpath flags no_error w >>= λ opened.
      passed (adopt sys_close (check_then_get throw_if opened))

  -- The constructor `file_stream(fpath)`.
  pub file_stream_at : List ℕ → W → Checked (Result ℕ × W)
  unfolding file_stream
  file_stream_at fpath w = file_stream fpath no_flags w

  -- `file_stream::open(fpath, flags)` and `file_stream::open(fpath)`.
  pub open_with : List ℕ → OpenMode → W → Checked (Result ℕ × W)
  unfolding file_stream
  open_with fpath flags w = file_stream fpath flags w

  pub open_for_reading : List ℕ → W → Checked (Result ℕ × W)
  unfolding open_with
  open_for_reading fpath w = open_with fpath only_read w

module _ {W : Type 0} (sys_close : ℕ → W → W) (sys_open : SysOpen W)
    (throw_if : ErrorCode → Outcome (Unit {0})) where
  adopt-value : (fd : ℕ) (w : W) → adopt sys_close (value fd, w) ≡ (value fd, w)
  unfolding adopt release reset close
  adopt-value fd w = ground arith

  adopted :
      (fd errno : ℕ) (w : W)
      → Throws throw_if
      → (fd ≡ minus_one → errno ≢ 0)
      → adopt sys_close (check_then_get throw_if (answer no_error (fd, errno, w))) ≡ (
          if fd == minus_one
          then (throws (record { value = errno; category = system_category }), w)
          else (value fd, w))
  unfolding adopt
  adopted fd errno w t nz = elim (Bool-cases (fd == minus_one)) [
    | inl h ↦
        let n = nz ((==_iff fd minus_one).0 h) in
        rw (h, t.throws-error (record { value = errno; category = system_category }) (ground arith))
    | inr h ↦ rw (h, t.returns-clean no_error refl) (adopt-value fd w)
  ]

  closes_once :
      (fd : ℕ) (w : W)
      → fd ≢ minus_one
      → let (this, w₁) = close_file sys_close fd w in
        close_file sys_close this w₁ ≡ (posix_invalid, sys_close fd w)
  unfolding close_file close
  closes_once fd w ne = ground arith

  -- The constructor `file_stream(fpath, flags)`, provided the system sets `errno` when it refuses
  -- and the thrower throws just the errors. It fails its assertion exactly on flags that contradict
  -- one another; otherwise it throws the system's error if the system refuses, and else holds the
  -- system's descriptor, and it closes nothing. Then `close()` and the end of the stream close a
  -- valid descriptor once.
  pub file_stream_lem :
      (fpath : List ℕ) (m : OpenMode) (w : W)
      → Throws throw_if
      → let (fd, errno, w') = sys_open fpath (passed_on m) 0o664 w in
        (fd ≡ minus_one → errno ≢ 0)
        → (file_stream sys_close sys_open throw_if fpath m w ≡ (
            if conflicting m
            then assert_failed
            else passed (
                if fd == minus_one
                then (throws (record { value = errno; category = system_category }), w')
                else (value fd, w'))))
          × (fd ≢ minus_one
              → let (this, w₁) = close_file sys_close fd w' in
                close_file sys_close this w₁ ≡ (posix_invalid, sys_close fd w'))
  unfolding file_stream close_file
  file_stream_lem fpath m w t nz = (
    elim (Bool-cases (conflicting m)) [
      | inl e ↦ rw (open_file_lem sys_open fpath m no_error w, e)
      | inr e ↦ rw (open_file_lem sys_open fpath m no_error w, e) (ap passed (adopted _ _ _ t nz))
    ],
    λ ne. closes_once _ _ ne,
  )

  same_open :
      (fpath : List ℕ) (w : W)
      → open_file sys_open fpath only_read no_error w ≡ open_file sys_open fpath no_flags no_error w
  same_open fpath w =
      open_file_lem sys_open fpath only_read no_error w
      ∙ sym (open_file_lem sys_open fpath no_flags no_error w)

  -- `file_stream(fpath)` and `open(fpath)` do the same, though they ask with different flags.
  pub open_for_reading-file_stream_at :
      (fpath : List ℕ) (w : W)
      → open_for_reading sys_close sys_open throw_if fpath w
        ≡ file_stream_at sys_close sys_open throw_if fpath w
  unfolding open_for_reading open_with file_stream_at file_stream
  open_for_reading-file_stream_at fpath w =
      ap (λ opened. opened >>= λ r. passed (adopt sys_close (check_then_get throw_if r)))
        (same_open fpath w)
