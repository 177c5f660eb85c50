-- ===== src/Native/Standard.antt =====
-- The standard streams of src/neo/io/stream/stdio.hpp, made in src/neo/io/stream/posix.cpp and in
-- src/neo/io/stream/win32.cpp: native streams that give their handle back when they end.
use neo_io.Prelude.{ℕ, ◌≡◌, List, [], ◌∷◌, arith}
use neo_io.Native.{Base, default_stream, close, release, reset}

module _ {W : Type 0} (b : Base W) where
  -- The constructor of `nonown_fd_stream` and `nonown_handle_stream`.
  pub nonown_stream : ℕ → W → ℕ × W
  unfolding reset
  nonown_stream handle w = let (this, _, w') = reset b (default_stream b) handle w in (this, w')

  -- Its destructor, and then that of the native stream.
  pub end_nonown : ℕ → W → W
  unfolding release close
  end_nonown this w = let (_, this') = release b this in (close b this' w).1

  -- A standard stream closes nothing, when it is made and when it ends, whatever its handle.
  nonown-closes :
      (handle : ℕ) (w : W)
      → (nonown_stream handle w ≡ (handle, w)) × (end_nonown (nonown_stream handle w).0 w ≡ w)
  unfolding nonown_stream end_nonown
  nonown-closes handle w = (ground arith, ground arith)

-- `STDIN_FILENO`, `STDOUT_FILENO` and `STDERR_FILENO`.
abbrev pub standard_fds : List ℕ
standard_fds = 0 ∷ 1 ∷ 2 ∷ []
