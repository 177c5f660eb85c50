-- ===== src/Win32.antt =====
-- src/neo/io/stream/win32.hpp and src/neo/io/stream/win32.cpp: reads and writes on a Windows handle. The
-- system calls are parameters, with one state `W` of the system.
pub mod Transfers
use neo_io.Prelude.{ℕ, ◌%◌, ◌^◌}
use neo_io.Transfer.{NativeTransferResult}
use neo_io.Posix.{Buffer}

-- `ReadFile` and `WriteFile` take the handle, the address and the size, and store the count of
-- bytes that they moved. An error is the calling thread's last error.
pub record Calls (W : Type 0) : Type 0 where
  pub set_last_error : ℕ → W → W
  pub get_last_error : W → ℕ
  pub read_file : ℕ → ℕ → ℕ → W → ℕ × W
  pub write_file : ℕ → ℕ → ℕ → W → ℕ × W

-- `static_cast<DWORD>`.
abbrev pub dword : ℕ → ℕ
dword n = n % 2 ^ 32

module _ {W : Type 0} (c : Calls W) where
  -- `win32_handle_stream_base::read_some`.
  unfoldable pub read_some : ℕ → Buffer → W → NativeTransferResult × W
  read_some native_handle mbuf w =
      let dw_size = dword mbuf.size in
      let w₁ = c.set_last_error 0 w in
      let (n_did_read, w₂) = c.read_file native_handle mbuf.address dw_size w₁ in
      (record { bytes_transferred = n_did_read; errn = c.get_last_error w₂ }, w₂)

  -- `win32_handle_stream_base::write_some`.
  unfoldable pub write_some : ℕ → Buffer → W → NativeTransferResult × W
  write_some native_handle cbuf w =
      let dw_size = dword cbuf.size in
      let w₁ = c.set_last_error 0 w in
      let (n_did_write, w₂) = c.write_file native_handle cbuf.address dw_size w₁ in
      (record { bytes_transferred = n_did_write; errn = c.get_last_error w₂ }, w₂)
