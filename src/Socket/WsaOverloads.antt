-- ===== src/Socket/WsaOverloads.antt =====
-- `read_some` and `write_some` of the Windows socket of src/neo/io/stream/socket.hpp: which of its
-- overloads a call reaches, by the type of the argument.
use neo_io.Prelude.{ℕ, zero, suc, ◌≡◌, refl, Option, none, some, List, ap}
use neo_io.Transfer.{NativeTransferResult}
use neo_io.Posix.{Buffer}
use neo_io.Posix.Overloads.{
  Source, const_buffer, mutable_buffer, buffers, Destination, mutable_area, areas,
}
use neo_io.Socket.Wsa.{WsaBuf, prep_wsabufs_arr, prep_wsabufs_arr-count}
use neo_io.Socket.WsaStream.{Winsock, do_write_some, do_read_some}

-- `_do_write_arr` and `_do_read_arr`, which get the array and the count. They have no definition in the
-- sources.
abbrev pub DoArray : Type 0 → Type 0
DoArray W = List WsaBuf → ℕ → W → NativeTransferResult × W

module _ {W : Type 0} (c : Winsock W) (native_handle : ℕ) where
  -- `_do_write_some(mutable_buffer)`, with fuel for its calls: the argument of its call is a
  -- `mutable_buffer` again.
  unfoldable pub do_write_mutable : ℕ → Buffer → W → Option (NativeTransferResult × W)
  do_write_mutable zero buf w = none
  do_write_mutable (suc fuel) buf w = do_write_mutable fuel buf w

  -- The `_do_write_some` and the `_do_read_some` of a range.
  pub do_write_range :
      DoArray W → List WsaBuf → List Buffer → W → (NativeTransferResult × W) × List WsaBuf
  do_write_range do_write_arr arr bufs w =
      let (arr', n_bufs) = prep_wsabufs_arr arr bufs in (do_write_arr arr' n_bufs w, arr')

  pub do_read_range :
      DoArray W → List WsaBuf → List Buffer → W → (NativeTransferResult × W) × List WsaBuf
  do_read_range do_read_arr arr bufs w =
      let (arr', n_bufs) = prep_wsabufs_arr arr bufs in (do_read_arr arr' n_bufs w, arr')

  -- `write_some` and `read_some`; `none` means that the calls go on and on.
  unfoldable pub write_some :
      DoArray W → ℕ → Source → List WsaBuf → W → Option (NativeTransferResult × W)
  unfolding do_write_mutable do_write_range
  write_some do_write_arr fuel (const_buffer buf) arr w = some (do_write_some c native_handle buf w)
  write_some do_write_arr fuel (mutable_buffer buf) arr w = do_write_mutable fuel buf w
  write_some do_write_arr fuel (buffers bufs) arr w =
      some (do_write_range do_write_arr arr bufs w).0

  unfoldable pub read_some : DoArray W → Destination → List WsaBuf → W → NativeTransferResult × W
  unfolding do_read_range
  read_some do_read_arr (mutable_area buf) arr w = do_read_some c native_handle buf w
  read_some do_read_arr (areas bufs) arr w = (do_read_range do_read_arr arr bufs w).0

  do_write_mutable-none : (fuel : ℕ) (buf : Buffer) (w : W) → do_write_mutable fuel buf w ≡ none
  unfolding do_write_mutable
  do_write_mutable-none zero buf w = refl
  do_write_mutable-none (suc fuel) buf w = do_write_mutable-none fuel buf w

  -- What the three kinds of `write_some` and the two of `read_some` come to on a Windows socket. A
  -- `const_buffer` is sent, and into a `mutable_buffer` is received. A write of a `mutable_buffer`
  -- never ends, however many calls it is given. A range, whatever its buffers, is transferred by
  -- a call for no buffer.
  pub transfers_lem :
      (do_write_arr do_read_arr : DoArray W) (fuel : ℕ) (buf : Buffer) (bufs : List Buffer)
      (arr : List WsaBuf) (w : W)
      → let arr' = (prep_wsabufs_arr arr bufs).0 in
        (write_some do_write_arr fuel (const_buffer buf) arr w
          ≡ some (do_write_some c native_handle buf w))
        × (read_some do_read_arr (mutable_area buf) arr w ≡ do_read_some c native_handle buf w)
        × (write_some do_write_arr fuel (mutable_buffer buf) arr w ≡ none)
        × (write_some do_write_arr fuel (buffers bufs) arr w ≡ some (do_write_arr arr' 0 w))
        × (read_some do_read_arr (areas bufs) arr w ≡ do_read_arr arr' 0 w)
  unfolding write_some read_some
  transfers_lem do_write_arr do_read_arr fuel buf bufs arr w =
      let arr' = (prep_wsabufs_arr arr bufs).0 in
      let none_counted = prep_wsabufs_arr-count arr bufs in
      (
        refl,
        refl,
        do_write_mutable-none fuel buf w,
        ap (λ n. some (do_write_arr arr' n w)) none_counted,
        ap (λ n. do_read_arr arr' n w) none_counted,
      )
