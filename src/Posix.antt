-- ===== src/Posix.antt =====
-- src/neo/io/stream/posix.hpp and src/neo/io/stream/posix.cpp: reads and writes on a descriptor. The
-- system calls are parameters.
pub mod Transfers
pub mod Overloads
pub mod Writing
pub mod Inner
use neo_io.Prelude.{
  ℕ, ◌+◌, ◌-◌, ◌/◌, ◌==◌, ltb, if◌then◌else◌, List, [], ◌∷◌, take, int_mod, size_mod, Checked,
  passed, assert_failed,
}
use neo_io.Transfer.{NativeTransferResult}

-- A buffer of the caller: its address and its size. `posix_iovec_type` has the same two fields.
pub record Buffer : Type 0 where
  pub address : ℕ
  pub size : ℕ

pub record IoVec : Type 0 where
  pub iov_base : ℕ
  pub iov_len : ℕ

-- `_mk_result`; the `ptrdiff_t` is its bit pattern.
pub mk_result : ℕ → ℕ → Checked NativeTransferResult
mk_result n_transfered errno =
    if n_transfered == size_mod - 1
    then passed (record { bytes_transferred = 0; errn = errno })
    else if ltb n_transfered (size_mod / 2)
    then passed (record { bytes_transferred = n_transfered; errn = 0 })
    else assert_failed

abbrev pub iovec_of : Buffer → IoVec
iovec_of b = record { iov_base = b.address; iov_len = b.size }

-- The loop of `_prep_iovec` over the array from `iov_it` and the buffers from `buf_iter`: the array
-- afterwards and the count.
pub prep_from : List IoVec → List Buffer → ℕ → List IoVec × ℕ
prep_from [] bufs n_bufs = ([], n_bufs)
prep_from (v ∷ arr) [] n_bufs = (v ∷ arr, n_bufs)
prep_from (v ∷ arr) (b ∷ bufs) n_bufs =
    let (rest, n) = prep_from arr bufs (n_bufs + 1) in (iovec_of b ∷ rest, n)

pub prep_iovec : List IoVec → List Buffer → List IoVec × ℕ
unfolding prep_from
prep_iovec arr bufs = prep_from arr bufs 0

-- A system call that transfers: the count or -1, `errno`, and the system.
abbrev pub SysCall : Type 0 → Type 0 → Type 0
SysCall A W = ℕ → A → W → ℕ × ℕ × W

module _ {W : Type 0} where
  -- `_do_write_some` and `_do_read_some` of one buffer, by `::write` or `::read`.
  pub transfer_buffer : SysCall Buffer W → ℕ → Buffer → W → Checked NativeTransferResult × W
  unfolding mk_result
  transfer_buffer call native_handle buf w =
      let (n, errno, w') = call native_handle buf w in (mk_result n errno, w')

  -- `_do_writev` of the first entries of the array. `_do_readv`, which is declared beside it, has no
  -- definition in the sources.
  pub transfer_array :
      SysCall (List IoVec) W → ℕ → List IoVec → ℕ → W → Checked NativeTransferResult × W
  unfolding mk_result
  transfer_array call native_handle arr n_bufs w =
      let (n, errno, w') = call native_handle (take n_bufs arr) w in (mk_result n errno, w')

  -- The vectored `_do_write_some`; the array that the thread's pointer leads to is passed along.
  unfoldable pub transfer_range :
      SysCall (List IoVec) W
      → ℕ
      → List IoVec
      → List Buffer
      → W
      → Checked NativeTransferResult × List IoVec × W
  unfolding prep_iovec transfer_array
  transfer_range call native_handle arr bufs w =
      let (arr', n_bufs) = prep_iovec arr bufs in
      let (r, w') = transfer_array call native_handle arr' n_bufs w in (r, arr', w')
