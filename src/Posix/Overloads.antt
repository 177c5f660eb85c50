-- ===== src/Posix/Overloads.antt =====
-- `read_some` and `write_some` of src/neo/io/stream/posix.hpp: which of its overloads a call reaches, by
-- the type of the argument. The streams of src/neo/io/stream/file.hpp and, on a Unix system, of
-- src/neo/io/stream/socket.hpp pass their calls on to it.
use neo_io.Prelude.{ℕ, ◌≡◌, refl, List, [], ◌∷◌, length, Checked}
use neo_io.Transfer.{NativeTransferResult}
use neo_io.Posix.{
  Buffer, IoVec, iovec_of, SysCall, mk_result, prep_iovec, transfer_buffer, transfer_range,
}
use neo_io.Posix.Transfers.{covered, transfer_range_lem}

-- An argument of a write: a `const_buffer`, a `mutable_buffer`, or another range of buffers.
pub data Source : Type 0 where
  const_buffer mutable_buffer : Buffer → Source
  buffers : List Buffer → Source

-- An argument of a read, which has to be mutable.
pub data Destination : Type 0 where
  mutable_area : Buffer → Destination
  areas : List Buffer → Destination

-- What a transfer returns, with the array afterwards and the system.
abbrev pub Transferred : Type 0 → Type 0
Transferred W = Checked NativeTransferResult × List IoVec × W

-- `_do_readv`, which gets the array and the count. It has no definition in the sources.
abbrev pub DoReadv : Type 0 → Type 0
DoReadv W = List IoVec → ℕ → W → Checked NativeTransferResult × W

module _ {W : Type 0} (sys_write : SysCall Buffer W) (sys_writev : SysCall (List IoVec) W)
    (native_handle : ℕ) where
  -- `_do_write_some(const_buffer)`, and the one of a `mutable_buffer`, which converts it.
  pub do_write_const : Buffer → W → Checked NativeTransferResult × W
  unfolding transfer_buffer
  do_write_const buf w = transfer_buffer sys_write native_handle buf w

  pub do_write_mutable : Buffer → W → Checked NativeTransferResult × W
  unfolding do_write_const
  do_write_mutable buf w = do_write_const buf w

  -- `write_some`, with the array that the thread's pointer leads to.
  unfoldable pub write_some : Source → List IoVec → W → Transferred W
  unfolding do_write_const do_write_mutable transfer_range
  write_some (const_buffer buf) arr w = let (r, w') = do_write_const buf w in (r, arr, w')
  write_some (mutable_buffer buf) arr w = let (r, w') = do_write_mutable buf w in (r, arr, w')
  write_some (buffers bufs) arr w = transfer_range sys_writev native_handle arr bufs w

  -- `file_stream::write_some` and `socket::write_some`.
  abbrev pub file_write_some : Source → List IoVec → W → Transferred W
  file_write_some = write_some

  abbrev pub socket_write_some : Source → List IoVec → W → Transferred W
  socket_write_some = write_some

module _ {W : Type 0} (sys_read : SysCall Buffer W) (do_readv : DoReadv W) (native_handle : ℕ) where
  -- `_do_read_some(mutable_buffer)`.
  pub do_read_mutable : Buffer → W → Checked NativeTransferResult × W
  unfolding transfer_buffer
  do_read_mutable buf w = transfer_buffer sys_read native_handle buf w

  unfoldable pub read_some : Destination → List IoVec → W → Transferred W
  unfolding do_read_mutable prep_iovec
  read_some (mutable_area buf) arr w = let (r, w') = do_read_mutable buf w in (r, arr, w')
  read_some (areas bufs) arr w =
      let (arr', n_bufs) = prep_iovec arr bufs in
      let (r, w') = do_readv arr' n_bufs w in (r, arr', w')

  -- `file_stream::read_some` and `socket::read_some`.
  abbrev pub file_read_some : Destination → List IoVec → W → Transferred W
  file_read_some = read_some

  abbrev pub socket_read_some : Destination → List IoVec → W → Transferred W
  socket_read_some = read_some

-- The buffers of an argument, and those that the system is given: of a range at most as many as the
-- array has entries.
abbrev pub buffers_of : Source → List Buffer
buffers_of (const_buffer buf) = buf ∷ []
buffers_of (mutable_buffer buf) = buf ∷ []
buffers_of (buffers bufs) = bufs

abbrev pub offered : Source → List IoVec → List IoVec
offered (const_buffer buf) arr = iovec_of buf ∷ []
offered (mutable_buffer buf) arr = iovec_of buf ∷ []
offered (buffers bufs) arr = covered arr bufs

-- Provided `::write` does what `::writev` does with one buffer, a write of any argument makes one such
-- call on the offered buffers and reports what it returned.
pub write_some_lem :
    {W : Type 0} (sys_write : SysCall Buffer W) (sys_writev : SysCall (List IoVec) W) (fd : ℕ)
    (a : Source) (arr : List IoVec) (w : W)
    → ((buf : Buffer) (w : W) → sys_write fd buf w ≡ sys_writev fd (iovec_of buf ∷ []) w)
    → let (n, errno, w') = sys_writev fd (offered a arr) w in
      let (r, arr', w'') = write_some sys_write sys_writev fd a arr w in
      (r ≡ mk_result n errno) × (w'' ≡ w') × (length arr' ≡ length arr)
unfolding write_some transfer_buffer
write_some_lem sys_write sys_writev fd (const_buffer buf) arr w alike =
    rw (alike buf w) (refl, refl, refl)
write_some_lem sys_write sys_writev fd (mutable_buffer buf) arr w alike =
    rw (alike buf w) (refl, refl, refl)
write_some_lem sys_write sys_writev fd (buffers bufs) arr w alike =
    transfer_range_lem sys_writev fd arr bufs w
