-- ===== src/Posix/Inner.antt =====
-- A descriptor as the stream inside the buffers of src/neo/io/stream/buffers.hpp: `commit` writes to it
-- by `write`, and `next` reads from it by `read_some` of one buffer, both of
-- src/neo/io/stream/posix.hpp.
use neo_io.Prelude.{
  ℕ, ap, ◌∙◌, ◌-◌, ◌≤◌, ◌≡◌, ◌≢◌, refl, sym, inl, inr, List, [], ◌++◌, arith, length, take,
  length-take, size_mod,
}
use neo_io.Transfer.{NativeTransferResult, native_transfer_result}
use neo_io.IoOp.{Consumers}
use neo_io.IoOp.Laws.{Spans, AreConsumers}
use neo_io.Buffers.{Sink, ReadSome}
use neo_io.Buffers.Output.{IsSink}
use neo_io.Buffers.Input.{IsSource}
use neo_io.Posix.{Buffer, IoVec, SysCall, transfer_buffer}
use neo_io.Posix.Transfers.{IsTransferCount, mk_result_lem}
use neo_io.Posix.Overloads.{Source, mutable_area, DoReadv, read_some, offered, write_some_lem}
use neo_io.Posix.Writing.{
  unless_aborted, fd_stream, WritesFile, Holds, fd-IsWriter, fd-MakesProgress,
}

-- The calls that write, given what is in the caller's memory.
abbrev pub InMemory : Type 0 → Type 0 → Type 0
InMemory A W = (IoVec → List ℕ) → SysCall A W

module _ {C P W : Type 0} (sys_write : InMemory Buffer W) (sys_writev : InMemory (List IoVec) W)
    (fd : ℕ) (arr : List IoVec) (memory : List ℕ → IoVec → List ℕ) (argument : P → Source) where
  -- The descriptor as a sink; `memory src` is the memory in which the source lies.
  abbrev pub fd_sink : (List ℕ → Consumers C P) → (List ℕ → C) → Sink NativeTransferResult C P W
  fd_sink consumers begins = record {
    stream = λ src. fd_stream (sys_write (memory src)) (sys_writev (memory src)) fd arr argument;
    consumers = consumers;
    begins = begins;
  }

-- The descriptor as a source. The call reads into an area that is its own.
abbrev pub fd_source :
    {W : Type 0}
    → SysCall Buffer (List ℕ × W)
    → DoReadv (List ℕ × W)
    → ℕ
    → ReadSome NativeTransferResult W
fd_source sys_read do_readv fd n w =
    let (r, _, (area, w')) =
      read_some sys_read do_readv fd (mutable_area (record { address = 0; size = n })) [] ([], w) in
    (unless_aborted r, take (unless_aborted r).bytes_transferred area, w')

-- The documented behaviour of `::read`: it fails with an error number and leaves the file alone, or
-- stores the next bytes that come in, at most as many as the buffer has room for.
pub record ReadsFile {W : Type 0} (sys_read : SysCall Buffer (List ℕ × W)) (fd : ℕ)
    (incoming : W → List ℕ) : Type 0 where
  pub counts :
      (b : Buffer) (w : W)
      → IsTransferCount b.size (sys_read fd b ([], w)).0 (sys_read fd b ([], w)).1
  pub failure-incoming :
      (b : Buffer) (w : W)
      → (sys_read fd b ([], w)).0 ≡ size_mod - 1
      → incoming (sys_read fd b ([], w)).2.1 ≡ incoming w
  pub stored-le :
      (b : Buffer) (w : W)
      → (sys_read fd b ([], w)).0 ≢ size_mod - 1
      → (sys_read fd b ([], w)).0 ≤ length (sys_read fd b ([], w)).2.0
  pub success-incoming :
      (b : Buffer) (w : W)
      → (sys_read fd b ([], w)).0 ≢ size_mod - 1
      → incoming w
        ≡ take (sys_read fd b ([], w)).0 (sys_read fd b ([], w)).2.0
          ++ incoming (sys_read fd b ([], w)).2.1

module _ {C P W : Type 0} (sys_write : InMemory Buffer W) (sys_writev : InMemory (List IoVec) W)
    {fd : ℕ} {arr : List IoVec} {memory : List ℕ → IoVec → List ℕ} {argument : P → Source}
    {v : Spans C P} {consumers : List ℕ → Consumers C P} {begins : List ℕ → C}
    {written : W → List ℕ}
    (wl : (src : List ℕ)
      → WritesFile (sys_write (memory src)) (sys_writev (memory src)) fd (memory src) written)
    (held : (src : List ℕ) → Holds v (memory src) arr argument src) where
  -- A descriptor is a sink, if its system behaves as documented, the parts of every source refer to
  -- its bytes, and the consumers walk it.
  pub fd-IsSink :
      ((src : List ℕ) → AreConsumers v (length src) (consumers src))
      → ((src : List ℕ) → v.pos (begins src) ≡ 0)
      → IsSink v written (fd_sink sys_write sys_writev fd arr memory argument consumers begins)
  fd-IsSink walks starts = record {
    walks = walks;
    starts = starts;
    writes = λ src. fd-IsWriter arr argument (wl src) (held src);
    moves = λ src. fd-MakesProgress arr argument (wl src) (held src);
  }

module _ {W : Type 0} {sys_read : SysCall Buffer (List ℕ × W)} (do_readv : DoReadv (List ℕ × W))
    {fd : ℕ} {incoming : W → List ℕ} (rl : ReadsFile sys_read fd incoming) where
  -- What one call reports, gives and leaves.
  read-Gave :
      (n : ℕ) (w : W)
      → let (r, bytes, w') = fd_source sys_read do_readv fd n w in
        (r.bytes_transferred ≤ n)
        × (length bytes ≡ r.bytes_transferred)
        × (incoming w ≡ bytes ++ incoming w')
  unfolding read_some transfer_buffer
  read-Gave n w =
      let b : Buffer = record { address = 0; size = n } in
      let (k, errno, (area, w')) = sys_read fd b ([], w) in
      let (r, e, failed, ends) = mk_result_lem n k errno (rl.counts b w) in
      rw e (elim ends [
        | inl (bad, none, _) ↦ (
          omega (arith, none),
          rw none refl,
          rw none (sym (rl.failure-incoming b w (failed.1 bad))),
        )
        | inr (good, count, le) ↦
            let fine : k ≢ size_mod - 1 = λ q. cc (failed.0 q, good) in
            (
              omega (arith, count, le),
              omega (arith, count, rl.stored-le b w fine, length-take r.bytes_transferred area),
              rw count (rl.success-incoming b w fine),
            )
      ])

  -- A descriptor is a source, if its system behaves as documented.
  pub fd-IsSource : IsSource incoming (fd_source sys_read do_readv fd)
  fd-IsSource = record {
    read-le = λ n w. (read-Gave n w).0;
    length-read = λ n w. (read-Gave n w).1;
    read-incoming = λ n w. (read-Gave n w).2;
  }

-- What is written does not come in, and a read writes nothing; as with a socket.
pub record TwoWays {W : Type 0} (sys_writev : InMemory (List IoVec) W)
    (sys_read : SysCall Buffer (List ℕ × W)) (fd : ℕ) (written incoming : W → List ℕ) : Type 0 where
  pub incoming-sys_writev :
      (region : IoVec → List ℕ) (iov : List IoVec) (w : W)
      → incoming (sys_writev region fd iov w).2 ≡ incoming w
  pub written-sys_read : (b : Buffer) (w : W) → written (sys_read fd b ([], w)).2.1 ≡ written w

module _ {C P W : Type 0} (sys_write : InMemory Buffer W) {sys_writev : InMemory (List IoVec) W}
    {sys_read : SysCall Buffer (List ℕ × W)} {fd : ℕ} {written incoming : W → List ℕ}
    (ways : TwoWays sys_writev sys_read fd written incoming) where
  pub incoming-fd_sink :
      (arr : List IoVec) (memory : List ℕ → IoVec → List ℕ) (argument : P → Source)
      (consumers : List ℕ → Consumers C P) (begins : List ℕ → C) (src : List ℕ) (p : P) (w : W)
      → WritesFile (sys_write (memory src)) (sys_writev (memory src)) fd (memory src) written
      → incoming
          (((fd_sink sys_write sys_writev fd arr memory argument consumers begins).stream
              src).some_part
            p w).1
        ≡ incoming w
  incoming-fd_sink arr memory argument consumers begins src p w wl =
      let (_, world, _) =
        write_some_lem (sys_write (memory src)) (sys_writev (memory src)) fd (argument p) arr w
          wl.alike in
      ap incoming world ∙ ways.incoming-sys_writev (memory src) (offered (argument p) arr) w

module _ {W : Type 0} {sys_writev : InMemory (List IoVec) W}
    {sys_read : SysCall Buffer (List ℕ × W)} {fd : ℕ} {written incoming : W → List ℕ}
    (ways : TwoWays sys_writev sys_read fd written incoming) where
  pub written-fd_source :
      (do_readv : DoReadv (List ℕ × W)) (n : ℕ) (w : W)
      → written (fd_source sys_read do_readv fd n w).2 ≡ written w
  unfolding read_some transfer_buffer
  written-fd_source do_readv n w = ways.written-sys_read (record { address = 0; size = n }) w
