-- ===== src/Buffers/Output.antt =====
-- `commit` of src/neo/io/stream/buffers.hpp: what goes out, and what stays behind.
use neo_io.Prelude.{
  ℕ, ◌≤◌, ◌<◌, ◌≡◌, ◌≢◌, ap, ◌⊎◌, inl, inr, true, some, List, ◌++◌, append_assoc, arith, size_mod,
  length, take, length-append, length-take, length-drop, take-append-drop, take-take,
}
use neo_io.Transfer.{
  TransferResult, IsTransferResult, transfer_errant, throw_if_transfer_errant, Outcome, returned,
  thrown,
}
use neo_io.IoOp.Laws.{Spans, AreConsumers}
use neo_io.IoOp.Conditions.{MakesProgress}
use neo_io.IoOp.Sending.{IsWriter, write_all-sends}
use neo_io.Buffers.{DynbufIo, Sink, IoBuffers, commit_written, commit}
use neo_io.Buffers.Laws.{IsDynbufIo}

-- A sink over every source: its consumers walk the source, and its stream appends to what was sent.
pub record IsSink {R C P S : Type 0} ⦃t : TransferResult R⦄ (v : Spans C P) (sent : S → List ℕ)
    (sink : Sink R C P S) : Type 0 where
  pub walks : (src : List ℕ) → AreConsumers v (length src) (sink.consumers src)
  pub starts : (src : List ℕ) → v.pos (sink.begins src) ≡ 0
  pub writes : (src : List ℕ) → IsWriter t v src sent (sink.stream src)
  pub moves : (src : List ℕ) → MakesProgress v (length src) (sink.stream src).some_part

module _ {R C P B S : Type 0} ⦃t : TransferResult R⦄ {v : Spans C P} {d : DynbufIo B}
    {content staged : B → List ℕ} {sent : S → List ℕ} {sink : Sink R C P S}
    (rl : IsTransferResult t) (dl : IsDynbufIo d content staged) (sl : IsSink v sent sink) where
  thrown-ne : (r : R) → transfer_errant r ≡ true → throw_if_transfer_errant r ≢ returned tt
  thrown-ne r bad q = cc (q, throw_eq r bad)
    where
      throw_eq :
          (r : R) → transfer_errant r ≡ true → throw_if_transfer_errant r ≡ thrown (t.error r)
      throw_eq r bad = rw bad

  -- `commit(size)` of at most the prepared bytes, less than 2^64, into a stream that moves
  -- something or fails at each call, returns. Whether it throws or not, what was sent and what the
  -- buffer keeps is, in order, what was sent and kept before and then the committed bytes. If it
  -- does not throw, it has sent exactly as many bytes as it committed, so that a backlog that an
  -- earlier failure left stays as long as it was.
  pub commit-keeps :
      (fuel size : ℕ) (x : IoBuffers B S)
      → size ≤ length (staged x.io_bufs)
      → size < size_mod
      → size < fuel
      → (out : Outcome (Unit {0})) × (x' : IoBuffers B S) × (commit d sink fuel size x
          ≡ some (out, x'))
        × (sent x'.strm ++ content x'.io_bufs
            ≡ (sent x.strm ++ content x.io_bufs) ++ take size (staged x.io_bufs))
        × (out ≡ returned tt → length (content x'.io_bufs) ≡ length (content x.io_bufs))
  unfolding commit commit_written
  commit-keeps fuel size x fits small enough =
      let (r, s', e, bound, sends, ends) =
        write_all-sends rl (omega (arith, short)) (sl.walks src) (sl.writes src) fuel
          (sink.begins src) x.strm (omega (arith, short)) (sl.starts src) (sl.moves src) in
      (
        (commit_written d bufs (r, s')).0,
        (commit_written d bufs (r, s')).1,
        rw e,
        kept r s' bound sends,
        sent_all r s' ends,
      )
    where
      bufs : B
      bufs = d.commit size x.io_bufs

      src : List ℕ
      src = d.next size bufs

      whole : content bufs ≡ content x.io_bufs ++ take size (staged x.io_bufs)
      whole = dl.content-commit size x.io_bufs fits

      src_eq : src ≡ take size (content bufs)
      src_eq = dl.next_lem size bufs

      short : length src ≤ size
      short = omega (arith, ap length src_eq, length-take size (content bufs))

      kept :
          (r : R) (s' : S)
          → t.bytes_transferred r ≤ length src
          → sent s' ≡ sent x.strm ++ take (t.bytes_transferred r) src
          → sent s' ++ content (d.consume (t.bytes_transferred r) bufs)
            ≡ (sent x.strm ++ content x.io_bufs) ++ take size (staged x.io_bufs)
      kept r s' bound sends =
          let n : ℕ = t.bytes_transferred r in
          rw (
            sends,
            dl.content-consume n bufs,
            src_eq,
            take-take n size (content bufs) (omega (arith, short)),
            append_assoc,
            take-append-drop n (content bufs),
            whole,
            append_assoc,
          )

      sent_all :
          (r : R) (s' : S)
          → (transfer_errant r ≡ true)
            ⊎ ((t.bytes_transferred r ≡ length src) × (sent s' ≡ sent x.strm ++ src))
          → (commit_written d bufs (r, s')).0 ≡ returned tt
          → length (content (commit_written d bufs (r, s')).1.io_bufs) ≡ length (content x.io_bufs)
      sent_all r s' (inl bad) q = absurd (thrown-ne r bad q)
      sent_all r s' (inr (all, _)) q = omega (
        arith,
        ap length (dl.content-consume (t.bytes_transferred r) bufs),
        length-drop (t.bytes_transferred r) (content bufs),
        all,
        ap length src_eq,
        length-take size (content bufs),
        ap length whole,
        length-append (content x.io_bufs) (take size (staged x.io_bufs)),
        length-take size (staged x.io_bufs),
        fits,
      )
