-- ===== src/Buffers.antt =====
-- src/neo/io/stream/buffers.hpp: a stream behind input and output buffers. The buffers are
-- neo-buffer's `dynbuf_io` and enter as an interface; `commit` writes by the `write` of IoOp.
pub mod Laws
pub mod Output
pub mod Input
use mathlib.Core.Option
use neo_io.Prelude.{ℕ, ltb, ◌==◌, if◌then◌else◌, Option, List, length}
use neo_io.Transfer.{
  TransferResult, transfer_errant, throw_if_transfer_errant, Outcome, returned, thrown,
}
use neo_io.IoOp.{Consumers, Stream, write_all}

-- The operations of `dynbuf_io`. `prepared` is the size of the region that `prepare` returned, and
-- `store` writes into that region.
pub record DynbufIo (B : Type 0) : Type 0 where
  pub prepare : ℕ → B → B
  pub prepared : B → ℕ
  pub store : List ℕ → B → B
  pub commit : ℕ → B → B
  pub available : B → ℕ
  pub next : ℕ → B → List ℕ
  pub consume : ℕ → B → B

-- The stream's `write_some` for each source of bytes, with the consumers of such a source.
pub record Sink (R C P S : Type 0) : Type 0 where
  pub stream : List ℕ → Stream R P S
  pub consumers : List ℕ → Consumers C P
  pub begins : List ℕ → C

-- The stream's `read_some`, into a region of a size, with the bytes that it stored.
abbrev pub ReadSome : Type 0 → Type 0 → Type 0
ReadSome R S = ℕ → S → R × List ℕ × S

-- The buffers and the stream of a `stream_io_buffers`.
pub record IoBuffers (B S : Type 0) : Type 0 where
  pub io_bufs : B
  pub strm : S

module _ {R B S : Type 0} ⦃t : TransferResult R⦄ (d : DynbufIo B) where
  -- What `commit` does once its write has returned.
  unfoldable pub commit_written : B → R × S → Outcome (Unit {0}) × IoBuffers B S
  commit_written bufs (write_res, s) = (
    throw_if_transfer_errant write_res,
    record { io_bufs = d.consume (t.bytes_transferred write_res) bufs; strm = s },
  )

  -- `commit(size)`; the fuel is for the loop of `write`.
  unfoldable pub commit :
      {C P : Type 0}
      → Sink R C P S
      → ℕ
      → ℕ
      → IoBuffers B S
      → Option (Outcome (Unit {0}) × IoBuffers B S)
  unfolding commit_written
  commit sink fuel size x =
      let bufs = d.commit size x.io_bufs in
      let src = d.next size bufs in
      Option.map (commit_written bufs)
        (write_all fuel (sink.consumers src) (sink.stream src) (sink.begins src) x.strm)

  -- The branch of `next` that reads from the stream.
  unfoldable pub fill : ReadSome R S → ℕ → IoBuffers B S → Outcome (List ℕ) × IoBuffers B S
  fill read_some size x =
      let in_bufs = d.prepare size x.io_bufs in
      let (read_res, bytes, s) = read_some (d.prepared in_bufs) x.strm in
      let bufs = d.commit (t.bytes_transferred read_res) (d.store bytes in_bufs) in
      (
        if transfer_errant read_res then thrown (t.error read_res) else returned (d.next size bufs),
        record { io_bufs = bufs; strm = s },
      )

  -- `next(size)`.
  unfoldable pub next : ReadSome R S → ℕ → IoBuffers B S → Outcome (List ℕ) × IoBuffers B S
  unfolding fill
  next read_some size x =
      if ltb size (d.available x.io_bufs)
      then (returned (d.next size x.io_bufs), x)
      else if d.available x.io_bufs == 0
      then fill read_some size x
      else (returned (d.next (d.available x.io_bufs) x.io_bufs), x)

module _ {B S : Type 0} (d : DynbufIo B) where
  pub prepare : ℕ → IoBuffers B S → IoBuffers B S
  prepare size x = record x { io_bufs = d.prepare size x.io_bufs }

  pub consume : ℕ → IoBuffers B S → IoBuffers B S
  consume size x = record x { io_bufs = d.consume size x.io_bufs }
