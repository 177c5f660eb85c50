-- ===== src/Dynbuf.antt =====
-- src/neo/io/stream/dynbuf.hpp and src/neo/io/stream/string.hpp: a dynamic buffer as a stream. The
-- dynamic buffer and `buffer_copy` are neo-buffer's and enter as an interface.
pub mod Laws
pub mod Fifo
pub mod Writing
pub mod Reading
pub mod StringTrip
use neo_io.Prelude.{ℕ, List, length, min}
use neo_io.Transfer.{BasicTransferResult, no_error}

-- The region of a buffer that a `mutable_buffer_range` covers.
pub record Region : Type 0 where
  pub start : ℕ
  pub size : ℕ

-- The operations of the concept `dynamic_buffer` that the stream calls. `shown p n` are the bytes
-- that `data(p, n)` refers to; `copy_into` is `buffer_copy` into a region of the buffer itself, with
-- the number of bytes copied.
pub record DynamicBuffer (B : Type 0) : Type 0 where
  pub size : B → ℕ
  pub grow : ℕ → B → Region × B
  pub shown : ℕ → ℕ → B → List ℕ
  pub consume : ℕ → B → B
  pub copy_into : Region → List ℕ → B → ℕ × B

-- `buffer_copy` from bytes into a memory of the caller.
abbrev pub BufferCopy : Type 0
BufferCopy = List ℕ → List ℕ → List ℕ

module _ {B : Type 0} (d : DynamicBuffer B) where
  -- `dynbuf_stream::write_some`.
  pub write_some : List ℕ → B → BasicTransferResult × B
  write_some src bufs =
      let grow_size = length src in
      let (out, grown) = d.grow grow_size bufs in
      let (copied, bufs') = d.copy_into out src grown in
      (record { bytes_transferred = copied; ec = no_error }, bufs')

  -- `dynbuf_stream::read_some`; the destination is returned with the buffer.
  pub read_some : BufferCopy → List ℕ → B → BasicTransferResult × List ℕ × B
  read_some buffer_copy dest bufs =
      let avail_size = d.size bufs in
      let read_size = min (length dest) avail_size in
      let dest' = buffer_copy dest (d.shown 0 read_size bufs) in
      (record { bytes_transferred = read_size; ec = no_error }, dest', d.consume read_size bufs)

  -- `basic_string_stream`: each call wraps the string anew by `as_dynamic_buffer`, which refers to
  -- the string, so that `string_of` reads it back after the call.
  pub string_write_some : {T : Type 0} → (T → B) → (B → T) → List ℕ → T → BasicTransferResult × T
  unfolding write_some
  string_write_some as_dynamic_buffer string_of bufs string =
      let (r, b) = write_some bufs (as_dynamic_buffer string) in (r, string_of b)

  pub string_read_some :
      {T : Type 0} → (T → B) → (B → T) → BufferCopy → List ℕ → T → BasicTransferResult × List ℕ × T
  unfolding read_some
  string_read_some as_dynamic_buffer string_of buffer_copy bufs string =
      let (r, dest, b) = read_some buffer_copy bufs (as_dynamic_buffer string) in
      (r, dest, string_of b)
