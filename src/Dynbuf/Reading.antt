-- ===== src/Dynbuf/Reading.antt =====
-- `read` of src/neo/io/read.hpp from the stream of src/neo/io/stream/dynbuf.hpp.
use neo_io.Prelude.{
  ℕ, zero, suc, ◌∷◌, ◌+◌, ◌≤◌, ◌<◌, min, ◌≡◌, refl, sym, ap, ◌∙◌, inl, inr, true, false, some, List,
  [], ◌++◌, append_assoc, arith, size_mod, length, take, drop, length-append, length-take,
  length-drop, take-append-drop, drop-drop, eq-nil_of_length,
}
use neo_io.Transfer.{BasicTransferResult, basic_transfer_result, basic-IsTransferResult, is_error}
use neo_io.IoOp.{Consumers, Stream, read_all}
use neo_io.IoOp.Laws.{Spans, AreConsumers}
use neo_io.IoOp.Receiving.{filled, IsReader, read_all-receives}
use neo_io.IoOp.Faultless.{faultless_read}
use neo_io.Dynbuf.{DynamicBuffer, BufferCopy, read_some}
use neo_io.Dynbuf.Laws.{IsDynamicBuffer, IsBufferCopy}
use neo_io.Dynbuf.Fifo.{read_some-takes}

-- The destination of a read, which has `total` bytes, and the buffer that is read from.
pub record Receiver (total : ℕ) (B : Type 0) : Type 0 where
  pub memory : List ℕ
  pub length-memory : length memory ≡ total
  pub bufs : B

-- A memory after the region of `len` bytes at `start` was given new contents.
abbrev pub patched : ℕ → ℕ → List ℕ → List ℕ → List ℕ
patched start len region mem = take start mem ++ (region ++ drop (start + len) mem)

-- The rest of a region, and what follows it.
drop-region : (n len : ℕ) (xs : List ℕ) → n ≤ len → drop n (take len xs) ++ drop len xs ≡ drop n xs
drop-region zero len xs h = take-append-drop len xs
drop-region (suc n) zero xs h = absurd (omega arith)
drop-region (suc n) (suc len) [] h = refl
drop-region (suc n) (suc len) (x ∷ xs) h = drop-region n len xs (omega arith)

module _ {B : Type 0} {d : DynamicBuffer B} {content : B → List ℕ} {buffer_copy : BufferCopy}
    (dl : IsDynamicBuffer d content) (bl : IsBufferCopy buffer_copy) where
  -- What `read_some` into a region leaves in the memory.
  read_some-patched :
      (start len : ℕ) (mem : List ℕ) (b : B)
      → let (r, dest, b') = read_some d buffer_copy (take len (drop start mem)) b in
        patched start len dest mem
        ≡ take start mem ++ filled r.bytes_transferred (content b) (drop start mem)
  read_some-patched start len mem b =
      let dest = take len (drop start mem) in
      let n = (read_some d buffer_copy dest b).0.bytes_transferred in
      let (count, stored, _, _) = read_some-takes dl buffer_copy dest b bl in
      let n-le : n ≤ len = omega (arith, count, length-take len (drop start mem)) in
      let tail : drop (start + len) mem ≡ drop len (drop start mem) =
        sym (drop-drop start len (start + len) mem refl) in
      ap (λ x. take start mem ++ x)
        (ap (λ x. x ++ drop (start + len) mem) stored
          ∙ append_assoc (take n (content b)) (drop n dest) (drop (start + len) mem)
          ∙ ap (λ x. take n (content b) ++ (drop n dest ++ x)) tail
          ∙ ap (λ x. take n (content b) ++ x) (drop-region n len (drop start mem) n-le))

  -- The memory stays as long as it is.
  pub length-read_some :
      (start len : ℕ) (mem : List ℕ) (b : B)
      → let (r, dest, b') = read_some d buffer_copy (take len (drop start mem)) b in
        length (patched start len dest mem) ≡ length mem
  length-read_some start len mem b =
      let dest = take len (drop start mem) in
      let n = (read_some d buffer_copy dest b).0.bytes_transferred in
      let (count, _, _, _) = read_some-takes dl buffer_copy dest b bl in
      omega (
        arith,
        count,
        ap length (read_some-patched start len mem b),
        length-append (take start mem) (filled n (content b) (drop start mem)),
        length-append (take n (content b)) (drop n (drop start mem)),
        length-take start mem,
        length-take n (content b),
        length-drop n (drop start mem),
        length-drop start mem,
        length-take len (drop start mem),
      )

module _ {B C P : Type 0} {d : DynamicBuffer B} {content : B → List ℕ} {buffer_copy : BufferCopy}
    (v : Spans C P) (total : ℕ) (dl : IsDynamicBuffer d content)
    (bl : IsBufferCopy buffer_copy) where
  -- A `dynbuf_stream` as a stream over parts of a destination.
  abbrev pub dynbuf_source : Stream BasicTransferResult P (Receiver total B)
  dynbuf_source = record {
    some_part = λ p s.
        let (r, dest, b') =
          read_some d buffer_copy (take (v.len p) (drop (v.start p) s.memory)) s.bufs in
        (
          r,
          record {
            memory = patched (v.start p) (v.len p) dest s.memory;
            length-memory =
                length-read_some dl bl (v.start p) (v.len p) s.memory s.bufs ∙ s.length-memory;
            bufs = b';
          },
        );
    vectored = true;
  }

  -- What the read of a part reports and leaves.
  abbrev Took : (p : P) (s : Receiver total B) → Type 0
  Took p s =
      let dest = take (v.len p) (drop (v.start p) s.memory) in
      let (r, dest', b') = read_some d buffer_copy dest s.bufs in
      (r.bytes_transferred ≡ min (length dest) (length (content s.bufs)))
      × (content b' ≡ drop r.bytes_transferred (content s.bufs))
      × (is_error r.ec ≡ false)

  read_part-Took : (p : P) (s : Receiver total B) → Took p s
  read_part-Took p s =
      let (count, _, left, clean) =
        read_some-takes dl buffer_copy (take (v.len p) (drop (v.start p) s.memory)) s.bufs bl in
      (count, left, ap is_error clean)

  dynbuf-IsReader :
      IsReader basic_transfer_result v total (λ s. content s.bufs) (λ s. s.memory) dynbuf_source
  dynbuf-IsReader = record {
    read-le = λ p s part.
        let (count, _, _) = read_part-Took p s in
        omega (arith, count, length-take (v.len p) (drop (v.start p) s.memory));
    read-le-incoming = λ p s part. let (count, _, _) = read_part-Took p s in omega (arith, count);
    read-incoming = λ p s part. (read_part-Took p s).1;
    read-memory = λ p s part. read_some-patched dl bl (v.start p) (v.len p) s.memory s.bufs;
    read-end = λ p s part z good.
        let (count, left, _) = read_part-Took p s in
        left
        ∙ ap (λ n. drop n (content s.bufs)) z
        ∙ eq-nil_of_length (content s.bufs) (
            omega (
              arith,
              count,
              z,
              part.0,
              part.1,
              s.length-memory,
              length-take (v.len p) (drop (v.start p) s.memory),
              length-drop (v.start p) s.memory,
            ));
  }

  -- `read` from a `dynbuf_stream` into a destination of `total` bytes, less than 2^64, with more fuel
  -- than that, returns without an error. It reports the smaller of the destination's size and the
  -- buffered size, and has moved that many leading bytes of the buffer to the front of the
  -- destination; the rest of both is as it was.
  pub read_all-takes :
      {cs : Consumers C P} (fuel : ℕ) (bufs : C) (s : Receiver total B)
      → total < size_mod
      → total < fuel
      → AreConsumers v total cs
      → v.pos bufs ≡ 0
      → (r : BasicTransferResult) × (s' : Receiver total B) × (read_all fuel cs dynbuf_source bufs s
          ≡ some (r, s'))
        × (is_error r.ec ≡ false)
        × (r.bytes_transferred ≡ min total (length (content s.bufs)))
        × (s'.memory ≡ filled r.bytes_transferred (content s.bufs) s.memory)
        × (content s'.bufs ≡ drop r.bytes_transferred (content s.bufs))
  read_all-takes {cs} fuel bufs s small enough cl at_start =
      let (r, s', e, got, end) =
        read_all-receives basic-IsTransferResult small cl dynbuf-IsReader fuel bufs s enough
          at_start in
      let fine : is_error r.ec ≡ false =
        faultless_read basic-IsTransferResult cs dynbuf_source (λ p s. (read_part-Took p s).2) fuel
          bufs s r s' e in
      elim end [
        | inl bad ↦ absurd (cc (bad, fine))
        | inr count ↦ (r, s', e, fine, count, got.stored, got.left)
      ]
