-- ===== src/Dynbuf/Fifo.antt =====
-- src/neo/io/stream/dynbuf.hpp as a queue of bytes.
use mathlib.Core.Path.{ap₂}
use neo_io.Prelude.{
  ℕ, ◌+◌, ◌≤◌, ◌≡◌, refl, sym, ap, ◌∙◌, min, List, [], ◌∷◌, ◌++◌, append_assoc, append-nil, arith,
  length, take, drop, length-take, take-append-drop, drop-eq_of_le, take-append_take,
}
use neo_io.Transfer.{no_error}
use neo_io.Dynbuf.{Region, DynamicBuffer, BufferCopy, write_some, read_some}
use neo_io.Dynbuf.Laws.{IsDynamicBuffer, IsBufferCopy}

module _ {B : Type 0} {d : DynamicBuffer B} {content : B → List ℕ}
    (dl : IsDynamicBuffer d content) where
  -- `write_some` never fails. It appends to the buffer as many leading bytes of the source as it
  -- reports, which is as many as `grow` made room for.
  pub write_some-appends :
      (src : List ℕ) (b : B)
      → let (r, b') = write_some d src b in
        (content b' ≡ content b ++ take r.bytes_transferred src)
        × (r.bytes_transferred ≡ (d.grow (length src) b).0.size)
        × (r.bytes_transferred ≤ length src)
        × (r.ec ≡ no_error)
  unfolding write_some
  write_some-appends src b = (shape, count, omega (arith, count, dl.grow-le (length src) b), refl)
    where
      room : Region
      room = (d.grow (length src) b).0

      grown : B
      grown = (d.grow (length src) b).1

      fits : room.start + room.size ≤ length (content grown)
      fits = omega (arith, dl.grow-start (length src) b, dl.length-grow (length src) b)

      exact : min room.size (length src) ≡ room.size
      exact = omega (arith, dl.grow-le (length src) b)

      count : (d.copy_into room src grown).0 ≡ room.size
      count = dl.count-copy_into room src grown fits ∙ exact

      shape :
          content (d.copy_into room src grown).1
          ≡ content b ++ take (d.copy_into room src grown).0 src
      shape =
          dl.content-copy_into room src grown fits
          ∙ (rw (
            exact,
            count,
            dl.grow-start (length src) b,
            dl.take-grow (length src) b,
            drop-eq_of_le (length (content b) + room.size) (content grown)
                (omega (arith, dl.length-grow (length src) b)),
            append-nil,
          ))

  -- `read_some` never fails. It reports the smaller of the destination's size and the buffered size,
  -- moves that many leading bytes to the front of the destination, and keeps the rest of both.
  pub read_some-takes :
      (buffer_copy : BufferCopy) (dest : List ℕ) (b : B)
      → IsBufferCopy buffer_copy
      → let (r, dest', b') = read_some d buffer_copy dest b in
        (r.bytes_transferred ≡ min (length dest) (length (content b)))
        × (dest' ≡ take r.bytes_transferred (content b) ++ drop r.bytes_transferred dest)
        × (content b' ≡ drop r.bytes_transferred (content b))
        × (r.ec ≡ no_error)
  unfolding read_some
  read_some-takes buffer_copy dest b bl =
      (ap (min (length dest)) (dl.size_lem b), stored, dl.content-consume n b n-le, refl)
    where
      n : ℕ
      n = min (length dest) (d.size b)

      n-le : n ≤ length (content b)
      n-le = omega (arith, dl.size_lem b)

      length-part : length (take n (content b)) ≡ n
      length-part = length-take n (content b) ∙ omega (arith, n-le)

      stored : buffer_copy dest (d.shown 0 n b) ≡ take n (content b) ++ drop n dest
      stored =
          ap (buffer_copy dest) (dl.shown_lem n b n-le)
          ∙ bl dest (take n (content b)) (omega (arith, length-part))
          ∙ ap (λ k. take n (content b) ++ drop k dest) length-part

-- A client's calls on the stream.
pub data Call : Type 0 where
  put : List ℕ → Call
  get : List ℕ → Call

module _ {B : Type 0} (d : DynamicBuffer B) (buffer_copy : BufferCopy) where
  -- What a call took from its source and what it delivered to its destination, with the new buffer.
  pub step : Call → B → List ℕ × List ℕ × B
  step (put src) b = let (r, b') = write_some d src b in (take r.bytes_transferred src, [], b')
  step (get dest) b =
      let (r, dest', b') = read_some d buffer_copy dest b in
      ([], take r.bytes_transferred dest', b')

  pub run : List Call → B → List ℕ × List ℕ × B
  run [] b = ([], [], b)
  run (c ∷ cs) b =
      let (taken, given, b') = step c b in
      let (taken', given', b'') = run cs b' in (taken ++ taken', given ++ given', b'')

module _ {B : Type 0} {d : DynamicBuffer B} {content : B → List ℕ} {buffer_copy : BufferCopy}
    (dl : IsDynamicBuffer d content) (bl : IsBufferCopy buffer_copy) where
  step-fifo :
      (c : Call) (b : B)
      → let (taken, given, b') = step d buffer_copy c b in content b ++ taken ≡ given ++ content b'
  unfolding step
  step-fifo (put src) b = sym (write_some-appends dl src b).0
  step-fifo (get dest) b =
      let (n, e, c, _) = read_some-takes dl buffer_copy dest b bl in
      let k : ℕ = (read_some d buffer_copy dest b).0.bytes_transferred in
      let front : take k (read_some d buffer_copy dest b).1 ≡ take k (content b) =
        ap (take k) e ∙ take-append_take k (content b) (drop k dest) (omega (arith, n)) in
      append-nil (content b) ∙ sym (take-append-drop k (content b)) ∙ ap₂ ◌++◌ (sym front) (sym c)

  -- Over any calls, what the buffer held and what the writes accepted is, in order, what the reads
  -- delivered and what the buffer holds.
  pub run-fifo :
      (cs : List Call) (b : B)
      → let (taken, given, b') = run d buffer_copy cs b in content b ++ taken ≡ given ++ content b'
  unfolding run
  run-fifo [] b = append-nil (content b)
  run-fifo (c ∷ cs) b =
      let (taken, given, b') = step d buffer_copy c b in
      let (taken', given', b'') = run d buffer_copy cs b' in
      sym (append_assoc (content b) taken taken')
      ∙ ap (λ t. t ++ taken') (step-fifo c b)
      ∙ append_assoc given (content b') taken'
      ∙ ap (λ t. given ++ t) (run-fifo cs b')
      ∙ sym (append_assoc given given' (content b''))
