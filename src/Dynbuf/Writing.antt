-- ===== src/Dynbuf/Writing.antt =====
-- `write` of src/neo/io/write.hpp into the stream of src/neo/io/stream/dynbuf.hpp.
use neo_io.Prelude.{
  ℕ, ◌<◌, ◌≡◌, ap, ◌∙◌, inl, inr, true, false, some, List, ◌++◌, arith, size_mod, length, take,
  drop, take-take,
}
use neo_io.Transfer.{
  BasicTransferResult, basic_transfer_result, basic-IsTransferResult, is_error, transfer_errant,
}
use neo_io.IoOp.{Consumers, Stream, write_all}
use neo_io.IoOp.Laws.{Spans, AreConsumers, IsView, length-view}
use neo_io.IoOp.Conditions.{MakesProgress}
use neo_io.IoOp.Sending.{IsWriter, write_all-sends}
use neo_io.IoOp.Faultless.{faultless_write}
use neo_io.Dynbuf.{DynamicBuffer, write_some}
use neo_io.Dynbuf.Laws.{IsDynamicBuffer}
use neo_io.Dynbuf.Fifo.{write_some-appends}

-- A `dynbuf_stream` as a stream over parts.
abbrev pub dynbuf_stream :
    {B P : Type 0} → DynamicBuffer B → (P → List ℕ) → Stream BasicTransferResult P B
dynbuf_stream d view = record { some_part = λ p b. write_some d (view p) b; vectored = true }

-- A dynamic buffer that makes all the room it is asked for, like one over a string.
abbrev pub GrowsFully : {B : Type 0} → DynamicBuffer B → Type 0
GrowsFully {B} d = (n : ℕ) (b : B) → (d.grow n b).0.size ≡ n

module _ {B C P : Type 0} {d : DynamicBuffer B} {content : B → List ℕ} {v : Spans C P}
    {src : List ℕ} {view : P → List ℕ} (dl : IsDynamicBuffer d content)
    (vl : IsView v src view) where
  dynbuf-IsWriter : IsWriter basic_transfer_result v src content (dynbuf_stream d view)
  dynbuf-IsWriter = record {
    write-le = λ p b fits.
        let (_, _, le, _) = write_some-appends dl (view p) b in
        omega (arith, le, length-view vl p fits.1);
    write-sent = λ p b fits.
        let (e, _, le, _) = write_some-appends dl (view p) b in
        e
        ∙ ap (λ x. content b ++ take (write_some d (view p) b).0.bytes_transferred x)
            (vl.view-in_range p fits.1)
        ∙ ap (λ x. content b ++ x)
            (take-take _ (v.len p) (drop (v.start p) src)
              (omega (arith, le, length-view vl p fits.1)));
  }

  dynbuf-MakesProgress :
      GrowsFully d → MakesProgress v (length src) (dynbuf_stream d view).some_part
  dynbuf-MakesProgress full p b h z =
      let (_, n, _, _) = write_some-appends dl (view p) b in
      absurd (omega (arith, n, h.0, full (length (view p)) b, length-view vl p h.1))

  dynbuf_faultless :
      (p : P) (b : B) → transfer_errant ((dynbuf_stream d view).some_part p b).0 ≡ false
  dynbuf_faultless p b = let (_, _, _, e) = write_some-appends dl (view p) b in ap is_error e

  -- `write` of less than 2^64 bytes into a `dynbuf_stream` whose buffer makes the room it is asked
  -- for, with more fuel than bytes, returns without an error, reports all bytes and has appended
  -- them all to the buffer.
  pub write_all-appends :
      {cs : Consumers C P} (fuel : ℕ) (bufs : C) (b : B)
      → length src < size_mod
      → length src < fuel
      → AreConsumers v (length src) cs
      → v.pos bufs ≡ 0
      → GrowsFully d
      → (r : BasicTransferResult) × (b' : B) × (write_all fuel cs (dynbuf_stream d view) bufs b
          ≡ some (r, b'))
        × (is_error r.ec ≡ false)
        × (r.bytes_transferred ≡ length src)
        × (content b' ≡ content b ++ src)
  write_all-appends {cs} fuel bufs b small enough cl at_start full =
      let (r, b', e, _, _, end) =
        write_all-sends basic-IsTransferResult small cl dynbuf-IsWriter fuel bufs b enough at_start
          (dynbuf-MakesProgress full) in
      let fine : is_error r.ec ≡ false =
        faultless_write basic-IsTransferResult cs (dynbuf_stream d view) dynbuf_faultless fuel bufs
          b r b' e in
      elim end [
        | inl bad ↦ absurd (cc (bad, fine))
        | inr (all, sends) ↦ (r, b', e, fine, all, sends)
      ]
