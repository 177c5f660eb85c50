-- ===== src/Dynbuf/StringTrip.antt =====
-- src/neo/io/stream/string.hpp: what is written into a string stream is read back from it.
use neo_io.Prelude.{
  ℕ, ◌<◌, ◌≤◌, ◌≡◌, ap, ◌∙◌, inl, inr, true, false, some, List, [], ◌++◌, arith, size_mod, length,
  take, drop, take-take, take-eq_of_le, drop-eq_of_le,
}
use neo_io.Transfer.{BasicTransferResult, basic_transfer_result, basic-IsTransferResult, is_error}
use neo_io.IoOp.{Consumers, Stream, write_all}
use neo_io.IoOp.Laws.{Spans, AreConsumers, IsView, length-view}
use neo_io.IoOp.Conditions.{MakesProgress}
use neo_io.IoOp.Sending.{IsWriter, write_all-sends}
use neo_io.IoOp.Faultless.{faultless_write}
use neo_io.Dynbuf.{
  DynamicBuffer, BufferCopy, write_some, read_some, string_write_some, string_read_some,
}
use neo_io.Dynbuf.Laws.{IsDynamicBuffer, IsBufferCopy}
use neo_io.Dynbuf.Fifo.{write_some-appends, read_some-takes}
use neo_io.Dynbuf.Writing.{GrowsFully}

-- `as_dynamic_buffer` of a string is a buffer of the string's bytes, and `string_of` leads back.
pub record IsStringBuffer {B T : Type 0} (content : B → List ℕ) (bytes : T → List ℕ)
    (as_dynamic_buffer : T → B) (string_of : B → T) : Type 0 where
  pub content-as_dynamic_buffer : (s : T) → content (as_dynamic_buffer s) ≡ bytes s
  pub bytes-string_of : (b : B) → bytes (string_of b) ≡ content b

-- A string stream as a stream over parts of what is written into it.
abbrev pub string_stream :
    {B T P : Type 0}
    → DynamicBuffer B
    → (T → B)
    → (B → T)
    → (P → List ℕ)
    → Stream BasicTransferResult P T
string_stream d as_dynamic_buffer string_of view = record {
  some_part = λ p s. string_write_some d as_dynamic_buffer string_of (view p) s;
  vectored = true;
}

module _ {B T : Type 0} {d : DynamicBuffer B} {content : B → List ℕ} {bytes : T → List ℕ}
    {as_dynamic_buffer : T → B} {string_of : B → T} (dl : IsDynamicBuffer d content)
    (sl : IsStringBuffer content bytes as_dynamic_buffer string_of) where
  -- A write of some bytes appends as many of them as it reports, and has no error.
  string_write_some-appends :
      (src : List ℕ) (s : T)
      → let (r, s') = string_write_some d as_dynamic_buffer string_of src s in
        (bytes s' ≡ bytes s ++ take r.bytes_transferred src)
        × (r.bytes_transferred ≡ (d.grow (length src) (as_dynamic_buffer s)).0.size)
        × (r.bytes_transferred ≤ length src)
        × (is_error r.ec ≡ false)
  unfolding string_write_some
  string_write_some-appends src s =
      let b : B = as_dynamic_buffer s in
      let (e, n, le, clean) = write_some-appends dl src b in
      (
        sl.bytes-string_of (write_some d src b).1
            ∙ e
            ∙ ap (λ x. x ++ take (write_some d src b).0.bytes_transferred src)
                (sl.content-as_dynamic_buffer s),
        n,
        le,
        ap is_error clean,
      )

  module _ {C P : Type 0} {v : Spans C P} {src : List ℕ} {view : P → List ℕ}
      (vl : IsView v src view) where
    abbrev stream : Stream BasicTransferResult P T
    stream = string_stream d as_dynamic_buffer string_of view

    string-IsWriter : IsWriter basic_transfer_result v src bytes stream
    string-IsWriter = record {
      write-le = λ p s part.
          let (_, _, le, _) = string_write_some-appends (view p) s in
          omega (arith, le, length-view vl p part.1);
      write-sent = λ p s part.
          let (e, _, le, _) = string_write_some-appends (view p) s in
          e
          ∙ ap (λ x. bytes s ++ x)
              (ap (take _) (vl.view-in_range p part.1)
                ∙ take-take _ (v.len p) (drop (v.start p) src)
                    (omega (arith, le, length-view vl p part.1)));
    }

    string-MakesProgress : GrowsFully d → MakesProgress v (length src) stream.some_part
    string-MakesProgress full p s part z =
        let (_, n, _, _) = string_write_some-appends (view p) s in
        absurd (
          omega (
            arith,
            n,
            part.0,
            full (length (view p)) (as_dynamic_buffer s),
            length-view vl p part.1,
            z,
          ))

    -- `write` of a whole source appends all of it to the string.
    string_write_all-appends :
        {cs : Consumers C P} (fuel : ℕ) (bufs : C) (s : T)
        → length src < size_mod
        → length src < fuel
        → AreConsumers v (length src) cs
        → v.pos bufs ≡ 0
        → GrowsFully d
        → (w : BasicTransferResult) × (s' : T) × (write_all fuel cs stream bufs s ≡ some (w, s'))
          × (w.bytes_transferred ≡ length src)
          × (bytes s' ≡ bytes s ++ src)
    string_write_all-appends {cs} fuel bufs s small enough cl at_start full =
        let (w, s', e, _, _, end) =
          write_all-sends basic-IsTransferResult small cl string-IsWriter fuel bufs s enough
            at_start (string-MakesProgress full) in
        let fine : is_error w.ec ≡ false =
          faultless_write basic-IsTransferResult cs stream
            (λ p s. (string_write_some-appends (view p) s).3) fuel bufs s w s' e in
        elim end [ inl bad ↦ absurd (cc (bad, fine)) | inr (all, holds) ↦ (w, s', e, all, holds) ]

    -- What `write` puts into an empty string stream, less than 2^64 bytes and with more fuel than
    -- bytes, and one `read_some` then takes into a destination that is large enough arrives at the
    -- destination's front, the rest of which is unchanged; both report all bytes, and the string is
    -- empty again. The string's buffer makes the room it is asked for.
    pub string_stream_roundtrip :
        {cs : Consumers C P} {buffer_copy : BufferCopy} (fuel : ℕ) (bufs : C) (dest : List ℕ)
        (s : T)
        → length src < size_mod
        → length src < fuel
        → AreConsumers v (length src) cs
        → v.pos bufs ≡ 0
        → IsBufferCopy buffer_copy
        → GrowsFully d
        → bytes s ≡ []
        → length src ≤ length dest
        → (w : BasicTransferResult) × (s' : T) × (write_all fuel cs stream bufs s ≡ some (w, s'))
          × (w.bytes_transferred ≡ length src)
          × let (r, dest', s'') =
              string_read_some d as_dynamic_buffer string_of buffer_copy dest s' in
            (r.bytes_transferred ≡ length src)
            × (dest' ≡ src ++ drop (length src) dest)
            × (bytes s'' ≡ [])
    unfolding string_read_some
    string_stream_roundtrip {buffer_copy} fuel bufs dest s small enough cl at_start bl full empty
          room =
        let (w, s', e, all, holds) =
          string_write_all-appends fuel bufs s small enough cl at_start full in
        let b : B = as_dynamic_buffer s' in
        let same : content b ≡ src =
          sl.content-as_dynamic_buffer s' ∙ holds ∙ ap (λ x. x ++ src) empty in
        let (n, stored, left, _) = read_some-takes dl buffer_copy dest b bl in
        let n' : (read_some d buffer_copy dest b).0.bytes_transferred ≡ length src =
          omega (arith, n, ap length same, room) in
        (
          w,
          s',
          e,
          all,
          (
            n',
            stored ∙ (rw (n', same, take-eq_of_le (length src) src (omega arith))),
            sl.bytes-string_of (read_some d buffer_copy dest b).2
                ∙ left
                ∙ (rw (n', same) (drop-eq_of_le (length src) src (omega arith))),
          ),
        )
