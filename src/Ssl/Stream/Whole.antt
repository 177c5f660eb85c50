-- ===== src/Ssl/Stream/Whole.antt =====
-- `write` of src/neo/io/write.hpp over a TLS stream of src/neo/io/openssl/stream.hpp.
use mathlib.Core.Option
use neo_io.Prelude.{ℕ, ◌<◌, ◌/◌, false, List, int_mod, length}
use neo_io.Transfer.{TransferResult, IsTransferResult, no_error, BasicTransferResult}
use neo_io.IoOp.{Stream}
use neo_io.IoOp.Laws.{Spans, IsView}
use neo_io.Buffers.{DynbufIo, Sink, ReadSome}
use neo_io.Buffers.Laws.{IsDynbufIo}
use neo_io.Buffers.Output.{IsSink}
use neo_io.Buffers.Input.{IsSource}
use neo_io.Ssl.Stream.{TlsCalls, TlsStream, write_some}
use neo_io.Ssl.Stream.CutOff.{WriteCutOff}
use neo_io.Ssl.Stream.Output.{IsBio}
use neo_io.Ssl.Stream.Input.{TakesInput}
use neo_io.Ssl.Stream.Duplex.{IsDuplex}
use neo_io.Ssl.Stream.Proceeds.{Proceeds, HasErrors, AnswersTls, WritesTls, rounds_to_come}

module _ {R X B C P S : Type 0} ⦃t : TransferResult R⦄ (c : TlsCalls X) (d : DynbufIo B)
    (sink : Sink R C P S) (inner_read : ReadSome R S) (write_fuel flush_fuel : ℕ)
    (rounds : TlsStream X B S → ℕ) where
  -- A TLS stream as a stream over parts of one buffer, with fuel for `rounds` rounds of each call. A
  -- call that runs out of it counts as one that moves nothing.
  abbrev pub tls_stream :
      {Q : Type 0} → (Q → List ℕ) → Stream BasicTransferResult Q (TlsStream X B S)
  tls_stream view = record {
    some_part = λ p w.
        Option.get_or (write_some c d sink inner_read write_fuel flush_fuel (rounds w) (view p) w)
          (record { bytes_transferred = 0; ec = no_error }, w);
    vectored = false;
  }

module _ {R X B C P S : Type 0} ⦃t : TransferResult R⦄ {v : Spans C P} {c : TlsCalls X}
    {d : DynbufIo B} {content staged : B → List ℕ} {sent incoming : S → List ℕ}
    {waiting fed : X → List ℕ} {sink : Sink R C P S} {inner_read : ReadSome R S}
    {cap write_fuel flush_fuel limit : ℕ} {owes : X → ℕ} {accepted : X → List ℕ}
    (rl : IsTransferResult t) (errors : HasErrors t) (dl : IsDynbufIo d content staged)
    (sl : IsSink v sent sink) (il : IsSource incoming inner_read) (bl : IsBio c waiting cap)
    (tl : TakesInput c fed) (du : IsDuplex c sink inner_read waiting fed sent incoming)
    (pl : Proceeds c owes limit) (al : AnswersTls c) (small : cap < int_mod / 2)
    (enough : cap < write_fuel) (wl : WritesTls c owes accepted) (full : cap < flush_fuel) where
  module _ {D Q : Type 0} {u : Spans D Q} {src : List ℕ} {view : Q → List ℕ}
      (vl : IsView u src view) (fits : length src < int_mod / 2) where
    abbrev stream : Stream BasicTransferResult Q (TlsStream X B S)
    stream =
        tls_stream c d sink inner_read write_fuel flush_fuel
          (rounds_to_come content incoming limit owes) view

    -- The write of some part was cut off.
    abbrev pub IsCut : TlsStream X B S → Type 0
    IsCut w = (p : Q) × WriteCutOff c d sink inner_read write_fuel flush_fuel (view p) w
