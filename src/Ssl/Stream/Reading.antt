-- ===== src/Ssl/Stream/Reading.antt =====
-- `read` of src/neo/io/read.hpp from a TLS stream of src/neo/io/openssl/stream.hpp.
use mathlib.Core.Option
use neo_io.Prelude.{ℕ, ◌<◌, ◌/◌, false, List, [], int_mod}
use neo_io.Transfer.{TransferResult, IsTransferResult, no_error, BasicTransferResult}
use neo_io.IoOp.{Stream}
use neo_io.IoOp.Laws.{Spans}
use neo_io.IoOp.Placing.{stored_at}
use neo_io.Buffers.{DynbufIo, Sink, ReadSome}
use neo_io.Buffers.Laws.{IsDynbufIo}
use neo_io.Buffers.Output.{IsSink}
use neo_io.Buffers.Input.{IsSource}
use neo_io.Ssl.Stream.{TlsCalls, TlsStream, read_some}
use neo_io.Ssl.Stream.CutOff.{ReadCutOff}
use neo_io.Ssl.Stream.Output.{IsBio}
use neo_io.Ssl.Stream.Input.{TakesInput}
use neo_io.Ssl.Stream.Duplex.{IsDuplex}
use neo_io.Ssl.Stream.Proceeds.{Proceeds, HasErrors, AnswersTls, ReadsTls, rounds_to_come}

-- The destination of a read, and the TLS stream that is read from.
pub record TlsReceiver (X B S : Type 0) : Type 0 where
  pub memory : List ℕ
  pub session : TlsStream X B S

module _ {R X B C P S : Type 0} ⦃t : TransferResult R⦄ (c : TlsCalls X) (d : DynbufIo B)
    (sink : Sink R C P S) (inner_read : ReadSome R S) (write_fuel flush_fuel : ℕ)
    (rounds : TlsStream X B S → ℕ) {D Q : Type 0} (u : Spans D Q) where
  -- A TLS stream as a stream over parts of a destination, with fuel for `rounds` rounds of each
  -- call. A call that runs out of it counts as one that moves nothing.
  abbrev pub tls_source : Stream BasicTransferResult Q (TlsReceiver X B S)
  tls_source = record {
    some_part = λ p s.
        let (r, bytes, w) =
          Option.get_or
            (read_some c d sink inner_read write_fuel flush_fuel (rounds s.session) (u.len p)
              s.session)
            (record { bytes_transferred = 0; ec = no_error }, [], s.session) in
        (r, record { memory = stored_at (u.start p) bytes s.memory; session = w });
    vectored = false;
  }

module _ {R X B C P S : Type 0} ⦃t : TransferResult R⦄ {v : Spans C P} {c : TlsCalls X}
    {d : DynbufIo B} {content staged : B → List ℕ} {sent incoming : S → List ℕ}
    {waiting fed : X → List ℕ} {sink : Sink R C P S} {inner_read : ReadSome R S}
    {cap write_fuel flush_fuel limit : ℕ} {owes : X → ℕ} {delivered : X → List ℕ}
    (rl : IsTransferResult t) (errors : HasErrors t) (dl : IsDynbufIo d content staged)
    (sl : IsSink v sent sink) (il : IsSource incoming inner_read) (bl : IsBio c waiting cap)
    (tl : TakesInput c fed) (du : IsDuplex c sink inner_read waiting fed sent incoming)
    (pl : Proceeds c owes limit) (al : AnswersTls c) (small : cap < int_mod / 2)
    (enough : cap < write_fuel) (reads : ReadsTls c owes delivered) (full : cap < flush_fuel) where
  module _ {D Q : Type 0} (u : Spans D Q) (total : ℕ) (fits : total < int_mod / 2) where
    abbrev source : Stream BasicTransferResult Q (TlsReceiver X B S)
    source =
        tls_source c d sink inner_read write_fuel flush_fuel
          (rounds_to_come content incoming limit owes) u

    -- The read into some part was cut off.
    abbrev pub IsCut : TlsReceiver X B S → Type 0
    IsCut s = (p : Q) × ReadCutOff c d sink inner_read write_fuel flush_fuel (u.len p) s.session
