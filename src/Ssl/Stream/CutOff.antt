-- ===== src/Ssl/Stream/CutOff.antt =====
-- How OpenSSL reports to src/neo/io/openssl/stream.hpp that a connection has ended without a closing
-- alert.
use neo_io.Prelude.{ℕ, List}
use neo_io.Transfer.{TransferResult}
use neo_io.Buffers.{DynbufIo, Sink, ReadSome}
use neo_io.Ssl.Engine.{read_fn, write_fn, connect_fn, shutdown_fn}
use neo_io.Ssl.Engine.OneShot.{IsCutOff}
use neo_io.Ssl.Engine.Reads
use neo_io.Ssl.Engine.Writes
use neo_io.Ssl.Stream.{TlsCalls, TlsStream, calls, ports}

-- The last call of an operation failed with SSL_ERROR_SYSCALL while `errno` was 0, and the stream is
-- as the flush after it left it.
module _ {R X B C P S : Type 0} ⦃t : TransferResult R⦄ (c : TlsCalls X) (d : DynbufIo B)
    (sink : Sink R C P S) (inner_read : ReadSome R S) (write_fuel flush_fuel : ℕ) where
  abbrev pub ReadCutOff : ℕ → TlsStream X B S → Type 0
  ReadCutOff size w =
      IsCutOff (calls c d) (ports d sink write_fuel inner_read) (read_fn (calls c d)) flush_fuel
        (Reads.start size) w

  abbrev pub WriteCutOff : List ℕ → TlsStream X B S → Type 0
  WriteCutOff src w =
      IsCutOff (calls c d) (ports d sink write_fuel inner_read) (write_fn (calls c d)) flush_fuel
        (Writes.start src) w

  abbrev pub ConnectCutOff : TlsStream X B S → Type 0
  ConnectCutOff w =
      IsCutOff (calls c d) (ports d sink write_fuel inner_read) (connect_fn (calls c d)) flush_fuel
        tt w

  abbrev pub ShutdownCutOff : TlsStream X B S → Type 0
  ShutdownCutOff w =
      IsCutOff (calls c d) (ports d sink write_fuel inner_read) (shutdown_fn (calls c d)) flush_fuel
        tt w
