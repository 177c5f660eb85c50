-- ===== src/Ssl/Stream.antt =====
-- src/neo/io/openssl/stream.hpp with the template `engine` of src/neo/io/openssl/engine.hpp: an
-- engine whose input and output are two `stream_io_buffers` over one inner stream. OpenSSL's calls on
-- an SSL object enter as an interface, and the default buffers of `stream_io_buffers` are one region,
-- which `buffers_consumer` gives whole.
pub mod Output
pub mod CutOff
pub mod Input
pub mod Duplex
pub mod Proceeds
pub mod Progress
pub mod Stable
pub mod Session
pub mod Whole
pub mod Reading
pub mod Descriptor
pub mod Emptying
pub mod Closing
pub mod Throwing
use mathlib.Core.Option
use neo_io.Prelude.{ℕ, Bool, Option, List, length, take, min}
use neo_io.Transfer.{TransferResult, ErrorCode, BasicTransferResult, Outcome, returned, thrown}
use neo_io.Buffers.{DynbufIo, Sink, ReadSome, IoBuffers, commit, next}
use neo_io.Ssl.Calls.{SslError, OpenSsl, Ports}
use neo_io.Ssl.Engine

-- The calls. `bio_read` gives the bytes that it stored, and `bio_write` is given those to take.
pub record TlsCalls (X : Type 0) : Type 0 where
  pub err_clear_error : X → X
  pub ssl_get_error : ℕ → X → SslError
  pub err_get_error : X → ℕ × X
  pub last_error : X → ℕ
  pub ssl_connect : X → ℕ × X
  pub ssl_shutdown : X → ℕ × X
  pub ssl_read : ℕ → X → ℕ × List ℕ × X
  pub ssl_write : List ℕ → ℕ → X → ℕ × X
  pub ssl_want_read : X → Bool
  pub bio_ctrl_pending : X → ℕ
  pub bio_read : ℕ → X → ℕ × List ℕ × X
  pub bio_write : List ℕ → X → ℕ × X

-- A `ssl::stream`: the SSL object with its BIO pair, the inner stream, and the buffers of the
-- engine's input and output. Both refer to the inner stream, as `_rebind_io` sees to.
pub record TlsStream (X B S : Type 0) : Type 0 where
  pub tls : X
  pub inner : S
  pub in_bufs : B
  pub out_bufs : B

-- The engine's output and input as `stream_io_buffers`, and what a call of one leaves behind.
module _ {X B S : Type 0} where
  abbrev pub output : TlsStream X B S → IoBuffers B S
  output w = record { io_bufs = w.out_bufs; strm = w.inner }

  abbrev pub set_output : TlsStream X B S → IoBuffers B S → TlsStream X B S
  set_output w x = record w { out_bufs = x.io_bufs; inner = x.strm }

  abbrev pub input : TlsStream X B S → IoBuffers B S
  input w = record { io_bufs = w.in_bufs; strm = w.inner }

  abbrev pub set_input : TlsStream X B S → IoBuffers B S → TlsStream X B S
  set_input w x = record w { in_bufs = x.io_bufs; inner = x.strm }

  abbrev pub set_tls : TlsStream X B S → X → TlsStream X B S
  set_tls w x = record w { tls = x }

-- What the input asks of its stream at once.
abbrev pub input_size : ℕ
input_size = 1024

module _ {X B S : Type 0} (c : TlsCalls X) (d : DynbufIo B) where
  -- The calls of OpenSSL by the engine: `BIO_read` stores into the region that the output has
  -- prepared, and `BIO_write` takes from the bytes that the input shows.
  abbrev pub calls : OpenSsl (TlsStream X B S)
  calls = record {
    err_clear_error = λ w. set_tls w (c.err_clear_error w.tls);
    ssl_get_error = λ ret w. c.ssl_get_error ret w.tls;
    err_get_error = λ w. let (code, x) = c.err_get_error w.tls in (code, set_tls w x);
    last_error = λ w. c.last_error w.tls;
    ssl_connect = λ w. let (ret, x) = c.ssl_connect w.tls in (ret, set_tls w x);
    ssl_shutdown = λ w. let (ret, x) = c.ssl_shutdown w.tls in (ret, set_tls w x);
    ssl_read = λ n w. let (ret, bytes, x) = c.ssl_read n w.tls in (ret, bytes, set_tls w x);
    ssl_write = λ bytes n w. let (ret, x) = c.ssl_write bytes n w.tls in (ret, set_tls w x);
    ssl_want_read = λ w. c.ssl_want_read w.tls;
    bio_ctrl_pending = λ w. c.bio_ctrl_pending w.tls;
    bio_read = λ n w.
        let (ret, bytes, x) = c.bio_read n w.tls in
        (ret, record w { tls = x; out_bufs = d.store bytes w.out_bufs });
    bio_write = λ n w.
        let (ret, x) = c.bio_write (take n (d.next input_size w.in_bufs)) w.tls in
        (ret, set_tls w x);
  }

module _ {X B S : Type 0} (d : DynbufIo B) where
  -- `engine::do_next_output`.
  unfoldable pub do_next_output : ℕ → TlsStream X B S → Outcome ℕ × TlsStream X B S
  do_next_output n w =
      let bufs = d.prepare n w.out_bufs in
      (returned (min n (d.prepared bufs)), record w { out_bufs = bufs })

  -- `engine::do_consume_input`.
  unfoldable pub do_consume_input : ℕ → TlsStream X B S → TlsStream X B S
  do_consume_input n w = record w { in_bufs = d.consume n w.in_bufs }

-- `engine::do_next_input`, by what `next` did.
unfoldable pub next_size :
    {X B S : Type 0}
    → TlsStream X B S
    → Outcome (List ℕ) × IoBuffers B S
    → Outcome ℕ × TlsStream X B S
next_size w (returned bytes, x) = (returned (min input_size (length bytes)), set_input w x)
next_size w (thrown e, x) = (thrown e, set_input w x)

module _ {R X B S : Type 0} ⦃t : TransferResult R⦄ (d : DynbufIo B) where
  -- `engine::do_commit_output`; the fuel is for the loop of `write`.
  unfoldable pub do_commit_output :
      {C P : Type 0}
      → Sink R C P S
      → ℕ
      → ℕ
      → TlsStream X B S
      → Option (Outcome (Unit {0}) × TlsStream X B S)
  do_commit_output sink fuel n w =
      Option.map (λ r. (r.0, set_output w r.1)) (commit d sink fuel n (output w))

  unfoldable pub do_next_input : ReadSome R S → TlsStream X B S → Outcome ℕ × TlsStream X B S
  unfolding next_size
  do_next_input inner_read w = next_size w (next d inner_read input_size (input w))

  abbrev pub ports : {C P : Type 0} → Sink R C P S → ℕ → ReadSome R S → Ports (TlsStream X B S)
  ports sink fuel inner_read = record {
    do_next_output = do_next_output d;
    do_commit_output = do_commit_output sink fuel;
    do_next_input = do_next_input inner_read;
    do_consume_input = do_consume_input d;
  }

-- The operations of the stream, which are its engine's. The fuels are for the write of a commit, for
-- a flush and for the rounds of the engine.
module _ {R X B C P S : Type 0} ⦃t : TransferResult R⦄ (c : TlsCalls X) (d : DynbufIo B)
    (sink : Sink R C P S) (inner_read : ReadSome R S) (write_fuel flush_fuel fuel : ℕ) where
  pub connect : TlsStream X B S → Option (ErrorCode × TlsStream X B S)
  connect w = Engine.connect (calls c d) (ports d sink write_fuel inner_read) flush_fuel fuel w

  pub shutdown : TlsStream X B S → Option (ErrorCode × TlsStream X B S)
  shutdown w = Engine.shutdown (calls c d) (ports d sink write_fuel inner_read) flush_fuel fuel w

  pub write_some : List ℕ → TlsStream X B S → Option (BasicTransferResult × TlsStream X B S)
  write_some cbuf w =
      Engine.write_some (calls c d) (ports d sink write_fuel inner_read) flush_fuel fuel cbuf w

  pub read_some : ℕ → TlsStream X B S → Option (BasicTransferResult × List ℕ × TlsStream X B S)
  read_some size w =
      Engine.read_some (calls c d) (ports d sink write_fuel inner_read) flush_fuel fuel size w
