-- ===== src/Ssl/Stream/Descriptor.antt =====
-- A TLS stream of src/neo/io/openssl/stream.hpp whose inner stream is a descriptor of
-- src/neo/io/stream/posix.hpp, like the socket of a connection.
use neo_io.Prelude.{ℕ, ◌<◌, ◌/◌, ◌≡◌, some, List, [], ◌++◌, int_mod, length}
use neo_io.Transfer.{native_transfer_result, native-IsTransferResult, Outcome, returned}
use neo_io.IoOp.{Consumers}
use neo_io.IoOp.Laws.{Spans, AreConsumers}
use neo_io.Buffers.{DynbufIo}
use neo_io.Buffers.Laws.{IsDynbufIo}
use neo_io.Posix.{Buffer, IoVec, SysCall}
use neo_io.Posix.Overloads.{Source, DoReadv}
use neo_io.Posix.Writing.{WritesFile, Holds}
use neo_io.Posix.Inner.{
  InMemory, fd_sink, fd_source, ReadsFile, TwoWays, fd-IsSink, fd-IsSource, incoming-fd_sink,
  written-fd_source,
}
use neo_io.Ssl.Engine.{Errc, no_message, flush_io}
use neo_io.Ssl.Stream.{TlsCalls, TlsStream, calls, ports}
use neo_io.Ssl.Stream.Output.{IsBio}
use neo_io.Ssl.Stream.Input.{TakesInput}
use neo_io.Ssl.Stream.Duplex.{stream_flush_io-moves}

-- The two ways of a BIO pair do not mix.
pub record IsBioPair {X : Type 0} (c : TlsCalls X) (waiting fed : X → List ℕ) : Type 0 where
  pub fed-bio_read : (n : ℕ) (x : X) → fed (c.bio_read n x).2 ≡ fed x
  pub waiting-bio_write : (bytes : List ℕ) (x : X) → waiting (c.bio_write bytes x).1 ≡ waiting x

module _ {X B C P W : Type 0} (c : TlsCalls X) (d : DynbufIo B) {content staged : B → List ℕ}
    {waiting fed : X → List ℕ} {written incoming : W → List ℕ} {v : Spans C P} {cap write_fuel : ℕ}
    (sys_write : InMemory Buffer W) (sys_writev : InMemory (List IoVec) W)
    (sys_read : SysCall Buffer (List ℕ × W)) (do_readv : DoReadv (List ℕ × W)) (fd : ℕ)
    (arr : List IoVec) (memory : List ℕ → IoVec → List ℕ) (argument : P → Source)
    (consumers : List ℕ → Consumers C P) (begins : List ℕ → C) where
  -- One flush of a TLS stream over a descriptor whose system behaves as documented and keeps its
  -- two ways apart, with OpenSSL as documented, with fuel for more bytes than the BIO pair holds,
  -- consumers that walk the buffers and parts that refer to their bytes, an output buffer that
  -- holds nothing and whose region is never empty: it returns. What the system was given, what the
  -- output buffer holds and what waits in the pair stay, in order, the same bytes, and so do those
  -- that the pair was fed, that the input buffer holds and that come in; also if a system call
  -- fails. If it throws nothing, the system was given all that waited; if it reports that there is
  -- no message, the input buffer is empty.
  pub descriptor_flush_io-moves :
      (fuel : ℕ) (w : TlsStream X B W)
      → IsDynbufIo d content staged
      → IsBio c waiting cap
      → TakesInput c fed
      → IsBioPair c waiting fed
      → ((src : List ℕ)
          → WritesFile (sys_write (memory src)) (sys_writev (memory src)) fd (memory src) written)
      → ((src : List ℕ) → Holds v (memory src) arr argument src)
      → ((src : List ℕ) → AreConsumers v (length src) (consumers src))
      → ((src : List ℕ) → v.pos (begins src) ≡ 0)
      → ReadsFile sys_read fd incoming
      → TwoWays sys_writev sys_read fd written incoming
      → cap < int_mod / 2
      → cap < write_fuel
      → cap < fuel
      → content w.out_bufs ≡ []
      → ((n : ℕ) (b : B) → 0 < n → 0 < length (staged (d.prepare n b)))
      → (out : Outcome Errc) × (w' : TlsStream X B W) × (flush_io
            (calls c d)
            (ports d
              (fd_sink sys_write sys_writev fd arr memory argument consumers begins)
              write_fuel
              (fd_source sys_read do_readv fd))
            fuel
            w
          ≡ some (out, w'))
        × (written w'.inner ++ (content w'.out_bufs ++ waiting w'.tls)
            ≡ written w.inner ++ waiting w.tls)
        × (fed w'.tls ++ (content w'.in_bufs ++ incoming w'.inner)
            ≡ fed w.tls ++ (content w.in_bufs ++ incoming w.inner))
        × ((e : Errc) → out ≡ returned e → written w'.inner ≡ written w.inner ++ waiting w.tls)
        × (out ≡ returned no_message → content w'.in_bufs ≡ [])
  descriptor_flush_io-moves fuel w dl bl tl pair wl held walks starts rl ways small enough full
        empty rooms =
      stream_flush_io-moves native-IsTransferResult dl
        (fd-IsSink sys_write sys_writev wl held walks starts) (fd-IsSource do_readv rl) bl tl
        (record {
          fed-bio_read = pair.fed-bio_read;
          waiting-bio_write = pair.waiting-bio_write;
          incoming-write = λ src p s.
              incoming-fd_sink sys_write ways arr memory argument consumers begins src p s (wl src);
          sent-read = λ n s. written-fd_source ways do_readv n s;
        })
        small enough fuel w full empty rooms
