-- ===== src/Tests/TlsDescriptors.antt =====
-- A TLS stream over a descriptor of a system that moves two bytes at a time.
use neo_io.Prelude.{
  ℕ, min, ◌≡◌, refl, ap, ◌∙◌, some, List, [], ◌∷◌, ◌++◌, append-nil, arith, length, take, drop,
  take-append-drop, take-take, sym, inr, length-take, assert_failed,
}
use neo_io.Transfer.{Outcome, returned, native_transfer_result}
use neo_io.IoOp.Laws.{length-view, IsView}
use neo_io.Posix.{Buffer, IoVec, iovec_of, SysCall}
use neo_io.Posix.Overloads.{Source, mutable_buffer, DoReadv}
use neo_io.Posix.Writing.{gather, all_bytes, WritesFile, Holds}
use neo_io.Posix.Inner.{InMemory, fd_sink, fd_source, ReadsFile, TwoWays}
use neo_io.Ssl.Engine.{Errc, no_message, flush_io}
use neo_io.Ssl.Stream.{TlsStream, calls, ports}
use neo_io.Ssl.Stream.Descriptor.{IsBioPair, descriptor_flush_io-moves}
use neo_io.Tests.Flat.{Part, spans, flat, flat-AreConsumers, length-zeros}
use neo_io.Tests.Buffered.{Staged, list_io, list-IsDynbufIo}
use neo_io.Tests.TlsStreams.{
  Wire, wire_calls, held, Connection, open_stream, wire-IsBio, wire-TakesInput,
}

-- What was written to the socket, and what comes in.
abbrev sent_at_once : List ℕ → ℕ
sent_at_once bytes = min 2 (length bytes)

abbrev socket_writev : InMemory (List IoVec) Connection
socket_writev region fd iov w = (
  sent_at_once (gather region iov),
  0,
  (w.0 ++ take (sent_at_once (gather region iov)) (gather region iov), w.1),
)

abbrev socket_write : InMemory Buffer Connection
socket_write region fd buf w = socket_writev region fd (iovec_of buf ∷ []) w

abbrev got_at_once : ℕ → List ℕ → ℕ
got_at_once size bytes = min size (sent_at_once bytes)

abbrev socket_read : SysCall Buffer (List ℕ × Connection)
socket_read fd buf s =
    let n = got_at_once buf.size s.1.1 in (n, 0, (take n s.1.1, (s.1.0, drop n s.1.1)))

abbrev no_readv : DoReadv (List ℕ × Connection)
no_readv arr n w = (assert_failed, w)

-- A source lies at address 0.
abbrev in_memory : List ℕ → IoVec → List ℕ
in_memory src v = take v.iov_len (drop v.iov_base src)

abbrev one_area : Part → Source
one_area p = mutable_buffer (record { address = p.start; size = p.len })

socket-WritesFile :
    (src : List ℕ)
    → WritesFile
        (socket_write (in_memory src))
        (socket_writev (in_memory src))
        5
        (in_memory src)
        (λ w. w.0)
socket-WritesFile src = record {
  alike = λ buf w. refl;
  counts = λ iov w. inr (omega arith, omega arith);
  failure-written = λ iov w h. absurd (omega (arith, h));
  success-written = λ iov w h. refl;
  progress = λ iov w h z. absurd (omega (arith, h, z));
}

area-IsView : (src : List ℕ) → IsView spans src (λ p. all_bytes (in_memory src) (one_area p))
area-IsView src = record { view-in_range = λ p h. append-nil (take p.len (drop p.start src)) }

area-Holds : (src : List ℕ) → Holds spans (in_memory src) [] one_area src
area-Holds src = record {
  views = area-IsView src;
  reaches = λ p part. omega (arith, part.0, length-view (area-IsView src) p part.1);
}

socket-ReadsFile : ReadsFile socket_read 5 (λ w. w.1)
socket-ReadsFile = record {
  counts = λ b w. inr (omega arith, omega arith);
  failure-incoming = λ b w h. absurd (omega (arith, h));
  stored-le = λ b w h. omega (arith, length-take (got_at_once b.size w.1) w.1);
  success-incoming = λ b w h. whole (got_at_once b.size w.1) w.1;
}
  where
    whole : (n : ℕ) (xs : List ℕ) → xs ≡ take n (take n xs) ++ drop n xs
    whole n xs =
        sym (take-append-drop n xs)
        ∙ ap (λ t. t ++ drop n xs) (sym (take-take n n xs (omega arith)))

socket-TwoWays : TwoWays socket_writev socket_read 5 (λ w. w.0) (λ w. w.1)
socket-TwoWays = record {
  incoming-sys_writev = λ region iov w. refl;
  written-sys_read = λ b w. refl;
}

wire-IsBioPair : IsBioPair wire_calls held (λ x. x.got)
wire-IsBioPair = record { fed-bio_read = λ n x. refl; waiting-bio_write = λ bytes x. refl }

descriptor_flush_io-moves_example :
    (out : Outcome Errc) × (w' : TlsStream Wire Staged Connection) × (flush_io
        (calls wire_calls list_io)
        (ports list_io
          (fd_sink socket_write socket_writev 5 [] in_memory one_area
            (λ src. flat (length src))
            (λ src. 0))
          17
          (fd_source socket_read no_readv 5))
        17
        open_stream
      ≡ some (out, w'))
    × (w'.inner.0 ++ (w'.out_bufs.content ++ held w'.tls) ≡ (9 ∷ []) ++ held open_stream.tls)
    × (w'.tls.got ++ (w'.in_bufs.content ++ w'.inner.1) ≡ [] ++ ((5 ∷ []) ++ (8 ∷ 7 ∷ 6 ∷ [])))
    × ((e : Errc) → out ≡ returned e → w'.inner.0 ≡ (9 ∷ []) ++ held open_stream.tls)
    × (out ≡ returned no_message → w'.in_bufs.content ≡ [])
descriptor_flush_io-moves_example =
    descriptor_flush_io-moves wire_calls list_io socket_write socket_writev socket_read no_readv 5
      [] in_memory one_area (λ src. flat (length src)) (λ src. 0) 17 open_stream list-IsDynbufIo
      wire-IsBio wire-TakesInput wire-IsBioPair socket-WritesFile area-Holds
      (λ src. flat-AreConsumers (length src)) (λ src. refl) socket-ReadsFile socket-TwoWays
      (omega arith) (omega arith) (omega arith) refl (λ n b h. omega (arith, h, length-zeros n))
