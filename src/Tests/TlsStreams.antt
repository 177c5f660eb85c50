-- ===== src/Tests/TlsStreams.antt =====
-- The TLS stream over lists and a toy SSL object.
use neo_io.Prelude.{
  ℕ, min, ◌≡◌, refl, Bool, true, false, some, List, [], ◌∷◌, ◌++◌, ◌-◌, arith, ltb, if◌then◌else◌,
  int_mod, length, take, drop, length-take, length-drop, take-eq_of_le, append-nil,
}
use neo_io.Transfer.{
  BasicTransferResult, basic_transfer_result, basic-IsTransferResult, Outcome, returned,
}
use neo_io.Ssl.Engine.{Ports, Errc, no_message, error_none, error_want_read, positive, flush_io}
use neo_io.Ssl.Stream.{TlsCalls, TlsStream, calls, ports}
use neo_io.Ssl.Stream.Output.{IsBio}
use neo_io.Ssl.Stream.Input.{TakesInput}
use neo_io.Ssl.Stream.Duplex.{IsDuplex, stream_flush_io-moves}
use neo_io.Buffers.{Sink, ReadSome}
use neo_io.Buffers.Output.{IsSink}
use neo_io.Buffers.Input.{IsSource}
use neo_io.Tests.Flat.{Part, spans, flat, flat-AreConsumers, writer, length-zeros}
use neo_io.Tests.Buffered.{Staged, list_io, list-IsDynbufIo, list_source, list-IsSource}

-- What the SSL object has for the peer, all that it has made for it, what it has taken from it, the
-- plain text it was given and has given, and whether it has closed.
pub record Wire : Type 0 where
  pub raw : List ℕ
  pub made : List ℕ
  pub got : List ℕ
  pub plain : List ℕ
  pub given : List ℕ
  pub closed : Bool

-- The pair holds sixteen bytes at most, and takes three at a time.
abbrev pub held : Wire → List ℕ
held x = take 16 x.raw

-- The result of an operation that gives `n` once two bytes have come from the peer, and -1 before.
abbrev pub after_hello : Wire → ℕ → ℕ
after_hello x n = if ltb (length x.got) 2 then int_mod - 1 else n

abbrev pub wire_calls : TlsCalls Wire
wire_calls = record {
  err_clear_error = λ x. x;
  ssl_get_error = λ ret x. if positive ret then error_none else error_want_read;
  err_get_error = λ x. (0, x);
  last_error = λ x. 4;
  ssl_connect = λ x. (after_hello x 1, x);
  ssl_shutdown = λ x. (
    1,
    if ltb (length x.raw) 16
        then record x { raw = x.raw ++ (21 ∷ []); made = x.made ++ (21 ∷ []); closed = true }
        else record x { closed = true },
  );
  ssl_read = λ n x. (
    after_hello x (min n 1),
    7 ∷ [],
    if positive (after_hello x (min n 1))
        then record x { given = x.given ++ take (after_hello x (min n 1)) (7 ∷ []) }
        else x,
  );
  ssl_write = λ bytes n x. (
    after_hello x n,
    if positive (after_hello x n)
        then record x { plain = x.plain ++ take (after_hello x n) bytes }
        else x,
  );
  ssl_want_read = λ x. true;
  bio_ctrl_pending = λ x. length (held x);
  bio_read = λ n x. (
    min n (length (held x)),
    take (min n (length (held x))) (held x),
    record x { raw = drop (min n (length (held x))) (held x) },
  );
  bio_write = λ bytes x.
      (min 3 (length bytes), record x { got = x.got ++ take (min 3 (length bytes)) bytes });
}

pub wire-IsBio : IsBio wire_calls held 16
wire-IsBio = record {
  pending_lem = λ x. refl;
  waiting-cap = λ x. omega (arith, length-take 16 x.raw);
  read-positive = λ n x a b c. ground arith;
  read-le = λ n x h. omega arith;
  read-bytes = λ n x h. refl;
  read-le-waiting = λ n x h. omega arith;
  read-waiting = λ n x h.
      take-eq_of_le 16 _
        (omega (arith, length-take 16 x.raw, length-drop (min n (length (held x))) (held x)));
}

pub wire-TakesInput : TakesInput wire_calls (λ x. x.got)
wire-TakesInput = record {
  write-le = λ bytes x h. omega arith;
  fed-success = λ bytes x h. refl;
  fed-failure =
      λ bytes x h. let z : min 3 (length bytes) ≡ 0 = ground arith in rw z (append-nil x.got);
}

-- A connection: what it was given, and what it brings.
abbrev pub Connection : Type 0
Connection = List ℕ × List ℕ

abbrev pub connection_sink : Sink BasicTransferResult ℕ Part Connection
connection_sink = record {
  stream = λ src. record {
    some_part = λ p s. let (r, s') = (writer src).some_part p s.0 in (r, (s', s.1));
    vectored = false;
  };
  consumers = λ src. flat (length src);
  begins = λ src. 0;
}

pub connection-IsSink : IsSink spans (λ s. s.0) connection_sink
connection-IsSink = record {
  walks = λ src. flat-AreConsumers (length src);
  starts = λ src. refl;
  writes = λ src. record { write-le = λ p s h. omega arith; write-sent = λ p s h. refl };
  moves = λ src p s h z. absurd (omega (arith, h.0));
}

abbrev pub connection_source : ReadSome BasicTransferResult Connection
connection_source n s = let (r, bytes, s') = list_source n s.1 in (r, bytes, (s.0, s'))

pub connection-IsSource : IsSource (λ s. s.1) connection_source
connection-IsSource = record {
  read-le = λ n s. list-IsSource.read-le n s.1;
  length-read = λ n s. list-IsSource.length-read n s.1;
  read-incoming = λ n s. list-IsSource.read-incoming n s.1;
}

pub wire-IsDuplex :
    IsDuplex wire_calls connection_sink connection_source held (λ x. x.got) (λ s. s.0) (λ s. s.1)
wire-IsDuplex = record {
  fed-bio_read = λ n x. refl;
  waiting-bio_write = λ bytes x. refl;
  incoming-write = λ src part s. refl;
  sent-read = λ n s. refl;
}

-- Five bytes for the peer, and four from it of which one is buffered.
abbrev pub open_stream : TlsStream Wire Staged Connection
open_stream = record {
  tls = record {
    raw = 1 ∷ 2 ∷ 3 ∷ 4 ∷ 5 ∷ [];
    made = [];
    got = [];
    plain = [];
    given = [];
    closed = false;
  };
  inner = (9 ∷ [], 8 ∷ 7 ∷ 6 ∷ []);
  in_bufs = record { content = 5 ∷ []; area = [] };
  out_bufs = record { content = []; area = [] };
}

abbrev wire_ports : Ports (TlsStream Wire Staged Connection)
wire_ports = ports list_io connection_sink 17 connection_source

stream_flush_io-moves_example :
    (out : Outcome Errc) × (w' : TlsStream Wire Staged Connection) × (flush_io
        (calls wire_calls list_io)
        wire_ports
        17
        open_stream
      ≡ some (out, w'))
    × (w'.inner.0 ++ (w'.out_bufs.content ++ held w'.tls) ≡ (9 ∷ []) ++ held open_stream.tls)
    × (w'.tls.got ++ (w'.in_bufs.content ++ w'.inner.1) ≡ [] ++ ((5 ∷ []) ++ (8 ∷ 7 ∷ 6 ∷ [])))
    × ((e : Errc) → out ≡ returned e → w'.inner.0 ≡ (9 ∷ []) ++ held open_stream.tls)
    × (out ≡ returned no_message → w'.in_bufs.content ≡ [])
stream_flush_io-moves_example =
    stream_flush_io-moves basic-IsTransferResult list-IsDynbufIo connection-IsSink
      connection-IsSource wire-IsBio wire-TakesInput wire-IsDuplex (omega arith) (omega arith) 17
      open_stream (omega arith) refl (λ n b h. omega (arith, h, length-zeros n))
