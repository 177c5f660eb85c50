-- ===== src/Tests/TlsWrites.antt =====
-- A whole read, a whole write and a shutdown of a TLS stream over a connection that brings a few bytes.
use neo_io.Prelude.{
  ◌*◌, ◌+◌, length, ◌≡◌, ◌⊎◌, refl, true, false, some, [], ◌∷◌, ◌++◌, arith, take, ℕ, List, ◌<◌,
  ◌∙◌, ap, sym, inl, inr, ltb, Bool-cases, append-nil, length-append, take-eq_of_le,
}
use neo_io.Transfer.{
  ErrorCode, is_error, BasicTransferResult, basic_transfer_result, basic-IsTransferResult,
}
use neo_io.IoOp.{Stream}
use neo_io.Ssl.Stream.{TlsStream, shutdown}
use neo_io.Ssl.Stream.CutOff.{ShutdownCutOff}
use neo_io.Ssl.Stream.Closing.{ClosesTls, stream_shutdown-closes}
use neo_io.Ssl.Stream.Whole.{tls_stream}
use neo_io.Ssl.Stream.Reading.{TlsReceiver, tls_source}
use neo_io.Tests.Flat.{Part, spans, length-zeros}
use neo_io.Tests.Writing.{part_of, text}
use neo_io.Tests.Buffered.{Staged, list_io, list-IsDynbufIo}
use neo_io.Tests.TlsStreams.{
  Wire, held, wire_calls, Connection, connection_sink, connection_source, open_stream, wire-IsBio,
  wire-TakesInput, connection-IsSink, connection-IsSource, wire-IsDuplex,
}
use neo_io.Tests.TlsSessions.{wire-Proceeds, basic-HasErrors}

abbrev texts : Stream BasicTransferResult Part (TlsStream Wire Staged Connection)
texts =
    tls_stream wire_calls list_io connection_sink connection_source 17 17
      (λ w. (length w.in_bufs.content + length w.inner.1) * 1 + 0 + 1) (part_of text)

abbrev letters : Stream BasicTransferResult Part (TlsReceiver Wire Staged Connection)
letters =
    tls_source wire_calls list_io connection_sink connection_source 17 17
      (λ w. (length w.in_bufs.content + length w.inner.1) * 1 + 0 + 1) spans

-- A destination of two bytes.
abbrev tls_receiver : TlsReceiver Wire Staged Connection
tls_receiver = record { memory = 1 ∷ 1 ∷ []; session = open_stream }

-- A byte behind what the pair holds, if it has room.
held-room : (x : Wire) → length x.raw < 16 → take 16 (x.raw ++ (21 ∷ [])) ≡ held x ++ (21 ∷ [])
held-room x h =
    take-eq_of_le 16 _ (omega (arith, h, length-append x.raw (21 ∷ [])))
    ∙ ap (λ y. y ++ (21 ∷ [])) (sym (take-eq_of_le 16 x.raw (omega (arith, h))))

-- A closing alert is one byte, and is sent at once if the pair has room for it.
pub wire-ClosesTls : ClosesTls wire_calls (λ x. 0) held (λ x. x.made) (λ x. x.closed ≡ true)
wire-ClosesTls = record {
  shutdown-produced = λ x. elim (Bool-cases (ltb (length x.raw) 16)) [
    | inl h ↦ (21 ∷ [], rw h refl, rw h (held-room x (ground arith)))
    | inr h ↦ ([], rw h (sym (append-nil x.made)), rw h (sym (append-nil (held x))))
  ];
  produced-left = record {
    log-clear = λ x. refl;
    log-error = λ x. refl;
    log-bio_read = λ n x. refl;
    log-bio_write = λ bytes x. refl;
  };
  waiting-clear = λ x. refl;
  waiting-error = λ x. refl;
  shutdown-sent =
      λ x h. elim (Bool-cases (ltb (length x.raw) 16)) [ inl k ↦ rw k refl | inr k ↦ rw k refl ];
  shutdown-none = λ x h. omega arith;
  shutdown-ssl = λ x h. absurd (cc h);
  shutdown-owes = λ x h. absurd (cc h);
  sent-IsKept = record {
    kept-error = λ x q. q;
    kept-bio_read = λ n x q. q;
    kept-bio_write = λ bytes x q. q;
  };
}

stream_shutdown-closes_example :
    (ec : ErrorCode) × (w' : TlsStream Wire Staged Connection) × (shutdown wire_calls list_io
        connection_sink connection_source 17 17 5 open_stream
      ≡ some (ec, w'))
    × (is_error ec ≡ false
        → ((w'.tls.closed ≡ true)
            ⊎ ShutdownCutOff wire_calls list_io connection_sink connection_source 17 17 w')
          × (w'.out_bufs.content ≡ [])
          × (held w'.tls ≡ [])
          × ((bytes : List ℕ) × (w'.tls.made ≡ [] ++ bytes)
              × (w'.inner.0 ≡ (9 ∷ []) ++ ((1 ∷ 2 ∷ 3 ∷ 4 ∷ 5 ∷ []) ++ bytes))))
stream_shutdown-closes_example =
    stream_shutdown-closes basic-IsTransferResult basic-HasErrors list-IsDynbufIo connection-IsSink
      connection-IsSource wire-IsBio wire-TakesInput wire-IsDuplex wire-Proceeds (omega arith)
      (omega arith) 17 5 open_stream wire-ClosesTls (omega arith) (omega arith) refl
      (λ n b h. omega (arith, h, length-zeros n))
