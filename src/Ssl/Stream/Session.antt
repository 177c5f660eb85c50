-- ===== src/Ssl/Stream/Session.antt =====
-- The operations of src/neo/io/openssl/stream.hpp over an inner stream that brings finitely many bytes.
use neo_io.Prelude.{
  ℕ, ◌*◌, ◌+◌, ◌≤◌, ◌<◌, ◌/◌, ◌≡◌, ◌++◌, take, refl, false, some, List, arith, int_mod, length,
  to_int, ◌⊎◌,
}
use neo_io.Transfer.{TransferResult, IsTransferResult, ErrorCode, is_error, BasicTransferResult}
use neo_io.IoOp.Laws.{Spans}
use neo_io.Buffers.{DynbufIo, Sink, ReadSome}
use neo_io.Buffers.Laws.{IsDynbufIo}
use neo_io.Buffers.Output.{IsSink}
use neo_io.Buffers.Input.{IsSource}
use neo_io.Ssl.Engine.{flush_io, flush_input, write_fn, connect_fn}
use neo_io.Ssl.Engine.Handshake.{connect-connects}
use neo_io.Ssl.Engine.OneShot.{Answers, Advances}
use neo_io.Ssl.Engine.Writes.{write_some-accepts}
use neo_io.Ssl.Stream.Stable.{kept-IsStable, log-flush_io}
use neo_io.Ssl.Engine.Flush.{flush_output-drains}
use neo_io.Ssl.Stream.{TlsCalls, TlsStream, calls, ports, write_some, connect}
use neo_io.Ssl.Stream.CutOff.{WriteCutOff, ConnectCutOff}
use neo_io.Ssl.Stream.Output.{IsBio, stream-IsOutput}
use neo_io.Ssl.Stream.Input.{TakesInput}
use neo_io.Ssl.Stream.Duplex.{IsDuplex}
use neo_io.Ssl.Stream.Proceeds.{Proceeds, HasErrors, ActsOnTls, AnswersTls, ConnectsTls, WritesTls}
use neo_io.Ssl.Stream.Progress.{rounds_left, round-falls}

module _ {R X B C P S : Type 0} ⦃t : TransferResult R⦄ {v : Spans C P} {c : TlsCalls X}
    {d : DynbufIo B} {content staged : B → List ℕ} {sent incoming : S → List ℕ}
    {waiting fed : X → List ℕ} {sink : Sink R C P S} {inner_read : ReadSome R S}
    {cap write_fuel limit : ℕ} {owes : X → ℕ} (rl : IsTransferResult t) (errors : HasErrors t)
    (dl : IsDynbufIo d content staged) (sl : IsSink v sent sink) (il : IsSource incoming inner_read)
    (bl : IsBio c waiting cap) (tl : TakesInput c fed)
    (du : IsDuplex c sink inner_read waiting fed sent incoming) (pl : Proceeds c owes limit)
    (small : cap < int_mod / 2) (enough : cap < write_fuel) where
  -- An operation on the SSL object alone goes forward round by round.
  pub stream-Advances :
      {L : Type 0} (fn : L → TlsStream X B S → ℕ × L × TlsStream X B S)
      → ActsOnTls c owes fn
      → (flush_fuel : ℕ) → cap < flush_fuel
      → Advances
          (calls c d)
          (ports d sink write_fuel inner_read)
          fn
          flush_fuel
          (rounds_left write_fuel errors dl il tl du pl)
  unfolding flush_io
  stream-Advances fn act flush_fuel full = record {
    flushes = λ w.
        let (out, w', e, _, _) =
          flush_output-drains (stream-IsOutput rl dl sl bl small enough inner_read) flush_fuel w
            (omega (arith, full, bl.waiting-cap w.tls)) in
        (flush_input (calls c d) (ports d sink write_fuel inner_read) (out, w'), rw e refl);
    falls = λ ec l w r. round-falls write_fuel errors dl il tl du pl fn act flush_fuel ec l w r;
  }

module _ {R X B C P S : Type 0} ⦃t : TransferResult R⦄ {v : Spans C P} {c : TlsCalls X}
    {d : DynbufIo B} {content staged : B → List ℕ} {sent incoming : S → List ℕ}
    {waiting fed : X → List ℕ} {sink : Sink R C P S} {inner_read : ReadSome R S}
    {cap write_fuel limit : ℕ} {owes : X → ℕ} (rl : IsTransferResult t) (errors : HasErrors t)
    (dl : IsDynbufIo d content staged) (sl : IsSink v sent sink) (il : IsSource incoming inner_read)
    (bl : IsBio c waiting cap) (tl : TakesInput c fed)
    (du : IsDuplex c sink inner_read waiting fed sent incoming) (pl : Proceeds c owes limit)
    (al : AnswersTls c) (small : cap < int_mod / 2) (enough : cap < write_fuel) where
  calls-Answers : Answers (calls {S = S} c d)
  calls-Answers = record {
    get_error-positive = λ ret w h. al.get_error-positive ret w.tls h;
    get_error-not_positive = λ ret w h. al.get_error-not_positive ret w.tls h;
    ssl-set = λ ret w h. al.ssl-set ret w.tls h;
  }

  pub stream_connect-connects :
      {IsConnected : X → Type 0} (flush_fuel fuel : ℕ) (w : TlsStream X B S)
      → ConnectsTls c owes IsConnected
      → cap < flush_fuel
      → (length (content w.in_bufs) + length (incoming w.inner)) * limit + owes w.tls < fuel
      → (ec : ErrorCode) × (w' : TlsStream X B S) × (connect c d sink inner_read write_fuel
            flush_fuel fuel w
          ≡ some (ec, w'))
        × (is_error ec ≡ false
            → IsConnected w'.tls ⊎ ConnectCutOff c d sink inner_read write_fuel flush_fuel w')
  unfolding connect connect_fn
  stream_connect-connects {IsConnected} flush_fuel fuel w cl full rounds =
      connect-connects {IsConnected = λ w. IsConnected w.tls} calls-Answers
        (record {
          connect-success = λ w h. cl.connect-success w.tls h;
          connected-IsStable =
              kept-IsStable d sink inner_read write_fuel cl.connected-IsKept flush_fuel;
        })
        (stream-Advances rl errors dl sl il bl tl du pl small enough (connect_fn (calls c d))
          (record {
            fn-in_bufs = λ l w. refl;
            fn-inner = λ l w. refl;
            fn-owes = λ l w h. cl.connect-owes w.tls h;
          })
          flush_fuel full)
        fuel w rounds

  -- `write_some` of a TLS stream, of one byte or more, but less than 2^31. The inner stream
  -- brings finitely many bytes, keeps its two ways apart, moves something or fails at each write,
  -- and has an error if it fails; OpenSSL behaves as documented and owes less than `limit`; there
  -- is fuel for more bytes than the BIO pair holds, and for more rounds than the bytes to come
  -- times `limit` and what OpenSSL owes. Then it returns. OpenSSL has taken exactly the reported
  -- number of leading bytes. If it reports no error it is at least one, or none and the write was
  -- cut off: its last `SSL_write` failed with SSL_ERROR_SYSCALL while `errno` was 0.
  pub stream_write_some-accepts :
      {accepted : X → List ℕ} (flush_fuel fuel : ℕ) (src : List ℕ) (w : TlsStream X B S)
      → WritesTls c owes accepted
      → 0 < length src
      → length src < int_mod / 2
      → cap < flush_fuel
      → (length (content w.in_bufs) + length (incoming w.inner)) * limit + owes w.tls < fuel
      → (r : BasicTransferResult) × (w' : TlsStream X B S) × (write_some c d sink inner_read
            write_fuel flush_fuel fuel src w
          ≡ some (r, w'))
        × (r.bytes_transferred ≤ length src)
        × (accepted w'.tls ≡ accepted w.tls ++ take r.bytes_transferred src)
        × (is_error r.ec ≡ false
            → (0 < r.bytes_transferred)
              ⊎ ((r.bytes_transferred ≡ 0)
                  × WriteCutOff c d sink inner_read write_fuel flush_fuel src w'))
  unfolding write_some write_fn
  stream_write_some-accepts {accepted} flush_fuel fuel src w wl some_bytes fits full rounds =
      write_some-accepts {accepted = λ w. accepted w.tls} calls-Answers
        (record {
          write-le = λ src n w h. wl.write-le src n w.tls h;
          accepted-success = λ src n w h. wl.accepted-success src n w.tls h;
          accepted-failure = λ src n w h. wl.accepted-failure src n w.tls h;
          accepted-err_clear_error = λ w. wl.accepted-left.log-clear w.tls;
          accepted-err_get_error = λ w. wl.accepted-left.log-error w.tls;
          accepted-flush_io = log-flush_io d sink inner_read write_fuel flush_fuel wl.accepted-left;
        })
        (stream-Advances rl errors dl sl il bl tl du pl small enough (write_fn (calls c d))
          (record {
            fn-in_bufs = λ l w. refl;
            fn-inner = λ l w. refl;
            fn-owes = λ l w h. wl.write-owes l.left (to_int (length l.left)) w.tls h;
          })
          flush_fuel full)
        src fuel w some_bytes fits rounds
