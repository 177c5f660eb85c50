-- ===== src/Ssl/Stream/Throwing.antt =====
-- The overloads of src/neo/io/openssl/stream.hpp that throw, over an inner stream that brings finitely
-- many bytes.
use neo_io.Prelude.{
  ℕ, ◌*◌, ◌+◌, ◌<◌, ◌/◌, ◌≡◌, true, ◌++◌, ◌⊎◌, Option, some, List, [], length, int_mod,
}
use neo_io.Transfer.{TransferResult, IsTransferResult, ErrorCode, is_error, Outcome}
use neo_io.Throwing.{Result, value, throws, Throws}
use neo_io.IoOp.Laws.{Spans}
use neo_io.Buffers.{DynbufIo, Sink, ReadSome}
use neo_io.Buffers.Laws.{IsDynbufIo}
use neo_io.Buffers.Output.{IsSink}
use neo_io.Buffers.Input.{IsSource}
use neo_io.Ssl.Engine.Throwing
use neo_io.Ssl.Engine.Throwing.{or_throw-cases}
use neo_io.Ssl.Stream.{TlsCalls, TlsStream, calls, ports, connect, shutdown}
use neo_io.Ssl.Stream.CutOff.{ConnectCutOff, ShutdownCutOff}
use neo_io.Ssl.Stream.Output.{IsBio}
use neo_io.Ssl.Stream.Input.{TakesInput}
use neo_io.Ssl.Stream.Duplex.{IsDuplex}
use neo_io.Ssl.Stream.Proceeds.{Proceeds, HasErrors, AnswersTls, ConnectsTls}
use neo_io.Ssl.Stream.Closing.{ClosesTls, stream_shutdown-closes}
use neo_io.Ssl.Stream.Session.{stream_connect-connects}

module _ {R X B C P S : Type 0} ⦃t : TransferResult R⦄ (throw_if : ErrorCode → Outcome (Unit {0}))
    (c : TlsCalls X) (d : DynbufIo B) (sink : Sink R C P S) (inner_read : ReadSome R S)
    (write_fuel flush_fuel fuel : ℕ) where
  -- `connect()` and `shutdown()`.
  pub connect_or_throw : TlsStream X B S → Option (Result (Unit {0}) × TlsStream X B S)
  connect_or_throw w =
      Throwing.connect_or_throw throw_if (calls c d) (ports d sink write_fuel inner_read) flush_fuel
        fuel w

  pub shutdown_or_throw : TlsStream X B S → Option (Result (Unit {0}) × TlsStream X B S)
  shutdown_or_throw w =
      Throwing.shutdown_or_throw throw_if (calls c d) (ports d sink write_fuel inner_read)
        flush_fuel fuel w

module _ {R X B C P S : Type 0} ⦃t : TransferResult R⦄ {v : Spans C P} {c : TlsCalls X}
    {d : DynbufIo B} {content staged : B → List ℕ} {sent incoming : S → List ℕ}
    {waiting fed : X → List ℕ} {sink : Sink R C P S} {inner_read : ReadSome R S}
    {cap write_fuel limit : ℕ} {owes : X → ℕ} {throw_if : ErrorCode → Outcome (Unit {0})}
    (rl : IsTransferResult t) (errors : HasErrors t) (dl : IsDynbufIo d content staged)
    (sl : IsSink v sent sink) (il : IsSource incoming inner_read) (bl : IsBio c waiting cap)
    (tl : TakesInput c fed) (du : IsDuplex c sink inner_read waiting fed sent incoming)
    (pl : Proceeds c owes limit) (small : cap < int_mod / 2) (enough : cap < write_fuel)
    (throws_just : Throws throw_if) where
  -- `connect()` of a TLS stream. The inner stream brings finitely many bytes, keeps its two ways
  -- apart, moves something or fails at each write, and has an error if it fails; OpenSSL behaves
  -- as documented and owes less than `limit`; there is fuel for more bytes than the BIO pair
  -- holds, and for more rounds than the bytes to come times `limit` and what OpenSSL owes; and the
  -- thrower throws just the errors. Then the call ends: it returns and the handshake is done or was
  -- cut off by SSL_ERROR_SYSCALL with an `errno` of 0, or it throws an error.
  pub connect_or_throw-ends :
      {IsConnected : X → Type 0} (flush_fuel fuel : ℕ) (w : TlsStream X B S)
      → AnswersTls c
      → ConnectsTls c owes IsConnected
      → cap < flush_fuel
      → (length (content w.in_bufs) + length (incoming w.inner)) * limit + owes w.tls < fuel
      → (r : Result (Unit {0})) × (w' : TlsStream X B S) × (connect_or_throw throw_if c d sink
            inner_read write_fuel flush_fuel fuel w
          ≡ some (r, w'))
        × (((r ≡ value tt)
              × (IsConnected w'.tls ⊎ ConnectCutOff c d sink inner_read write_fuel flush_fuel w'))
            ⊎ ((ec : ErrorCode) × (r ≡ throws ec) × (is_error ec ≡ true)))
  unfolding connect_or_throw Throwing.connect_or_throw connect
  connect_or_throw-ends {IsConnected} flush_fuel fuel w al cl full rounds =
      or_throw-cases throw_if
        {Done = λ w. IsConnected w.tls ⊎ ConnectCutOff c d sink inner_read write_fuel flush_fuel w}
        _ throws_just
        (stream_connect-connects rl errors dl sl il bl tl du pl al small enough flush_fuel fuel w cl
          full rounds)

  -- `shutdown()` of a TLS stream whose output holds nothing back. The inner stream brings finitely
  -- many bytes, keeps its two ways apart, moves something or fails at each write, and has an error
  -- if it fails; the buffers make room when asked; OpenSSL behaves as documented and owes less
  -- than `limit`; there is fuel for more bytes than the BIO pair holds, and for more rounds than
  -- the bytes to come times `limit` and what OpenSSL owes; and the thrower throws just the errors.
  -- Then the call ends: it throws an error, or it returns and the inner stream was given what waited
  -- and all that OpenSSL produced meanwhile, and the closing alert was sent or the call was cut off
  -- by SSL_ERROR_SYSCALL with an `errno` of 0.
  pub shutdown_or_throw-ends :
      {IsSent : X → Type 0} {produced : X → List ℕ} (flush_fuel fuel : ℕ) (w : TlsStream X B S)
      → ClosesTls c owes waiting produced IsSent
      → cap < flush_fuel
      → (length (content w.in_bufs) + length (incoming w.inner)) * limit + owes w.tls < fuel
      → content w.out_bufs ≡ []
      → ((n : ℕ) (b : B) → 0 < n → 0 < length (staged (d.prepare n b)))
      → (r : Result (Unit {0})) × (w' : TlsStream X B S) × (shutdown_or_throw throw_if c d sink
            inner_read write_fuel flush_fuel fuel w
          ≡ some (r, w'))
        × (((r ≡ value tt)
              × ((IsSent w'.tls ⊎ ShutdownCutOff c d sink inner_read write_fuel flush_fuel w')
                  × (content w'.out_bufs ≡ [])
                  × (waiting w'.tls ≡ [])
                  × ((bytes : List ℕ) × (produced w'.tls ≡ produced w.tls ++ bytes)
                      × (sent w'.inner ≡ sent w.inner ++ (waiting w.tls ++ bytes)))))
            ⊎ ((ec : ErrorCode) × (r ≡ throws ec) × (is_error ec ≡ true)))
  unfolding shutdown_or_throw Throwing.shutdown_or_throw shutdown
  shutdown_or_throw-ends {IsSent} {produced} flush_fuel fuel w cl full rounds clear rooms =
      or_throw-cases throw_if
        {Done = λ w'.
          (IsSent w'.tls ⊎ ShutdownCutOff c d sink inner_read write_fuel flush_fuel w')
          × (content w'.out_bufs ≡ [])
          × (waiting w'.tls ≡ [])
          × ((bytes : List ℕ) × (produced w'.tls ≡ produced w.tls ++ bytes)
              × (sent w'.inner ≡ sent w.inner ++ (waiting w.tls ++ bytes)))}
        _ throws_just
        (stream_shutdown-closes rl errors dl sl il bl tl du pl small enough flush_fuel fuel w cl
          full rounds clear rooms)
