-- ===== src/Ssl/Stream/Closing.antt =====
-- `shutdown` of src/neo/io/openssl/stream.hpp over an inner stream that brings finitely many bytes.
use neo_io.Prelude.{
  ℕ, ◌*◌, ◌+◌, ◌<◌, ◌/◌, ◌≡◌, ◌≢◌, ◌++◌, ◌∙◌, ap, refl, false, some, List, [], int_mod, to_int,
  length, ◌⊎◌, sym, append_assoc, append-nil,
}
use neo_io.Transfer.{
  TransferResult, IsTransferResult, ErrorCode, is_error, Outcome, returned, thrown,
}
use neo_io.IoOp.Laws.{Spans}
use neo_io.Buffers.{DynbufIo, Sink, ReadSome}
use neo_io.Buffers.Laws.{IsDynbufIo}
use neo_io.Buffers.Output.{IsSink}
use neo_io.Buffers.Input.{IsSource}
use neo_io.Ssl.Engine.{Errc, error_none, error_ssl, error_want_write, flush_io, caught, shutdown_fn}
use neo_io.Ssl.Engine.Shutdown.{shutdown-closes}
use neo_io.Ssl.Stream.{TlsCalls, TlsStream, calls, ports, shutdown}
use neo_io.Ssl.Stream.CutOff.{ShutdownCutOff}
use neo_io.Ssl.Stream.Emptying.{Emptied, flushed-clean}
use neo_io.Ssl.Stream.Output.{IsBio}
use neo_io.Ssl.Stream.Input.{TakesInput}
use neo_io.Ssl.Stream.Duplex.{IsDuplex}
use neo_io.Ssl.Stream.Proceeds.{Proceeds, HasErrors}
use neo_io.Ssl.Stream.Stable.{IsKept, LeavesLog, kept-IsStable, log-flush_io}
use neo_io.Ssl.Stream.Session.{stream-Advances}

-- The documented behaviour of `SSL_shutdown`, as for an engine. `produced x` is the cipher text that
-- the object has put into the BIO pair so far, behind what waits there; the calls that read errors
-- put none there.
pub record ClosesTls {X : Type 0} (c : TlsCalls X) (owes : X → ℕ) (waiting produced : X → List ℕ)
    (IsSent : X → Type 0) : Type 0 where
  pub shutdown-produced :
      (x : X)
      → (bytes : List ℕ) × (produced (c.ssl_shutdown x).1 ≡ produced x ++ bytes)
        × (waiting (c.ssl_shutdown x).1 ≡ waiting x ++ bytes)
  pub produced-left : LeavesLog c produced
  pub waiting-clear : (x : X) → waiting (c.err_clear_error x) ≡ waiting x
  pub waiting-error : (x : X) → waiting (c.err_get_error x).1 ≡ waiting x
  pub shutdown-sent : (x : X) → (c.ssl_shutdown x).0 < int_mod / 2 → IsSent (c.ssl_shutdown x).1
  pub shutdown-none :
      (x : X)
      → c.ssl_get_error (c.ssl_shutdown x).0 (c.ssl_shutdown x).1 ≡ error_none
      → (c.ssl_shutdown x).0 < int_mod / 2
  pub shutdown-ssl :
      (x : X)
      → c.ssl_get_error (c.ssl_shutdown x).0 (c.ssl_shutdown x).1 ≡ error_ssl
      → to_int (c.err_get_error (c.ssl_shutdown x).1).0 ≢ 0
  pub shutdown-owes :
      (x : X)
      → c.ssl_get_error (c.ssl_shutdown x).0 (c.ssl_shutdown x).1 ≡ error_want_write
      → owes (c.ssl_shutdown x).1 < owes x
  pub sent-IsKept : IsKept c IsSent

module _ {R X B C P S : Type 0} ⦃t : TransferResult R⦄ {v : Spans C P} {c : TlsCalls X}
    {d : DynbufIo B} {content staged : B → List ℕ} {sent incoming : S → List ℕ}
    {waiting fed : X → List ℕ} {sink : Sink R C P S} {inner_read : ReadSome R S}
    {cap write_fuel limit : ℕ} {owes : X → ℕ} (rl : IsTransferResult t) (errors : HasErrors t)
    (dl : IsDynbufIo d content staged) (sl : IsSink v sent sink) (il : IsSource incoming inner_read)
    (bl : IsBio c waiting cap) (tl : TakesInput c fed)
    (du : IsDuplex c sink inner_read waiting fed sent incoming) (pl : Proceeds c owes limit)
    (small : cap < int_mod / 2) (enough : cap < write_fuel) where
  module _ {IsSent : X → Type 0} {produced : X → List ℕ} (w₀ : TlsStream X B S)
      (cl : ClosesTls c owes waiting produced IsSent) where
    -- What OpenSSL has produced since `w₀` was sent behind what waited there, or waits.
    abbrev Passed : TlsStream X B S → Type 0
    Passed w =
        (bytes : List ℕ) × (produced w.tls ≡ produced w₀.tls ++ bytes)
        × (sent w.inner ++ waiting w.tls ≡ sent w₀.inner ++ (waiting w₀.tls ++ bytes))

    -- The same when nothing waits.
    abbrev pub PassedOn : TlsStream X B S → Type 0
    PassedOn w =
        (bytes : List ℕ) × (produced w.tls ≡ produced w₀.tls ++ bytes)
        × (sent w.inner ≡ sent w₀.inner ++ (waiting w₀.tls ++ bytes))

    call-Passed :
        (w : TlsStream X B S)
        → Passed w
        → Passed
            (record w { tls = (c.err_get_error (c.ssl_shutdown (c.err_clear_error w.tls)).1).1 })
    call-Passed w (bytes, made, order) =
        let (more, made', waits) = cl.shutdown-produced (c.err_clear_error w.tls) in
        (
          bytes ++ more,
          cl.produced-left.log-error _
              ∙ made'
              ∙ ap (λ x. x ++ more) (cl.produced-left.log-clear w.tls ∙ made)
              ∙ append_assoc (produced w₀.tls) bytes more,
          ap (λ x. sent w.inner ++ x)
                (cl.waiting-error _ ∙ waits ∙ ap (λ x. x ++ more) (cl.waiting-clear w.tls))
              ∙ sym (append_assoc (sent w.inner) (waiting w.tls) more)
              ∙ ap (λ x. x ++ more) order
              ∙ append_assoc (sent w₀.inner) (waiting w₀.tls ++ bytes) more
              ∙ ap (λ x. sent w₀.inner ++ x) (append_assoc (waiting w₀.tls) bytes more),
        )

    flush-PassedOn :
        (w w' : TlsStream X B S)
        → produced w'.tls ≡ produced w.tls
        → Emptied content sent waiting w w'
        → Passed w
        → PassedOn w'
    flush-PassedOn w w' same (_, _, all) (bytes, made, order) = (bytes, same ∙ made, all ∙ order)

    still-Passed : (w : TlsStream X B S) → waiting w.tls ≡ [] → PassedOn w → Passed w
    still-Passed w none_wait (bytes, made, order) =
        (bytes, made, ap (λ x. sent w.inner ++ x) none_wait ∙ append-nil (sent w.inner) ∙ order)

    caught-produced :
        (flush_fuel : ℕ) (w : TlsStream X B S) (r : Outcome Errc × TlsStream X B S)
        → flush_io (calls c d) (ports d sink write_fuel inner_read) flush_fuel w ≡ some r
        → produced (caught (calls c d) (ports d sink write_fuel inner_read) r).1.tls
          ≡ produced w.tls
    caught-produced flush_fuel w (thrown y, w') f =
        log-flush_io d sink inner_read write_fuel flush_fuel cl.produced-left w _ f
    caught-produced flush_fuel w (returned y, w') f =
        log-flush_io d sink inner_read write_fuel flush_fuel cl.produced-left w _ f

  -- `shutdown` of a TLS stream whose output holds nothing back. The inner stream brings finitely
  -- many bytes, keeps its two ways apart, moves something or fails at each write, and has an error
  -- if it fails; the buffers make room when asked; OpenSSL behaves as documented and owes less
  -- than `limit`; there is fuel for more bytes than the BIO pair holds, and for more rounds than
  -- the bytes to come times `limit` and what OpenSSL owes. Then it returns. If it reports no
  -- error, the inner stream was given, in order, exactly what waited in the BIO pair and then all
  -- that OpenSSL produced meanwhile, so that nothing is left to send; and the closing alert was
  -- sent, or the call was cut off: its last `SSL_shutdown` failed with SSL_ERROR_SYSCALL while
  -- `errno` was 0.
  pub stream_shutdown-closes :
      {IsSent : X → Type 0} {produced : X → List ℕ} (flush_fuel fuel : ℕ) (w : TlsStream X B S)
      → ClosesTls c owes waiting produced IsSent
      → cap < flush_fuel
      → (length (content w.in_bufs) + length (incoming w.inner)) * limit + owes w.tls < fuel
      → content w.out_bufs ≡ []
      → ((n : ℕ) (b : B) → 0 < n → 0 < length (staged (d.prepare n b)))
      → (ec : ErrorCode) × (w' : TlsStream X B S) × (shutdown c d sink inner_read write_fuel
            flush_fuel fuel w
          ≡ some (ec, w'))
        × (is_error ec ≡ false
            → (IsSent w'.tls ⊎ ShutdownCutOff c d sink inner_read write_fuel flush_fuel w')
              × (content w'.out_bufs ≡ [])
              × (waiting w'.tls ≡ [])
              × ((bytes : List ℕ) × (produced w'.tls ≡ produced w.tls ++ bytes)
                  × (sent w'.inner ≡ sent w.inner ++ (waiting w.tls ++ bytes))))
  unfolding shutdown shutdown_fn
  stream_shutdown-closes {IsSent} {produced} flush_fuel fuel w cl full rounds clear rooms =
      let (ec, w', e, end) =
        shutdown-closes {IsSent = λ v. IsSent v.tls}
          {IsClear = λ v. (content v.out_bufs ≡ []) × Passed w cl v}
          {IsEmptied = λ v. (content v.out_bufs ≡ []) × (waiting v.tls ≡ []) × PassedOn w cl v}
          (record {
            shutdown-sent = λ v h. cl.shutdown-sent v.tls h;
            shutdown-none = λ v h. cl.shutdown-none v.tls h;
            shutdown-ssl = λ v h. cl.shutdown-ssl v.tls h;
            sent-IsStable = kept-IsStable d sink inner_read write_fuel cl.sent-IsKept flush_fuel;
          })
          (record {
            clear-call = λ v (h, order). (h, call-Passed w cl v order);
            flushed = λ v r (h, order) f good.
                let v' = (caught (calls c d) (ports d sink write_fuel inner_read) r).1 in
                let done =
                  flushed-clean rl errors dl sl il bl tl du pl small enough flush_fuel v r full
                    rooms h f good in
                let on : PassedOn w cl v' =
                  flush-PassedOn w cl v v' (caught-produced w cl flush_fuel v r f) done order in
                ((done.0, still-Passed w cl v' done.1 on), (done.0, done.1, on));
          })
          (stream-Advances rl errors dl sl il bl tl du pl small enough (shutdown_fn (calls c d))
            (record {
              fn-in_bufs = λ l w. refl;
              fn-inner = λ l w. refl;
              fn-owes = λ l w h. cl.shutdown-owes w.tls h;
            })
            flush_fuel full)
          fuel w rounds
          (
            clear,
            (
              [],
              sym (append-nil (produced w.tls)),
              ap (λ x. sent w.inner ++ x) (sym (append-nil (waiting w.tls))),
            ),
          ) in
      (
        ec,
        w',
        e,
        λ good.
            let (why, (none_held, none_wait, order)) = end good in
            (why, none_held, none_wait, order),
      )
