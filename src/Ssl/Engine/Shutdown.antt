-- ===== src/Ssl/Engine/Shutdown.antt =====
-- `engine_base::shutdown` of src/neo/io/openssl/engine.cpp.
use neo_io.Prelude.{
  ℕ, ◌/◌, ◌<◌, ◌≡◌, ◌≢◌, refl, ap, false, some, int_mod, to_int, arith, ltb, inl, inr, ◌⊎◌,
  Bool-cases,
}
use neo_io.Transfer.{ErrorCode, is_error, Outcome}
use neo_io.Ssl.Engine.{
  OpenSsl, Ports, SslError, error_none, error_want_read, error_want_write, error_syscall, error_ssl,
  error_zero_return, error_other, Errc, State, ok, stop, one_step, switch_error, flush_io, caught,
  positive, shutdown_fn, shutdown,
}
use neo_io.Ssl.Engine.Run.{Rounds, run-Returns}
use neo_io.Ssl.Engine.OneShot.{Advances, IsStable, IsCutOff}

-- The documented behaviour of `SSL_shutdown`: 0 and 1 mean that the closing alert is sent, and 0 that
-- the peer's has not come. After 0 `SSL_get_error` may give any failure. A failure of the library
-- leaves its error number, and a failure of the system may leave `errno` at 0. The alert stays sent
-- while errors are read and data is flushed.
pub record IsClosingSsl {W : Type 0} (o : OpenSsl W) (p : Ports W) (inner : ℕ) (IsSent : W → Type 0)
    : Type 0 where
  pub shutdown-sent : (w : W) → (o.ssl_shutdown w).0 < int_mod / 2 → IsSent (o.ssl_shutdown w).1
  pub shutdown-none :
      (w : W)
      → o.ssl_get_error (o.ssl_shutdown w).0 (o.ssl_shutdown w).1 ≡ error_none
      → (o.ssl_shutdown w).0 < int_mod / 2
  pub shutdown-ssl :
      (w : W)
      → o.ssl_get_error (o.ssl_shutdown w).0 (o.ssl_shutdown w).1 ≡ error_ssl
      → to_int (o.err_get_error (o.ssl_shutdown w).1).0 ≢ 0
  pub sent-IsStable : IsStable o p inner IsSent

-- A flush without an error, of an output that is clear, leaves it clear, with nothing left to send;
-- and a call leaves it as it is.
pub record Flushes {W : Type 0} (o : OpenSsl W) (p : Ports W) (inner : ℕ)
    (IsClear IsEmptied : W → Type 0) : Type 0 where
  pub clear-call :
      (w : W) → IsClear w → IsClear (o.err_get_error (o.ssl_shutdown (o.err_clear_error w)).1).1
  pub flushed :
      (w : W) (r : Outcome Errc × W)
      → IsClear w
      → flush_io o p inner w ≡ some r
      → is_error (caught o p r).0 ≡ false
      → IsClear (caught o p r).1 × IsEmptied (caught o p r).1

module _ {W : Type 0} {o : OpenSsl W} {p : Ports W} {inner : ℕ} {measure : W → ℕ}
    {IsSent IsClear IsEmptied : W → Type 0} (cl : IsClosingSsl o p inner IsSent)
    (fl : Flushes o p inner IsClear IsEmptied)
    (av : Advances o p (shutdown_fn o) inner measure) where
  abbrev Cut : W → Type 0
  Cut w = IsCutOff o p (shutdown_fn o) inner tt w

  abbrev Round : W → State × ErrorCode × Unit {0} × W → Type 0
  Round w next =
      Rounds o p (shutdown_fn o) inner (λ l v. IsClear v)
        (λ ec l v. is_error ec ≡ false → (IsSent v ⊎ Cut v) × IsEmptied v) measure w next

  -- The call, and the state in which the switch of `one_step` runs.
  abbrev call : W → ℕ × W
  call w = o.ssl_shutdown (o.err_clear_error w)

  abbrev at_switch : W → W
  at_switch w = (o.err_get_error (call w).1).1

  -- What `one_step` makes of an answer.
  abbrev answered : W → ErrorCode → SslError → State × ErrorCode × Unit {0} × W
  answered w ec k =
      let (state, ec') =
        switch_error o k (to_int (o.err_get_error (call w).1).0) (at_switch w) ec in
      (state, ec', tt, at_switch w)

  one_step-answered :
      (w : W) (ec : ErrorCode) (k : SslError)
      → o.ssl_get_error (call w).0 (call w).1 ≡ k
      → one_step o p (shutdown_fn o) ec tt w ≡ answered w ec k
  unfolding one_step shutdown_fn
  one_step-answered w ec k e = rw e

  same : (r : Outcome Errc × W) → IsSent r.1 → IsSent (caught o p r).1
  same (Outcome.returned x, v) b = b
  same (Outcome.thrown x, v) b = b

  -- The call failed with SSL_ERROR_SYSCALL while `errno` was 0.
  abbrev IsCutCall : W → Type 0
  IsCutCall w =
      (positive (call w).0 ≡ false)
      × (o.ssl_get_error (call w).0 (call w).1 ≡ error_syscall)
      × (o.last_error (at_switch w) ≡ 0)

  caught-IsCutOff :
      (w : W) (r : Outcome Errc × W)
      → IsCutCall w
      → flush_io o p inner (at_switch w) ≡ some r
      → Cut (caught o p r).1
  unfolding shutdown_fn
  caught-IsCutOff w r (h, e, z) f = record {
    before = w;
    flushed = r;
    failed = h;
    answer = e;
    errno = z;
    flush = f;
    after = state r;
  }
    where
      state : (r : Outcome Errc × W) → r.1 ≡ (caught o p r).1
      state (Outcome.returned x, v) = refl
      state (Outcome.thrown x, v) = refl

  -- A step that stops, in which the alert was sent or the call cut off if there is no error.
  stops :
      (ec : ErrorCode) (w : W)
      → IsClear w
      → (is_error ec ≡ false → IsSent (call w).1 ⊎ IsCutCall w)
      → Round w (stop, ec, tt, at_switch w)
  stops ec w clear sent = (
    λ bad clean. absurd (cc (bad, clean)),
    λ clean.
        let (r, f) = av.flushes (at_switch w) in
        let there : IsSent (caught o p r).1 ⊎ Cut (caught o p r).1 = elim (sent clean) [
          | inl q ↦ inl (
              same r (
                cl.sent-IsStable.stable-flush_io (at_switch w) r f
                  (cl.sent-IsStable.stable-err_get_error (call w).1 q)))
          | inr cut ↦ inr (caught-IsCutOff w r cut f)
        ] in
        (
          r,
          f,
          λ _ good. (there, (fl.flushed (at_switch w) r (fl.clear-call w clear) f good).1),
          λ c. absurd (cc c),
        ),
  )

  wants :
      (ec : ErrorCode) (w : W)
      → IsClear w
      → is_error ec ≡ false
      → one_step o p (shutdown_fn o) ec tt w ≡ (ok, ec, tt, at_switch w)
      → Round w (ok, ec, tt, at_switch w)
  wants ec w clear clean e = (
    λ bad _. absurd (cc (bad, clean)),
    λ _.
        let (r, f) = av.flushes (at_switch w) in
        (
          r,
          f,
          λ bad good. absurd (cc (bad, good)),
          λ c. (
            (fl.flushed (at_switch w) r (fl.clear-call w clear) f c).0,
            av.falls ec tt w r (ap (λ x. x.0) e) (rw e f) c,
          ),
        ),
  )

  any-Round :
      (ec : ErrorCode) (w : W) (k : SslError)
      → IsClear w
      → is_error ec ≡ false
      → o.ssl_get_error (call w).0 (call w).1 ≡ k
      → one_step o p (shutdown_fn o) ec tt w ≡ answered w ec k
      → Round w (one_step o p (shutdown_fn o) ec tt w)
  unfolding switch_error
  any-Round ec w error_none clear clean k e =
      rw e (stops ec w clear (λ _. inl (cl.shutdown-sent _ (cl.shutdown-none _ k))))
  any-Round ec w error_want_read clear clean k e = rw e (wants ec w clear clean e)
  any-Round ec w error_want_write clear clean k e = rw e (wants ec w clear clean e)
  any-Round ec w error_syscall clear clean k e = rw e (
      stops (answered w ec error_syscall).1 w clear (λ good.
        elim (Bool-cases (ltb (call w).0 (int_mod / 2))) [
          | inl h ↦ inl (cl.shutdown-sent _ (ground arith))
          | inr h ↦ inr (ground arith, k, ground arith)
        ]))
  any-Round ec w error_ssl clear clean k e = rw e (
      stops (answered w ec error_ssl).1 w clear
        (λ good. let n = cl.shutdown-ssl _ k in absurd (ground arith)))
  any-Round ec w error_zero_return clear clean k e =
      rw e (stops (answered w ec error_zero_return).1 w clear (λ good. absurd (cc good)))
  any-Round ec w error_other clear clean k e =
      rw e (stops (answered w ec error_other).1 w clear (λ good. absurd (cc good)))

  -- `shutdown` returns, if OpenSSL behaves as documented and each round that wants more brings the
  -- peer's data forward; and if it reports no error, nothing is left to send, and the closing alert
  -- is sent or the call was cut off by SSL_ERROR_SYSCALL with an `errno` of 0.
  pub shutdown-closes :
      (fuel : ℕ) (w : W)
      → measure w < fuel
      → IsClear w
      → (ec : ErrorCode) × (w' : W) × (shutdown o p inner fuel w ≡ some (ec, w'))
        × (is_error ec ≡ false → (IsSent w' ⊎ Cut w') × IsEmptied w')
  unfolding shutdown
  shutdown-closes fuel w enough clear =
      let ((ec, l, w'), e, end) =
        run-Returns o p (shutdown_fn o) inner (λ l v. IsClear v)
          (λ ec l v. is_error ec ≡ false → (IsSent v ⊎ Cut v) × IsEmptied v) measure
          (λ ec l v clean i. any-Round ec v _ i clean refl (one_step-answered v ec _ refl)) fuel tt
          w enough clear in
      (ec, w', rw e, end)
