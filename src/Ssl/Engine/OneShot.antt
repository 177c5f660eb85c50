-- ===== src/Ssl/Engine/OneShot.antt =====
-- What `engine_impl::run` of src/neo/io/openssl/engine.cpp makes of one OpenSSL operation that it
-- repeats until it succeeds or fails.
use mathlib.Core.Path.{subst}
use neo_io.Prelude.{
  ℕ, ◌<◌, ◌≡◌, ◌≢◌, refl, ap, ◌∙◌, ◌⊎◌, inl, inr, true, false, some, to_int, int_mod, ◌/◌, arith,
  Bool-cases,
}
use neo_io.Transfer.{ErrorCode, is_error, Outcome}
use neo_io.Ssl.Engine.{
  OpenSsl, Ports, SslError, error_none, error_want_read, error_want_write, error_syscall, error_ssl,
  error_zero_return, error_other, Errc, State, ok, stop, one_step, switch_error, flush_io, caught,
  run, positive,
}
use neo_io.Ssl.Engine.Run.{Rounds, run-Returns}

-- The documented behaviour of `SSL_get_error`: success is a positive result, and a failure of the
-- library leaves its error number. A failure of the system may leave `errno` at 0.
pub record Answers {W : Type 0} (o : OpenSsl W) : Type 0 where
  pub get_error-positive :
      (ret : ℕ) (w : W) → positive ret ≡ true → o.ssl_get_error ret w ≡ error_none
  pub get_error-not_positive :
      (ret : ℕ) (w : W) → positive ret ≡ false → o.ssl_get_error ret w ≢ error_none
  pub ssl-set :
      (ret : ℕ) (w : W) → o.ssl_get_error ret w ≡ error_ssl → to_int (o.err_get_error w).0 ≢ 0

-- Every round that neither ends nor fails brings the peer's data forward, and every flush ends
-- within the fuel `inner`.
pub record Advances {W L : Type 0} (o : OpenSsl W) (p : Ports W) (fn : L → W → ℕ × L × W)
    (inner : ℕ) (measure : W → ℕ) : Type 0 where
  pub flushes : (w : W) → (r : Outcome Errc × W) × (flush_io o p inner w ≡ some r)
  pub falls :
      (ec : ErrorCode) (l : L) (w : W) (r : Outcome Errc × W)
      → (one_step o p fn ec l w).0 ≡ ok
      → flush_io o p inner (one_step o p fn ec l w).3 ≡ some r
      → is_error (caught o p r).0 ≡ false
      → measure (caught o p r).1 < measure w

-- A property of the state that reading the error queue and flushing leave alone.
pub record IsStable {W : Type 0} (o : OpenSsl W) (p : Ports W) (inner : ℕ) (Q : W → Type 0)
    : Type 0 where
  pub stable-err_get_error : (w : W) → Q w → Q (o.err_get_error w).1
  pub stable-flush_io : (w : W) (r : Outcome Errc × W) → flush_io o p inner w ≡ some r → Q w → Q r.1

-- The operation on the variables `start`: while it fails it leaves them alone and keeps up `Before`,
-- and a success, which is a positive result, brings about `After`.
pub record IsOneShot {W L : Type 0} (o : OpenSsl W) (fn : L → W → ℕ × L × W) (start : L)
    (Before : W → Type 0) (After : L → W → Type 0) : Type 0 where
  pub before-err_clear_error : (w : W) → Before w → Before (o.err_clear_error w)
  pub fn-success :
      (w : W) → Before w → positive (fn start w).0 ≡ true → After (fn start w).1 (fn start w).2
  pub fn-start : (w : W) → positive (fn start w).0 ≡ false → (fn start w).1 ≡ start
  pub fn-failure : (w : W) → Before w → positive (fn start w).0 ≡ false → Before (fn start w).2

-- How an operation on the variables `start` is cut off, with `w` after it: SSL_ERROR_SYSCALL came
-- while `errno` was 0, as OpenSSL reports an unexpected end of the connection, and a flush followed.
pub record IsCutOff {W L : Type 0} (o : OpenSsl W) (p : Ports W) (fn : L → W → ℕ × L × W)
    (inner : ℕ) (start : L) (w : W) : Type 0 where
  pub before : W
  pub flushed : Outcome Errc × W
  pub failed : positive (fn start (o.err_clear_error before)).0 ≡ false
  pub answer :
      let (ret, _, v) = fn start (o.err_clear_error before) in o.ssl_get_error ret v ≡ error_syscall
  pub errno : o.last_error (o.err_get_error (fn start (o.err_clear_error before)).2).1 ≡ 0
  pub flush :
      flush_io o p inner (o.err_get_error (fn start (o.err_clear_error before)).2).1 ≡ some flushed
  pub after : flushed.1 ≡ w

pub positive→lt : (n : ℕ) → positive n ≡ true → (0 < n) × (n < int_mod / 2)
positive→lt n h = ground arith

module _ {W L : Type 0} {o : OpenSsl W} {p : Ports W} {fn : L → W → ℕ × L × W} {inner : ℕ}
    {measure : W → ℕ} {start : L} {Before : W → Type 0} {After : L → W → Type 0} (an : Answers o)
    (av : Advances o p fn inner measure) (os : IsOneShot o fn start Before After)
    (sb : IsStable o p inner Before) (sa : (l : L) → IsStable o p inner (After l)) where
  -- The end of the loop: the operation succeeded, or nothing was done and there is an error, or it
  -- was cut off.
  abbrev pub Ended : ErrorCode → L → W → Type 0
  Ended ec l w =
      After l w ⊎ (((is_error ec ≡ true) ⊎ IsCutOff o p fn inner start w) × (l ≡ start) × Before w)

  abbrev Initial : L → W → Type 0
  Initial l w = (l ≡ start) × Before w

  abbrev Round : W → State × ErrorCode × L × W → Type 0
  Round w next = Rounds o p fn inner Initial Ended measure w next

  -- The call, and the state in which the switch of `one_step` runs.
  abbrev call : W → ℕ × L × W
  call w = fn start (o.err_clear_error w)

  abbrev at_switch : W → W
  at_switch w = (o.err_get_error (call w).2).1

  -- What `one_step` makes of an answer `k` when the call left the variables `l`.
  abbrev answered : W → ErrorCode → SslError → L → State × ErrorCode × L × W
  answered w ec k l =
      let (state, ec') =
        switch_error o k (to_int (o.err_get_error (call w).2).0) (at_switch w) ec in
      (state, ec', l, at_switch w)

  one_step-answered :
      (w : W) (ec : ErrorCode) (k : SslError)
      → o.ssl_get_error (call w).0 (call w).2 ≡ k
      → one_step o p fn ec start w ≡ answered w ec k (call w).1
  unfolding one_step
  one_step-answered w ec k e = rw e

  -- A step that wants more, and one that stops with an error.
  wants :
      (ec : ErrorCode) (w : W)
      → is_error ec ≡ false
      → Before (at_switch w)
      → one_step o p fn ec start w ≡ (ok, ec, start, at_switch w)
      → Round w (ok, ec, start, at_switch w)
  wants ec w clean b e = (
    λ x. absurd (cc (x, clean)),
    λ _.
        let (r, f) = av.flushes (at_switch w) in
        let kept : Before r.1 = sb.stable-flush_io (at_switch w) r f b in
        (
          r,
          f,
          λ x. inr (inl x, refl, same r kept),
          λ c. ((refl, same r kept), av.falls ec start w r (ap (λ x. x.0) e) (rw e f) c),
        ),
  )
    where
      same : (r : Outcome Errc × W) → Before r.1 → Before (caught o p r).1
      same (Outcome.returned x, v) b = b
      same (Outcome.thrown x, v) b = b

  fails : (ec : ErrorCode) (w v : W) → is_error ec ≡ true → Before v → Round w (stop, ec, start, v)
  fails ec w v e b = (λ _. inr (inl e, refl, b), λ c. absurd (cc (e, c)))

  -- The step that stops without an error: SSL_ERROR_SYSCALL with an `errno` of 0.
  cuts :
      (ec ec' : ErrorCode) (w : W)
      → is_error ec' ≡ false
      → positive (call w).0 ≡ false
      → o.ssl_get_error (call w).0 (call w).2 ≡ error_syscall
      → o.last_error (at_switch w) ≡ 0
      → Before (at_switch w)
      → one_step o p fn ec start w ≡ (stop, ec', start, at_switch w)
      → Round w (stop, ec', start, at_switch w)
  cuts ec ec' w clean h e z b q = (
    λ x. absurd (cc (x, clean)),
    λ _.
        let (r, f) = av.flushes (at_switch w) in
        let kept : Before r.1 = sb.stable-flush_io (at_switch w) r f b in
        (r, f, λ _. inr (over r f kept), λ c. absurd (cc c)),
  )
    where
      state : (r : Outcome Errc × W) → r.1 ≡ (caught o p r).1
      state (Outcome.returned x, v) = refl
      state (Outcome.thrown x, v) = refl

      over :
          (r : Outcome Errc × W)
          → flush_io o p inner (at_switch w) ≡ some r
          → Before r.1
          → ((is_error (caught o p r).0 ≡ true) ⊎ IsCutOff o p fn inner start (caught o p r).1)
            × (start ≡ start)
            × Before (caught o p r).1
      over r f b =
          let cut : IsCutOff o p fn inner start (caught o p r).1 = record {
            before = w;
            flushed = r;
            failed = h;
            answer = e;
            errno = z;
            flush = f;
            after = state r;
          } in
          (inr cut, refl, subst Before (state r) b)

  -- The rounds without a success, by the value of `SSL_get_error`.
  failure-Round :
      (ec : ErrorCode) (w : W) (k : SslError)
      → is_error ec ≡ false
      → positive (call w).0 ≡ false
      → Before (at_switch w)
      → o.ssl_get_error (call w).0 (call w).2 ≡ k
      → one_step o p fn ec start w ≡ answered w ec k start
      → Round w (one_step o p fn ec start w)
  unfolding switch_error
  failure-Round ec w error_none clean h b e q = absurd (an.get_error-not_positive _ _ h e)
  failure-Round ec w error_want_read clean h b e q = rw q (wants ec w clean b q)
  failure-Round ec w error_want_write clean h b e q = rw q (wants ec w clean b q)
  failure-Round ec w error_syscall clean h b e q =
      let ec' = (answered w ec error_syscall start).1 in
      elim (Bool-cases (is_error ec')) [
        | inl bad ↦ rw q (fails ec' w (at_switch w) bad b)
        | inr good ↦ rw q (cuts ec ec' w good h e (ground arith) b q)
      ]
  failure-Round ec w error_ssl clean h b e q =
      let n = an.ssl-set _ _ e in
      rw q (fails (answered w ec error_ssl start).1 w (at_switch w) (ground arith) b)
  failure-Round ec w error_zero_return clean h b e q =
      rw q (fails (answered w ec error_zero_return start).1 w (at_switch w) refl b)
  failure-Round ec w error_other clean h b e q =
      rw q (fails (answered w ec error_other start).1 w (at_switch w) refl b)

  success-Round :
      (ec : ErrorCode) (w : W)
      → is_error ec ≡ false
      → After (call w).1 (at_switch w)
      → one_step o p fn ec start w ≡ (stop, ec, (call w).1, at_switch w)
      → Round w (one_step o p fn ec start w)
  success-Round ec w clean a q = rw q (
    λ x. absurd (cc (x, clean)),
    λ _.
        let (r, f) = av.flushes (at_switch w) in
        (
          r,
          f,
          λ _. inl (same r ((sa (call w).1).stable-flush_io (at_switch w) r f a)),
          λ c. absurd (cc c),
        ),
  )
    where
      same : (r : Outcome Errc × W) → After (call w).1 r.1 → After (call w).1 (caught o p r).1
      same (Outcome.returned x, v) b = b
      same (Outcome.thrown x, v) b = b

  any-Round :
      (ec : ErrorCode) (w : W)
      → is_error ec ≡ false
      → Before w
      → Round w (one_step o p fn ec start w)
  unfolding switch_error
  any-Round ec w clean b =
      let b' : Before (o.err_clear_error w) = os.before-err_clear_error w b in
      elim (Bool-cases (positive (call w).0)) [
        | inl h ↦
            success-Round ec w clean
              ((sa (call w).1).stable-err_get_error (call w).2
                (os.fn-success (o.err_clear_error w) b' h))
              (one_step-answered w ec error_none (an.get_error-positive _ _ h))
        | inr h ↦
            failure-Round ec w _ clean h
              (sb.stable-err_get_error (call w).2 (os.fn-failure (o.err_clear_error w) b' h)) refl
              (one_step-answered w ec _ refl
                ∙ ap (answered w ec (o.ssl_get_error (call w).0 (call w).2))
                    (os.fn-start (o.err_clear_error w) h))
      ]

  -- With enough fuel the loop returns. Then the operation has succeeded, or there is an error or it
  -- was cut off, and all is as before.
  pub run-Ended :
      (fuel : ℕ) (w : W)
      → measure w < fuel
      → Before w
      → (out : ErrorCode × L × W) × (run o p fn inner fuel start w ≡ some out)
        × Ended out.0 out.1 out.2
  run-Ended fuel w enough b =
      run-Returns o p fn inner Initial Ended measure
        (λ ec l v clean i. rw i.0 (any-Round ec v clean i.1)) fuel start w enough (refl, b)
