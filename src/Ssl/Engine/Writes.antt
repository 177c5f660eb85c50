-- ===== src/Ssl/Engine/Writes.antt =====
-- `engine_base::write_some` of src/neo/io/openssl/engine.cpp.
use neo_io.Prelude.{
  ℕ, ◌≤◌, ◌<◌, ◌/◌, ◌≡◌, refl, sym, ap, ◌∙◌, ◌⊎◌, inl, inr, true, false, some, List, ◌++◌, arith,
  length, take, append-nil, to_int, int_mod, size_mod, ◌+◌, ◌%◌,
}
use neo_io.Transfer.{is_error, Outcome, BasicTransferResult}
use neo_io.Ssl.Engine.{OpenSsl, Ports, Errc, positive, flush_io, Writing, write_fn, write_some}
use neo_io.Ssl.Engine.OneShot.{
  Answers, Advances, IsStable, IsOneShot, IsCutOff, positive→lt, run-Ended,
}

-- The documented behaviour of `SSL_write`. `accepted w` is the plain text that it has taken: at most
-- the bytes given, from their front on. The other calls leave it alone.
pub record IsWritingSsl {W : Type 0} (o : OpenSsl W) (p : Ports W) (inner : ℕ)
    (accepted : W → List ℕ) : Type 0 where
  pub write-le :
      (src : List ℕ) (n : ℕ) (w : W)
      → positive (o.ssl_write src n w).0 ≡ true
      → (o.ssl_write src n w).0 ≤ n
  pub accepted-success :
      (src : List ℕ) (n : ℕ) (w : W)
      → positive (o.ssl_write src n w).0 ≡ true
      → accepted (o.ssl_write src n w).1 ≡ accepted w ++ take (o.ssl_write src n w).0 src
  pub accepted-failure :
      (src : List ℕ) (n : ℕ) (w : W)
      → positive (o.ssl_write src n w).0 ≡ false
      → accepted (o.ssl_write src n w).1 ≡ accepted w
  pub accepted-err_clear_error : (w : W) → accepted (o.err_clear_error w) ≡ accepted w
  pub accepted-err_get_error : (w : W) → accepted (o.err_get_error w).1 ≡ accepted w
  pub accepted-flush_io :
      (w : W) (r : Outcome Errc × W) → flush_io o p inner w ≡ some r → accepted r.1 ≡ accepted w

abbrev pub start : List ℕ → Writing
start src = record { left = src; total_written = 0 }

module _ {W : Type 0} {o : OpenSsl W} {p : Ports W} {inner : ℕ} {measure : W → ℕ}
    {accepted : W → List ℕ} (src : List ℕ) (an : Answers o) (wl : IsWritingSsl o p inner accepted)
    (av : Advances o p (write_fn o) inner measure) (some_bytes : 0 < length src)
    (small : length src < int_mod / 2) (before : List ℕ) where
  abbrev Before : W → Type 0
  Before w = accepted w ≡ before

  abbrev After : Writing → W → Type 0
  After l w =
      (l.total_written ≤ length src)
      × (0 < l.total_written)
      × (accepted w ≡ before ++ take l.total_written src)

  write_fn-IsOneShot : IsOneShot o (write_fn o) (start src) Before After
  unfolding write_fn
  write_fn-IsOneShot = record {
    before-err_clear_error = λ w b. wl.accepted-err_clear_error w ∙ b;
    fn-success = λ w b h.
        let n : ℕ = (o.ssl_write src (to_int (length src)) w).0 in
        let (n-pos, n-int) = positive→lt n h in
        let n-le : n ≤ length src = omega (arith, wl.write-le src (to_int (length src)) w h) in
        let total : (0 + n) % size_mod ≡ n = omega (arith, n-int) in
        let took = wl.accepted-success src (to_int (length src)) w h in
        rw (h, total) (n-le, n-pos, took ∙ ap (λ x. x ++ take n src) b);
    fn-start = λ w h. rw h;
    fn-failure = λ w b h. wl.accepted-failure src (to_int (length src)) w h ∙ b;
  }

  Before-IsStable : IsStable o p inner Before
  Before-IsStable = record {
    stable-err_get_error = λ w b. wl.accepted-err_get_error w ∙ b;
    stable-flush_io = λ w r f b. wl.accepted-flush_io w r f ∙ b;
  }

  After-IsStable : (l : Writing) → IsStable o p inner (After l)
  After-IsStable l = record {
    stable-err_get_error = λ w (le, pos, e). (le, pos, wl.accepted-err_get_error w ∙ e);
    stable-flush_io = λ w r f (le, pos, e). (le, pos, wl.accepted-flush_io w r f ∙ e);
  }

module _ {W : Type 0} {o : OpenSsl W} {p : Ports W} {inner : ℕ} {measure : W → ℕ}
    {accepted : W → List ℕ} (an : Answers o) (wl : IsWritingSsl o p inner accepted)
    (av : Advances o p (write_fn o) inner measure) where
  -- `write_some` of one byte or more, but less than 2^31, returns, if OpenSSL behaves as documented
  -- and each round that wants more brings the peer's data forward. OpenSSL has then taken exactly
  -- the reported number of leading bytes; and if it reports no error, at least one, or none because
  -- the write was cut off: SSL_ERROR_SYSCALL came with an `errno` of 0.
  pub write_some-accepts :
      (src : List ℕ) (fuel : ℕ) (w : W)
      → 0 < length src
      → length src < int_mod / 2
      → measure w < fuel
      → (r : BasicTransferResult) × (w' : W) × (write_some o p inner fuel src w ≡ some (r, w'))
        × (r.bytes_transferred ≤ length src)
        × (accepted w' ≡ accepted w ++ take r.bytes_transferred src)
        × (is_error r.ec ≡ false
            → (0 < r.bytes_transferred)
              ⊎ ((r.bytes_transferred ≡ 0) × IsCutOff o p (write_fn o) inner (start src) w'))
  unfolding write_some
  write_some-accepts src fuel w some_bytes small enough =
      let ((ec, l, w'), e, end) =
        run-Ended an av (write_fn-IsOneShot src an wl av some_bytes small (accepted w))
          (Before-IsStable src an wl av some_bytes small (accepted w))
          (After-IsStable src an wl av some_bytes small (accepted w)) fuel w enough refl in
      let facts : (l.total_written ≤ length src)
          × (accepted w' ≡ accepted w ++ take l.total_written src)
          × (is_error ec ≡ false
              → (0 < l.total_written)
                ⊎ ((l.total_written ≡ 0) × IsCutOff o p (write_fn o) inner (start src) w')) =
        elim end [
          | inl (le, pos, took) ↦ (le, took, λ _. inl pos)
          | inr (why, q, same) ↦ (
            omega (arith, ap (λ x. x.total_written) q),
            rw q (same ∙ sym (append-nil (accepted w))),
            λ c. elim why [
              | inl bad ↦ absurd (cc (bad, c))
              | inr cut ↦ inr (ap (λ x. x.total_written) q, cut)
            ],
          )
        ] in
      (record { bytes_transferred = l.total_written; ec = ec }, w', rw e, facts.0, facts.1, facts.2)
