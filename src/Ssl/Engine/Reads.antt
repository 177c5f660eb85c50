-- ===== src/Ssl/Engine/Reads.antt =====
-- `engine_base::read_some` of src/neo/io/openssl/engine.cpp.
use neo_io.Prelude.{
  ℕ, ◌≤◌, ◌<◌, ◌/◌, ◌≡◌, refl, sym, ◌∙◌, ◌⊎◌, inl, inr, true, false, ◌==◌, some, List, [], ◌++◌, ap,
  arith, length, take, append-nil, length-take, to_int, int_mod,
}
use neo_io.Transfer.{is_error, Outcome, BasicTransferResult}
use neo_io.Ssl.Engine.{OpenSsl, Ports, Errc, positive, flush_io, Reading, read_fn, read_some}
use neo_io.Ssl.Engine.OneShot.{
  Answers, Advances, IsStable, IsOneShot, IsCutOff, positive→lt, run-Ended,
}

-- The documented behaviour of `SSL_read`: success reads at most the number of bytes asked for, which
-- are then stored. `delivered w` is the plain text that it has handed out so far. The other calls
-- leave it alone.
pub record IsReadingSsl {W : Type 0} (o : OpenSsl W) (p : Ports W) (inner : ℕ)
    (delivered : W → List ℕ) : Type 0 where
  pub read-le : (n : ℕ) (w : W) → positive (o.ssl_read n w).0 ≡ true → (o.ssl_read n w).0 ≤ n
  pub read-stored :
      (n : ℕ) (w : W)
      → positive (o.ssl_read n w).0 ≡ true
      → (o.ssl_read n w).0 ≤ length (o.ssl_read n w).1
  pub delivered-success :
      (n : ℕ) (w : W)
      → positive (o.ssl_read n w).0 ≡ true
      → delivered (o.ssl_read n w).2 ≡ delivered w ++ take (o.ssl_read n w).0 (o.ssl_read n w).1
  pub delivered-failure :
      (n : ℕ) (w : W)
      → positive (o.ssl_read n w).0 ≡ false
      → delivered (o.ssl_read n w).2 ≡ delivered w
  pub delivered-err_clear_error : (w : W) → delivered (o.err_clear_error w) ≡ delivered w
  pub delivered-err_get_error : (w : W) → delivered (o.err_get_error w).1 ≡ delivered w
  pub delivered-flush_io :
      (w : W) (r : Outcome Errc × W) → flush_io o p inner w ≡ some r → delivered r.1 ≡ delivered w

abbrev pub start : ℕ → Reading
start size = record { left = size; total_read = 0; stored = [] }

module _ {W : Type 0} {o : OpenSsl W} {p : Ports W} {inner : ℕ} {measure : W → ℕ}
    {delivered : W → List ℕ} (size : ℕ) (an : Answers o) (rl : IsReadingSsl o p inner delivered)
    (av : Advances o p (read_fn o) inner measure) (some_room : 0 < size)
    (small : size < int_mod / 2) (before : List ℕ) where
  abbrev Before : W → Type 0
  Before w = delivered w ≡ before

  -- The variables after a read that stored something.
  record Stored (l : Reading) (w : W) : Type 0 where
    bound : l.total_read ≤ size
    count : length l.stored ≡ l.total_read
    moved : 0 < l.total_read
    handed : delivered w ≡ before ++ l.stored

  read_fn-IsOneShot : IsOneShot o (read_fn o) (start size) Before Stored
  unfolding read_fn
  read_fn-IsOneShot = record {
    before-err_clear_error = λ w b. rl.delivered-err_clear_error w ∙ b;
    fn-success = λ w b h.
        let fits : to_int size ≡ size = omega arith in
        let n : ℕ = (o.ssl_read (to_int size) w).0 in
        let bytes : List ℕ = (o.ssl_read (to_int size) w).1 in
        let (n-pos, n-int) = positive→lt n h in
        let n-le : n ≤ size = omega (arith, rl.read-le (to_int size) w h, fits) in
        let have : n ≤ length bytes = rl.read-stored (to_int size) w h in
        let gave = rl.delivered-success (to_int size) w h in
        rw h (record {
          bound = omega (arith, n-le);
          count = length-take n bytes ∙ omega (arith, n-le, have, n-int);
          moved = omega (arith, n-pos, n-int);
          handed = gave ∙ ap (λ x. x ++ take n bytes) b;
        });
    fn-start = λ w h. rw h;
    fn-failure = λ w b h. rl.delivered-failure (to_int size) w h ∙ b;
  }

  Before-IsStable : IsStable o p inner Before
  Before-IsStable = record {
    stable-err_get_error = λ w b. rl.delivered-err_get_error w ∙ b;
    stable-flush_io = λ w r f b. rl.delivered-flush_io w r f ∙ b;
  }

  Stored-IsStable : (l : Reading) → IsStable o p inner (Stored l)
  Stored-IsStable l = record {
    stable-err_get_error = λ w s. record {
      bound = s.bound;
      count = s.count;
      moved = s.moved;
      handed = rl.delivered-err_get_error w ∙ s.handed;
    };
    stable-flush_io = λ w r f s. record {
      bound = s.bound;
      count = s.count;
      moved = s.moved;
      handed = rl.delivered-flush_io w r f ∙ s.handed;
    };
  }

module _ {W : Type 0} {o : OpenSsl W} {p : Ports W} {inner : ℕ} {measure : W → ℕ}
    {delivered : W → List ℕ} (size : ℕ) (an : Answers o) (rl : IsReadingSsl o p inner delivered)
    (av : Advances o p (read_fn o) inner measure) (some_room : 0 < size)
    (small : size < int_mod / 2) where
  -- `read_some` into a buffer of one byte or more, but less than 2^31, returns, if OpenSSL behaves
  -- as documented and each round that wants more brings the peer's data forward. It reports at most
  -- the buffer's size and has stored exactly as many bytes as it reports, which are what OpenSSL has
  -- handed out; and if it reports no error it has read something, or nothing because it was cut
  -- off: SSL_ERROR_SYSCALL came with an `errno` of 0.
  pub read_some-delivers :
      (fuel : ℕ) (w : W)
      → measure w < fuel
      → (r : BasicTransferResult) × (bytes : List ℕ) × (w' : W) × (read_some o p inner fuel size w
          ≡ some (r, bytes, w'))
        × (r.bytes_transferred ≤ size)
        × (length bytes ≡ r.bytes_transferred)
        × (delivered w' ≡ delivered w ++ bytes)
        × (is_error r.ec ≡ false
            → (0 < r.bytes_transferred)
              ⊎ ((r.bytes_transferred ≡ 0) × IsCutOff o p (read_fn o) inner (start size) w'))
  unfolding read_some
  read_some-delivers fuel w enough =
      let ((ec, l, w'), e, end) =
        run-Ended an av (read_fn-IsOneShot size an rl av some_room small (delivered w))
          (Before-IsStable size an rl av some_room small (delivered w))
          (Stored-IsStable size an rl av some_room small (delivered w)) fuel w enough refl in
      let full : (size == 0) ≡ false = ground arith in
      let facts : (l.total_read ≤ size)
          × (length l.stored ≡ l.total_read)
          × (delivered w' ≡ delivered w ++ l.stored)
          × (is_error ec ≡ false
              → (0 < l.total_read)
                ⊎ ((l.total_read ≡ 0) × IsCutOff o p (read_fn o) inner (start size) w')) =
        elim end [
          | inl s ↦ (s.bound, s.count, s.handed, λ _. inl s.moved)
          | inr (why, q, same) ↦ (
            omega (arith, ap (λ x. x.total_read) q),
            rw q refl,
            rw q (same ∙ sym (append-nil (delivered w))),
            λ c. elim why [
              | inl bad ↦ absurd (cc (bad, c))
              | inr cut ↦ inr (ap (λ x. x.total_read) q, cut)
            ],
          )
        ] in
      (
        record { bytes_transferred = l.total_read; ec = ec },
        l.stored,
        w',
        rw (full, e),
        facts.0,
        facts.1,
        facts.2,
        facts.3,
      )
