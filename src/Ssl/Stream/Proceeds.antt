-- ===== src/Ssl/Stream/Proceeds.antt =====
-- What the rounds of an engine over the buffers of src/neo/io/openssl/stream.hpp rely on: how an SSL
-- object proceeds, and that what is thrown is an error.
use mathlib.Core.Option
use mathlib.Core.Path.{subst}
use neo_io.Prelude.{
  ℕ, ◌+◌, ◌*◌, ◌<◌, ◌≤◌, ◌≡◌, ◌≢◌, ◌++◌, false, take, to_int, refl, ◌⊎◌, inl, inr, true, some, List,
  length, ltb, ◌==◌, Bool-cases,
}
use neo_io.Transfer.{
  TransferResult, transfer_errant, throw_if_transfer_errant, ErrorCode, is_error, Outcome, thrown,
}
use neo_io.Buffers.{DynbufIo, Sink, ReadSome, IoBuffers, commit_written, commit, fill, next}
use neo_io.Ssl.Engine.{
  OpenSsl, SslError, error_none, error_want_read, error_want_write, error_syscall, error_ssl,
  error_zero_return, error_other, ok, positive, switch_error,
}
use neo_io.Ssl.Stream.{TlsCalls, TlsStream}
use neo_io.Ssl.Stream.Stable.{IsKept, LeavesLog}

-- What the rounds need of an SSL object. If an operation wants to read, so does the object, and
-- then the BIO pair takes some of the bytes that it is given. `owes x`, less than `limit`, is how
-- much the object has still to write before the operation can go on.
pub record Proceeds {X : Type 0} (c : TlsCalls X) (owes : X → ℕ) (limit : ℕ) : Type 0 where
  pub want_read_lem :
      (ret : ℕ) (x : X) → c.ssl_get_error ret x ≡ error_want_read → c.ssl_want_read x ≡ true
  pub accepts :
      (bytes : List ℕ) (x : X)
      → c.ssl_want_read x ≡ true
      → 0 < length bytes
      → positive (c.bio_write bytes x).0 ≡ true
  pub owes-limit : (x : X) → owes x < limit
  pub owes-clear : (x : X) → owes (c.err_clear_error x) ≡ owes x
  pub owes-error : (x : X) → owes (c.err_get_error x).1 ≡ owes x
  pub wants-error : (x : X) → c.ssl_want_read (c.err_get_error x).1 ≡ c.ssl_want_read x
  pub owes-bio_read : (n : ℕ) (x : X) → owes (c.bio_read n x).2 ≡ owes x
  pub wants-bio_read : (n : ℕ) (x : X) → c.ssl_want_read (c.bio_read n x).2 ≡ c.ssl_want_read x

-- The documented behaviour of `SSL_get_error`. A failure of the system may leave `errno` at 0.
pub record AnswersTls {X : Type 0} (c : TlsCalls X) : Type 0 where
  pub get_error-positive :
      (ret : ℕ) (x : X) → positive ret ≡ true → c.ssl_get_error ret x ≡ error_none
  pub get_error-not_positive :
      (ret : ℕ) (x : X) → positive ret ≡ false → c.ssl_get_error ret x ≢ error_none
  pub ssl-set :
      (ret : ℕ) (x : X) → c.ssl_get_error ret x ≡ error_ssl → to_int (c.err_get_error x).0 ≢ 0

-- The documented behaviour of `SSL_read`: success reads at most the number of bytes asked for, which
-- are then stored. `delivered x` is the plain text that it has handed out. The other calls leave it
-- alone.
pub record ReadsTls {X : Type 0} (c : TlsCalls X) (owes : X → ℕ) (delivered : X → List ℕ)
    : Type 0 where
  pub read-le : (n : ℕ) (x : X) → positive (c.ssl_read n x).0 ≡ true → (c.ssl_read n x).0 ≤ n
  pub read-stored :
      (n : ℕ) (x : X)
      → positive (c.ssl_read n x).0 ≡ true
      → (c.ssl_read n x).0 ≤ length (c.ssl_read n x).1
  pub delivered-success :
      (n : ℕ) (x : X)
      → positive (c.ssl_read n x).0 ≡ true
      → delivered (c.ssl_read n x).2 ≡ delivered x ++ take (c.ssl_read n x).0 (c.ssl_read n x).1
  pub delivered-failure :
      (n : ℕ) (x : X)
      → positive (c.ssl_read n x).0 ≡ false
      → delivered (c.ssl_read n x).2 ≡ delivered x
  pub delivered-left : LeavesLog c delivered
  pub read-owes :
      (n : ℕ) (x : X)
      → c.ssl_get_error (c.ssl_read n x).0 (c.ssl_read n x).2 ≡ error_want_write
      → owes (c.ssl_read n x).2 < owes x

-- The documented behaviour of `SSL_connect`: a positive result means that the handshake is done, and it
-- stays done while errors are read and data is flushed.
pub record ConnectsTls {X : Type 0} (c : TlsCalls X) (owes : X → ℕ) (IsConnected : X → Type 0)
    : Type 0 where
  pub connect-success :
      (x : X) → positive (c.ssl_connect x).0 ≡ true → IsConnected (c.ssl_connect x).1
  pub connect-owes :
      (x : X)
      → c.ssl_get_error (c.ssl_connect x).0 (c.ssl_connect x).1 ≡ error_want_write
      → owes (c.ssl_connect x).1 < owes x
  pub connected-IsKept : IsKept c IsConnected

-- The documented behaviour of `SSL_write`. `accepted x` is the plain text that it has taken: at most the
-- bytes given, from their front on. The other calls leave it alone.
pub record WritesTls {X : Type 0} (c : TlsCalls X) (owes : X → ℕ) (accepted : X → List ℕ)
    : Type 0 where
  pub write-le :
      (src : List ℕ) (n : ℕ) (x : X)
      → positive (c.ssl_write src n x).0 ≡ true
      → (c.ssl_write src n x).0 ≤ n
  pub accepted-success :
      (src : List ℕ) (n : ℕ) (x : X)
      → positive (c.ssl_write src n x).0 ≡ true
      → accepted (c.ssl_write src n x).1 ≡ accepted x ++ take (c.ssl_write src n x).0 src
  pub accepted-failure :
      (src : List ℕ) (n : ℕ) (x : X)
      → positive (c.ssl_write src n x).0 ≡ false
      → accepted (c.ssl_write src n x).1 ≡ accepted x
  pub accepted-left : LeavesLog c accepted
  pub write-owes :
      (src : List ℕ) (n : ℕ) (x : X)
      → c.ssl_get_error (c.ssl_write src n x).0 (c.ssl_write src n x).1 ≡ error_want_write
      → owes (c.ssl_write src n x).1 < owes x

-- More rounds than the bytes to come times `limit` and what OpenSSL owes.
abbrev pub rounds_to_come :
    {X B S : Type 0} → (B → List ℕ) → (S → List ℕ) → ℕ → (X → ℕ) → TlsStream X B S → ℕ
rounds_to_come content incoming limit owes w =
    (length (content w.in_bufs) + length (incoming w.inner)) * limit + owes w.tls + 1

-- A result that counts as failed has an error.
abbrev pub HasErrors : {R : Type 0} → TransferResult R → Type 0
HasErrors {R} t = (r : R) → transfer_errant ⦃t = t⦄ r ≡ true → is_error (t.error r) ≡ true

-- An operation on the SSL object alone, which owes less after it if it wants to write.
pub record ActsOnTls {X B S L : Type 0} (c : TlsCalls X) (owes : X → ℕ)
    (fn : L → TlsStream X B S → ℕ × L × TlsStream X B S) : Type 0 where
  pub fn-in_bufs : (l : L) (w : TlsStream X B S) → (fn l w).2.in_bufs ≡ w.in_bufs
  pub fn-inner : (l : L) (w : TlsStream X B S) → (fn l w).2.inner ≡ w.inner
  pub fn-owes :
      (l : L) (w : TlsStream X B S)
      → c.ssl_get_error (fn l w).0 (fn l w).2.tls ≡ error_want_write
      → owes (fn l w).2.tls < owes w.tls

-- A step goes on only if the operation wants to read or to write.
pub ok-wants :
    {W : Type 0} (o : OpenSsl W) (k : SslError) (sys : ℕ) (w : W) (ec : ErrorCode)
    → (switch_error o k sys w ec).0 ≡ ok
    → (k ≡ error_want_read) ⊎ (k ≡ error_want_write)
unfolding switch_error
ok-wants o error_want_read sys w ec e = inl refl
ok-wants o error_want_write sys w ec e = inr refl
ok-wants o error_none sys w ec e = absurd (cc e)
ok-wants o error_syscall sys w ec e = absurd (cc e)
ok-wants o error_ssl sys w ec e = absurd (cc e)
ok-wants o error_zero_return sys w ec e = absurd (cc e)
ok-wants o error_other sys w ec e = absurd (cc e)

module _ {R : Type 0} ⦃t : TransferResult R⦄ (errors : HasErrors t) where
  throw_if-HasErrors :
      (r : R) (y : ErrorCode) → throw_if_transfer_errant r ≡ thrown y → is_error y ≡ true
  throw_if-HasErrors r y q = elim (Bool-cases (transfer_errant r)) [
    | inl h ↦
        let s : t.error r ≡ y = cc (rw h at q) in subst (λ z. is_error z ≡ true) s (errors r h)
    | inr h ↦ absurd (cc (rw h at q))
  ]

  module _ {B S : Type 0} (d : DynbufIo B) where
    pub commit-HasErrors :
        {C P : Type 0} (sink : Sink R C P S) (fuel size : ℕ) (x : IoBuffers B S)
        (out : Outcome (Unit {0}) × IoBuffers B S) (y : ErrorCode)
        → commit d sink fuel size x ≡ some out
        → out.0 ≡ thrown y
        → is_error y ≡ true
    unfolding commit commit_written
    commit-HasErrors sink fuel size x out y e =
        let (r, _, same) =
          (Option.map-eq-some_iff (commit_written d (d.commit size x.io_bufs)) _).0 e in
        subst (λ z. z.0 ≡ thrown y → is_error y ≡ true) same (throw_if-HasErrors r.0 y)

    pub next-HasErrors :
        (inner_read : ReadSome R S) (n : ℕ) (x : IoBuffers B S) (y : ErrorCode)
        → (next d inner_read n x).0 ≡ thrown y
        → is_error y ≡ true
    unfolding next fill
    next-HasErrors inner_read n x y e = elim (Bool-cases (ltb n (d.available x.io_bufs))) [
      | inl h ↦ absurd (cc (rw h at e))
      | inr h ↦ elim (Bool-cases (d.available x.io_bufs == 0)) [
        | inl z ↦ elim (Bool-cases (transfer_errant r)) [
          | inl bad ↦
              let s : t.error r ≡ y = cc (rw (h, z, bad) at e) in
              subst (λ v. is_error v ≡ true) s (errors r bad)
          | inr good ↦ absurd (cc (rw (h, z, good) at e))
        ]
        | inr z ↦ absurd (cc (rw (h, z) at e))
      ]
    ]
      where
        r : R
        r = (inner_read (d.prepared (d.prepare n x.io_bufs)) x.strm).0
