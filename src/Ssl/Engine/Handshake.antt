-- ===== src/Ssl/Engine/Handshake.antt =====
-- `engine_base::connect` of src/neo/io/openssl/engine.cpp.
use neo_io.Prelude.{ℕ, ◌<◌, ◌≡◌, refl, ◌⊎◌, inl, inr, true, false, some}
use neo_io.Transfer.{ErrorCode, is_error}
use neo_io.Ssl.Engine.{OpenSsl, Ports, positive, connect_fn, connect}
use neo_io.Ssl.Engine.OneShot.{Answers, Advances, IsStable, IsCutOff, run-Ended}

-- The documented behaviour of `SSL_connect`: a positive result means that the handshake is done. The
-- connection stays set up while errors are read and data is flushed.
pub record IsConnectingSsl {W : Type 0} (o : OpenSsl W) (p : Ports W) (inner : ℕ)
    (IsConnected : W → Type 0) : Type 0 where
  pub connect-success :
      (w : W) → positive (o.ssl_connect w).0 ≡ true → IsConnected (o.ssl_connect w).1
  pub connected-IsStable : IsStable o p inner IsConnected

module _ {W : Type 0} {o : OpenSsl W} {p : Ports W} {inner : ℕ} {measure : W → ℕ}
    {IsConnected : W → Type 0} (an : Answers o) (cl : IsConnectingSsl o p inner IsConnected)
    (av : Advances o p (connect_fn o) inner measure) where
  -- `connect` returns, if OpenSSL behaves as documented and each round that wants more brings the
  -- peer's data forward; and if it reports no error, the handshake is done or it was cut off:
  -- SSL_ERROR_SYSCALL came with an `errno` of 0.
  pub connect-connects :
      (fuel : ℕ) (w : W)
      → measure w < fuel
      → (ec : ErrorCode) × (w' : W) × (connect o p inner fuel w ≡ some (ec, w'))
        × (is_error ec ≡ false → IsConnected w' ⊎ IsCutOff o p (connect_fn o) inner tt w')
  unfolding connect connect_fn
  connect-connects fuel w enough =
      let ((ec, l, w'), e, end) =
        run-Ended {Before = λ w. Unit {0}} {After = λ l w. IsConnected w} an av
          (record {
            before-err_clear_error = λ w b. b;
            fn-success = λ w b h. cl.connect-success w h;
            fn-start = λ w h. refl;
            fn-failure = λ w b h. b;
          })
          (record { stable-err_get_error = λ w q. q; stable-flush_io = λ w r f q. q })
          (λ l. cl.connected-IsStable) fuel w enough tt in
      (
        ec,
        w',
        rw e,
        λ c. elim end [
          | inl done ↦ inl done
          | inr (why, _, _) ↦ elim why [ inl bad ↦ absurd (cc (bad, c)) | inr cut ↦ inr cut ]
        ],
      )
