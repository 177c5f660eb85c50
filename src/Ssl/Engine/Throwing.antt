-- ===== src/Ssl/Engine/Throwing.antt =====
-- The overloads of `engine_base` in src/neo/io/openssl/engine.hpp that throw.
use mathlib.Core.Option
use neo_io.Prelude.{ℕ, ◌≡◌, refl, true, false, ◌⊎◌, inl, inr, Option, some, Bool-cases}
use neo_io.Transfer.{ErrorCode, is_error, Outcome}
use neo_io.Throwing.{Result, value, throws, unless_thrown, Throws}
use neo_io.Ssl.Engine.{OpenSsl, Ports, connect, shutdown}

module _ {W : Type 0} (throw_if : ErrorCode → Outcome (Unit {0})) where
  -- `f("..."_ec_throw);`: the temporary checks the code that it was given when the statement ends.
  unfoldable pub or_throw : Option (ErrorCode × W) → Option (Result (Unit {0}) × W)
  or_throw out = Option.map (λ done. (unless_thrown (throw_if done.0) (value tt), done.1)) out

  -- Without an error the call goes on, and with one it throws that.
  pub or_throw-cases :
      {Done : W → Type 0} (out : Option (ErrorCode × W))
      → Throws throw_if
      → ((ec : ErrorCode) × (w : W) × (out ≡ some (ec, w)) × (is_error ec ≡ false → Done w))
      → (r : Result (Unit {0})) × (w : W) × (or_throw out ≡ some (r, w))
        × (((r ≡ value tt) × Done w) ⊎ ((ec : ErrorCode) × (r ≡ throws ec) × (is_error ec ≡ true)))
  unfolding or_throw
  or_throw-cases out t (ec, w, e, done) = elim (Bool-cases (is_error ec)) [
    | inl bad ↦ (throws ec, w, rw (e, t.throws-error ec bad), inr (ec, refl, bad))
    | inr good ↦ (value tt, w, rw (e, t.returns-clean ec good), inl (refl, done good))
  ]

module _ {W : Type 0} (throw_if : ErrorCode → Outcome (Unit {0})) (o : OpenSsl W) (p : Ports W)
    (inner fuel : ℕ) where
  unfoldable pub connect_or_throw : W → Option (Result (Unit {0}) × W)
  unfolding or_throw connect
  connect_or_throw w = or_throw throw_if (connect o p inner fuel w)

  unfoldable pub shutdown_or_throw : W → Option (Result (Unit {0}) × W)
  unfolding or_throw shutdown
  shutdown_or_throw w = or_throw throw_if (shutdown o p inner fuel w)
