-- ===== src/Ssl/Errors.antt =====
-- src/neo/io/openssl/error.cpp: the error category of OpenSSL and its messages. What OpenSSL and the
-- formatting library say are parameters; an `int` and an `unsigned long` are bit patterns.
use neo_io.Prelude.{
  ℕ, ◌+◌, ◌-◌, ◌/◌, ◌%◌, ◌≡◌, refl, ltb, if◌then◌else◌, Option, none, some, List, int_mod, size_mod,
  to_int, arith,
}
use neo_io.Transfer.{ErrorCode, ssl_category, thrown}
use neo_io.Ssl.Context.{Config, ContextCalls}
use neo_io.Ssl.Ownership.{EngineCalls, Take, throw_current}

-- The conversion of an `int` to `unsigned long`, which repeats the sign bit.
abbrev pub to_ulong : ℕ → ℕ
to_ulong n = if ltb n (int_mod / 2) then n else n + (size_mod - int_mod)

-- `msg ? msg : neo::ufmt("[Unknown error {}]", ec)`.
abbrev pub or_unknown : Option (List ℕ) → List ℕ → List ℕ
or_unknown (some msg) unknown = msg
or_unknown none unknown = unknown

-- `ssl_error_category::message`; `reason` is `ERR_reason_error_string`.
pub message : (ℕ → Option (List ℕ)) → (ℕ → List ℕ) → ℕ → List ℕ
message reason unknown ec = or_unknown (reason (to_ulong ec)) (unknown ec)

module _ {W : Type 0} (c : ContextCalls W) (e : EngineCalls W) (take_ptr : Take) (g : Config) where
  -- `throw_current` throws an error of the OpenSSL category. Provided OpenSSL's reasons depend on
  -- the lower 32 bits of a code, as its codes have no more, the message of what is thrown is the
  -- reason of the code that the queue gave, or names it as unknown.
  pub throw_current-message :
      {A : Type 0} (reason : ℕ → Option (List ℕ)) (unknown : ℕ → List ℕ) (w : W)
      → ((a b : ℕ) → a % int_mod ≡ b % int_mod → reason a ≡ reason b)
      → let (code, w₁) = c.err_get_error w in
        (ec : ErrorCode) × (throw_current c e take_ptr g {A = A} w ≡ (thrown ec, w₁))
        × (ec.category ≡ ssl_category)
        × (message reason unknown ec.value ≡ or_unknown (reason code) (unknown (to_int code)))
  unfolding throw_current message
  throw_current-message reason unknown w low =
      let code = (c.err_get_error w).0 in
      let same : reason (to_ulong (to_int code)) ≡ reason code =
        low (to_ulong (to_int code)) code (ground arith) in
      (record { value = to_int code; category = ssl_category }, refl, refl, rw same refl)
