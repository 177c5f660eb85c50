-- ===== src/Throwing.antt =====
-- `neo::error_code_thrower`, which src/neo/io/stream/file.hpp, src/neo/io/stream/socket.hpp and
-- src/neo/io/openssl/engine.hpp use to turn a stored error code into an exception. What it does with
-- the code that it holds, when it is called and when it is destroyed, is a parameter.
use neo_io.Prelude.{◌≡◌, true, false, Option, none, some}
use neo_io.Transfer.{ErrorCode, is_error, Outcome, returned, thrown}

-- How a function ends that may throw or read an optional: with a value, with an exception, with the
-- value of an optional that holds none, which is undefined, or with an exception after it has read
-- such a value.
pub data Result (A : Type 0) : Type 0 where
  value : A → Result A
  throws : ErrorCode → Result A
  undefined : Result A
  undefined_throws : ErrorCode → Result A

-- `*opt`.
abbrev pub get : {A : Type 0} → Option A → Result A
get none = undefined
get (some a) = value a

-- An end that the check lets stand, or an exception in its place.
abbrev pub unless_thrown : {A : Type 0} → Outcome (Unit {0}) → Result A → Result A
unless_thrown (thrown e) r = throws e
unless_thrown (returned u) r = r

-- What ends after the value of an optional that holds none was read.
abbrev pub after_undefined : {A : Type 0} → Outcome (Unit {0}) → Result A
after_undefined (thrown e) = undefined_throws e
after_undefined (returned u) = undefined

-- The thrower throws the error that it holds, and nothing if it holds none.
pub record Throws (throw_if : ErrorCode → Outcome (Unit {0})) : Type 0 where
  pub throws-error : (ec : ErrorCode) → is_error ec ≡ true → throw_if ec ≡ thrown ec
  pub returns-clean : (ec : ErrorCode) → is_error ec ≡ false → throw_if ec ≡ returned tt

module _ {W : Type 0} (throw_if : ErrorCode → Outcome (Unit {0})) where
  -- `err(...); return *opt;`: the check comes first.
  abbrev pub check_then_get : {A : Type 0} → Option A × ErrorCode × W → Result A × W
  check_then_get (opt, ec, w) = (unless_thrown (throw_if ec) (get opt), w)

  -- `return *f(..., "..."_ec_throw);`: the temporary checks when the expression ends, after the
  -- optional was read.
  abbrev pub get_then_check : {A : Type 0} → Option A × ErrorCode × W → Result A × W
  get_then_check (none, ec, w) = (after_undefined (throw_if ec), w)
  get_then_check (some a, ec, w) = (unless_thrown (throw_if ec) (value a), w)
