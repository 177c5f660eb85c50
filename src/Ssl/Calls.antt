-- ===== src/Ssl/Calls.antt =====
-- What src/neo/io/openssl/engine.cpp and engine.hpp call: OpenSSL, and the virtual methods of
-- `engine_base`, as interfaces; and the error values of both.
use neo_io.Prelude.{ℕ, ◌/◌, Bool, ◌&&◌, ltb, if◌then◌else◌, Option, List, int_mod}
use neo_io.Transfer.{ErrorCode, generic_category, Outcome}

-- The values of `SSL_get_error`, by their names.
pub data SslError : Type 0 where
  error_none error_want_read error_want_write error_syscall error_ssl error_zero_return : SslError
  error_other : SslError

-- The `std::errc` values in use, `none_set` for the value-initialised one, with Linux's numbers.
pub data Errc : Type 0 where
  none_set no_message io_error protocol_error : Errc

abbrev pub errc_value : Errc → ℕ
errc_value none_set = 0
errc_value no_message = 42
errc_value io_error = 5
errc_value protocol_error = 71

abbrev pub make_error_code : Errc → ErrorCode
make_error_code e = record { value = errc_value e; category = generic_category }

-- An `int` is its bit pattern; this is `n > 0`.
abbrev pub positive : ℕ → Bool
positive n = ltb 0 n && ltb n (int_mod / 2)

-- `(std::max)(n, 0)`.
abbrev pub max_zero : ℕ → ℕ
max_zero n = if positive n then n else 0

-- The calls of OpenSSL. `ssl_read` also gives the bytes that it stored, `bio_read` stores into the
-- output buffer and `bio_write` takes from the input buffer, whose sizes they are given.
pub record OpenSsl (W : Type 0) : Type 0 where
  pub err_clear_error : W → W
  pub ssl_get_error : ℕ → W → SslError
  pub err_get_error : W → ℕ × W
  pub last_error : W → ℕ
  pub ssl_connect : W → ℕ × W
  pub ssl_shutdown : W → ℕ × W
  pub ssl_read : ℕ → W → ℕ × List ℕ × W
  pub ssl_write : List ℕ → ℕ → W → ℕ × W
  pub ssl_want_read : W → Bool
  pub bio_ctrl_pending : W → ℕ
  pub bio_read : ℕ → W → ℕ × W
  pub bio_write : ℕ → W → ℕ × W

-- The virtual methods of `engine_base`: the size of the buffer that they return, 0 for an empty one.
-- A commit may write to a stream, and is `none` if the loop of that write ran out of fuel.
pub record Ports (W : Type 0) : Type 0 where
  pub do_next_output : ℕ → W → Outcome ℕ × W
  pub do_commit_output : ℕ → W → Option (Outcome (Unit {0}) × W)
  pub do_next_input : W → Outcome ℕ × W
  pub do_consume_input : ℕ → W → W
