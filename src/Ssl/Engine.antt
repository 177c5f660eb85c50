-- ===== src/Ssl/Engine.antt =====
-- src/neo/io/openssl/engine.cpp and engine.hpp: the engine's loops. OpenSSL and the engine's two
-- buffers enter as interfaces; one state `W` holds all that they keep.
pub mod Run
pub mod OneShot
pub mod Reads
pub mod Writes
pub mod Handshake
pub mod Shutdown
pub mod Throwing
pub mod Flush
pub mod Keeps
pub use neo_io.Ssl.Calls.{
  SslError, error_none, error_want_read, error_want_write, error_syscall, error_ssl,
  error_zero_return, error_other, Errc, none_set, no_message, io_error, protocol_error, errc_value,
  make_error_code, positive, max_zero, OpenSsl, Ports,
}
use mathlib.Core.Option
use neo_io.Prelude.{
  ℕ, zero, suc, ◌-◌, ◌+◌, ◌/◌, ◌≡◌, Bool, true, false, ◌||◌, ◌&&◌, not, ◌==◌, ltb, if◌then◌else◌,
  Option, none, some, List, [], ◌++◌, take, drop, length, to_int, int_mod, add_size,
}
use neo_io.Transfer.{
  ErrorCode, ErrorCategory, system_category, generic_category, ssl_category, no_error, is_error,
  Outcome, returned, thrown, BasicTransferResult,
}

-- `engine_impl::state_t`.
pub data State : Type 0 where
  ok stop : State

module _ {W : Type 0} (o : OpenSsl W) (p : Ports W) where
  -- One round of the `while` of `flush_io`, by what the commit did: whether to go on, and how it
  -- ended otherwise. `none` means that the commit's own loop ran out of fuel.
  unfoldable pub committed :
      Option (Outcome (Unit {0}) × W) → Option (Bool × Outcome (Unit {0}) × W)
  committed none = none
  committed (some (thrown e, w)) = some (false, thrown e, w)
  committed (some (returned u, w)) = some (true, returned tt, w)

  -- The same, by what `do_next_output` did.
  unfoldable pub output_round : Outcome ℕ × W → Option (Bool × Outcome (Unit {0}) × W)
  output_round (thrown e, w) = some (false, thrown e, w)
  output_round (returned zero, w) = some (false, returned tt, w)
  output_round (returned (suc n), w) =
      let (n_out, w') = o.bio_read (to_int (suc n)) w in
      committed (p.do_commit_output (max_zero n_out) w')

  -- The rest of the `while` after a round.
  unfoldable pub after_round :
      Option (Bool × Outcome (Unit {0}) × W)
      → (W → Option (Outcome (Unit {0}) × W))
      → Option (Outcome (Unit {0}) × W)
  after_round none rest = none
  after_round (some (more, out, w)) rest = let on = rest w in if more then on else some (out, w)

  -- The `while` of `flush_io`, on fuel; `none` means that the fuel ran out.
  unfoldable pub flush_output : ℕ → W → Option (Outcome (Unit {0}) × W)
  unfolding after_round
  flush_output zero w = none
  flush_output (suc fuel) w =
      let n_pending = o.bio_ctrl_pending w in
      let rest =
        after_round (output_round (p.do_next_output n_pending w)) (λ w'. flush_output fuel w') in
      if n_pending == 0 then some (returned tt, w) else rest

  -- The single read of `flush_io`, given what `do_next_input` did.
  unfoldable pub input_round : Outcome ℕ × W → Outcome Errc × W
  input_round (thrown e, w) = (thrown e, w)
  input_round (returned zero, w) = (returned no_message, w)
  input_round (returned (suc n), w) =
      let (n_in, w') = o.bio_write (to_int (suc n)) w in
      (returned none_set, p.do_consume_input (max_zero n_in) w')

  unfoldable pub flush_input : Outcome (Unit {0}) × W → Outcome Errc × W
  flush_input (thrown e, w) = (thrown e, w)
  flush_input (returned u, w) =
      if o.ssl_want_read w then input_round (p.do_next_input w) else (returned none_set, w)

  unfoldable pub flush_io : ℕ → W → Option (Outcome Errc × W)
  unfolding flush_output output_round committed flush_input input_round
  flush_io fuel w = Option.map flush_input (flush_output fuel w)

  -- The `try` of `run`: the error code that it stores.
  abbrev pub caught : Outcome Errc × W → ErrorCode × W
  caught (returned e, w) = (make_error_code e, w)
  caught (thrown e, w) = (e, w)

-- The `switch` of `one_step`: the state, and the error code if the branch stores one.
module _ {W : Type 0} (o : OpenSsl W) where
  unfoldable pub switch_error : SslError → ℕ → W → ErrorCode → State × ErrorCode
  switch_error error_want_read sys_error w ec = (ok, ec)
  switch_error error_want_write sys_error w ec = (ok, ec)
  switch_error error_none sys_error w ec = (stop, ec)
  switch_error error_syscall sys_error w ec =
      (stop, record { value = o.last_error w; category = system_category })
  switch_error error_ssl sys_error w ec =
      (stop, record { value = sys_error; category = ssl_category })
  switch_error error_zero_return sys_error w ec = (stop, make_error_code io_error)
  switch_error error_other sys_error w ec = (stop, make_error_code protocol_error)

-- `L` holds the variables that the lambda passed as `fn` captures by reference.
module _ {W L : Type 0} (o : OpenSsl W) (p : Ports W) (fn : L → W → ℕ × L × W) where
  unfoldable pub one_step : ErrorCode → L → W → State × ErrorCode × L × W
  unfolding switch_error
  one_step ec l w =
      let (op_res, l', w₁) = fn l (o.err_clear_error w) in
      let ssl_err = o.ssl_get_error op_res w₁ in
      let (code, w₂) = o.err_get_error w₁ in
      let (state, ec') = switch_error o ssl_err (to_int code) w₂ ec in (state, ec', l', w₂)

  abbrev pub is_stop : State → Bool
  is_stop stop = true
  is_stop ok = false

  -- The rest of a round after the flush: stop, or go on by `rest`.
  pub after_flush :
      State
      → L
      → (ErrorCode → W → Option (ErrorCode × L × W))
      → Option (Outcome Errc × W)
      → Option (ErrorCode × L × W)
  after_flush state l rest none = none
  after_flush state l rest (some r) =
      let (ec, w) = caught o p r in
      let on = rest ec w in if is_stop state || is_error ec then some (ec, l, w) else on

  -- The `for (;;)` of `run`, on fuel for its rounds and for each flush.
  pub run_loop : ℕ → ℕ → ErrorCode → L → W → Option (ErrorCode × L × W)
  run_loop inner zero ec l w = none
  run_loop inner (suc fuel) ec l w =
      let (state, ec', l', w') = one_step ec l w in
      let flushed =
        after_flush state l' (λ ec₂ w₂. run_loop inner fuel ec₂ l' w₂) (flush_io o p inner w') in
      if is_error ec' then some (ec', l', w') else flushed

  pub run : ℕ → ℕ → L → W → Option (ErrorCode × L × W)
  unfolding run_loop after_flush one_step flush_io
  run inner fuel l w = run_loop inner fuel no_error l w

-- The variables of `read_some`: the rest of the buffer, the count, and the bytes stored so far.
pub record Reading : Type 0 where
  pub left : ℕ
  pub total_read : ℕ
  pub stored : List ℕ

-- The variables of `write_some`: the rest of the data, and the count.
pub record Writing : Type 0 where
  pub left : List ℕ
  pub total_written : ℕ

module _ {W : Type 0} (o : OpenSsl W) where
  -- The lambda of `read_some`.
  unfoldable pub read_fn : Reading → W → ℕ × Reading × W
  read_fn l w =
      let (nread, bytes, w') = o.ssl_read (to_int l.left) w in
      (
        nread,
        if positive nread
            then record {
              left = l.left - nread;
              total_read = add_size l.total_read nread;
              stored = l.stored ++ take nread bytes;
            }
            else l,
        w',
      )

  -- The lambda of `write_some`.
  unfoldable pub write_fn : Writing → W → ℕ × Writing × W
  write_fn l w =
      let (nwritten, w') = o.ssl_write l.left (to_int (length l.left)) w in
      (
        nwritten,
        if positive nwritten
            then record {
              left = drop nwritten l.left;
              total_written = add_size l.total_written nwritten;
            }
            else l,
        w',
      )

  -- The lambdas of `connect` and `shutdown`.
  unfoldable pub connect_fn : Unit {0} → W → ℕ × Unit {0} × W
  connect_fn l w = let (r, w') = o.ssl_connect w in (r, l, w')

  unfoldable pub shutdown_fn : Unit {0} → W → ℕ × Unit {0} × W
  shutdown_fn l w = let (r, w') = o.ssl_shutdown w in (r, l, w')

  pub needs_input : W → Bool
  needs_input w = o.ssl_want_read w

module _ {W : Type 0} (o : OpenSsl W) (p : Ports W) (inner fuel : ℕ) where
  pub connect : W → Option (ErrorCode × W)
  unfolding run connect_fn
  connect w = Option.map (λ out. (out.0, out.2)) (run o p (connect_fn o) inner fuel tt w)

  pub shutdown : W → Option (ErrorCode × W)
  unfolding run shutdown_fn
  shutdown w = Option.map (λ out. (out.0, out.2)) (run o p (shutdown_fn o) inner fuel tt w)

  -- `read_some` of a buffer of `size` bytes, with the bytes that it stored.
  pub read_some : ℕ → W → Option (BasicTransferResult × List ℕ × W)
  unfolding run read_fn
  read_some size w =
      if size == 0
      then some (record { bytes_transferred = 0; ec = no_error }, [], w)
      else Option.map
          (λ out.
            (record { bytes_transferred = out.1.total_read; ec = out.0 }, out.1.stored, out.2))
          (run o p (read_fn o) inner fuel (record { left = size; total_read = 0; stored = [] }) w)

  pub write_some : List ℕ → W → Option (BasicTransferResult × W)
  unfolding run write_fn
  write_some bytes w =
      Option.map (λ out. (record { bytes_transferred = out.1.total_written; ec = out.0 }, out.2))
        (run o p (write_fn o) inner fuel (record { left = bytes; total_written = 0 }) w)
