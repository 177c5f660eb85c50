-- ===== src/IoOp.antt =====
-- src/neo/io/detail/io_op.hpp, src/neo/io/read.hpp and src/neo/io/write.hpp: the loop that repeats
-- partial transfers. The buffer consumers are neo-buffer's and enter as an interface.
pub mod Rule
pub mod Laws
pub mod Delivery
pub mod Conditions
pub mod Sending
pub mod Receiving
pub mod Placing
pub mod Faultless
pub mod Stability
use neo_io.Prelude.{ℕ, zero, suc, Bool, Option, none, some, ◌==◌, if◌then◌else◌, sub_size}
use neo_io.Transfer.{TransferResult, transfer_errant, sum_transfer_result, transfer_all}
use mathlib.Core.Option

-- `buffers_consumer` or `buffers_vec_consumer` over a buffer sequence, with `buffer_is_empty` of
-- what its `next` returns.
pub record Consumer (C P : Type 0) : Type 0 where
  pub next : ℕ → C → P
  pub consume : ℕ → C → C
  pub is_empty : P → Bool

-- The two consumers, of which `do_io_op` picks one at compile time.
pub record Consumers (C P : Type 0) : Type 0 where
  pub buffers_consumer : Consumer C P
  pub buffers_vec_consumer : Consumer C P

abbrev pub consumer_type : {C : Type 0} {P : Type 0} → Bool → Consumers C P → Consumer C P
consumer_type use_buffer_ranges cs =
    if use_buffer_ranges then cs.buffers_consumer else cs.buffers_vec_consumer

module _ {R C P S : Type 0} ⦃t : TransferResult R⦄ (k : Consumer C P) (cond : R → ℕ)
    (op : P → S → R × S) where
  -- The guarded call of `op` on the next part of the buffers.
  unfoldable pub transfer_part : R → P → S → R × S
  transfer_part acc part s =
      if k.is_empty part then (acc, s) else (sum_transfer_result acc (op part s).0, (op part s).1)

  -- `n_transferred`.
  abbrev pub moved : R → R → ℕ
  moved before after = sub_size (t.bytes_transferred after) (t.bytes_transferred before)

  -- One round below the test of the condition: transfer, then advance the consumer.
  unfoldable pub io_step : R → C → S → R × C × S
  io_step acc c s =
      let (acc', s') = transfer_part acc (k.next (cond acc) c) s in
      (acc', k.consume (moved acc acc') c, s')

  -- The `while (true)`, on fuel; `none` means that the fuel ran out. The consumer is returned too.
  unfoldable pub io_loop : ℕ → R → C → S → Option (R × C × S)
  io_loop zero acc c s = none
  io_loop (suc fuel) acc c s =
      let (acc', c', s') = io_step acc c s in
      let rest = io_loop fuel acc' c' s' in
      if cond acc == 0
      then some (acc, c, s)
      else if transfer_errant acc'
      then some (acc', c', s')
      else if moved acc acc' == 0
      then some (acc', c', s')
      else rest

-- A `read_stream` or `write_stream`: its `read_some` or `write_some` on a part of the buffers, and
-- whether it takes buffer ranges (`vectored_read_stream`, `vectored_write_stream`).
pub record Stream (R P S : Type 0) : Type 0 where
  pub some_part : P → S → R × S
  pub vectored : Bool

module _ {R C P S : Type 0} ⦃t : TransferResult R⦄ where
  unfoldable pub do_io_op :
      ℕ → Consumers C P → C → (R → ℕ) → Bool → (P → S → R × S) → S → Option (R × S)
  unfolding io_loop io_step transfer_part
  do_io_op fuel cs bufs cond use_buffer_ranges op s =
      Option.map (λ out. (out.0, out.2))
        (io_loop (consumer_type use_buffer_ranges cs) cond op fuel (t.with_bytes t.fresh 0) bufs s)

  unfoldable pub read : ℕ → Consumers C P → Stream R P S → C → (R → ℕ) → S → Option (R × S)
  unfolding do_io_op
  read fuel cs strm bufs cond s = do_io_op fuel cs bufs cond strm.vectored strm.some_part s

  unfoldable pub read_all : ℕ → Consumers C P → Stream R P S → C → S → Option (R × S)
  unfolding read
  read_all fuel cs strm bufs s = read fuel cs strm bufs transfer_all s

  unfoldable pub write : ℕ → Consumers C P → Stream R P S → C → (R → ℕ) → S → Option (R × S)
  unfolding do_io_op
  write fuel cs strm bufs cond s = do_io_op fuel cs bufs cond strm.vectored strm.some_part s

  unfoldable pub write_all : ℕ → Consumers C P → Stream R P S → C → S → Option (R × S)
  unfolding write
  write_all fuel cs strm bufs s = write fuel cs strm bufs transfer_all s
