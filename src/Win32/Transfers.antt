-- ===== src/Win32/Transfers.antt =====
-- How much `read` of src/neo/io/read.hpp and `write` of src/neo/io/write.hpp move over a handle stream of
-- src/neo/io/stream/win32.cpp.
use neo_io.Prelude.{
  ℕ, ◌%◌, ◌^◌, ◌+◌, ◌-◌, ◌≤◌, ◌<◌, ◌≡◌, ◌∙◌, refl, sym, Bool-cases, inl, inr, false, some, arith,
  size_mod,
}
use neo_io.Transfer.{
  TransferResult, IsTransferResult, transfer_all, sum_transfer_result, NativeTransferResult,
  native_transfer_result, native-IsTransferResult,
}
use neo_io.IoOp.{
  Consumer, Consumers, Stream, consumer_type, moved, io_step, transfer_part, do_io_op, read, write,
  read_all, write_all,
}
use neo_io.IoOp.Laws.{Spans, IsConsumer, AreConsumers}
use neo_io.IoOp.Rule.{Stops, Goes, io_loop-Returns}
use neo_io.Posix.{Buffer}
use neo_io.Win32.{Calls, read_some, write_some}

-- A consumer of one buffer: a part that is as long as it may be is the rest of the buffer.
abbrev pub IsOneBuffer : {C P : Type 0} → Spans C P → ℕ → Consumer C P → Type 0
IsOneBuffer {C} {P} v total k =
    (n : ℕ) (c : C) → v.pos c ≤ total → total ≤ n → v.pos c + v.len (k.next n c) ≡ total

module _ {R C P S : Type 0} ⦃t : TransferResult R⦄ (v : Spans C P) (total : ℕ) (k : Consumer C P)
    (op : P → S → R × S) where
  record Inv (acc : R) (c : C) (s : S) : Type 0 where
    count : t.bytes_transferred acc ≡ v.pos c
    low : v.pos c ≤ total % 2 ^ 32

  abbrev Bounded : R → C → S → Type 0
  Bounded r c s = t.bytes_transferred r ≤ total % 2 ^ 32

  abbrev Round : R → C → R × C × S → Type 0
  Round acc c next =
      Stops k transfer_all op Inv Bounded (λ d. total - v.pos d) acc next
      × Goes k transfer_all op Inv Bounded (λ d. total - v.pos d) c acc next

module _ {R C P S : Type 0} ⦃t : TransferResult R⦄ {v : Spans C P} {total : ℕ} {k : Consumer C P}
    (op : P → S → R × S) (rl : IsTransferResult t) (small : total < size_mod)
    (kl : IsConsumer v total k) (whole : IsOneBuffer v total k)
    (op-le : (p : P) (s : S) → t.bytes_transferred (op p s).0 ≤ v.len p % 2 ^ 32) where
  module _ {acc : R} {c : C} {s : S} (i : Inv v total k op acc c s) where
    abbrev part : P
    part = k.next (size_mod - 1) c

    abbrev res : R
    res = (op part s).0

    -- The rest of the buffer has `v.pos c` bytes less, also modulo 2^32.
    within : v.pos c + t.bytes_transferred res ≤ total % 2 ^ 32
    within =
        let inside : v.pos c ≤ total = omega (arith, i.low) in
        omega (arith, i.low, op-le part s, whole (size_mod - 1) c inside (omega (arith, small)))

    bytes-sum :
        t.bytes_transferred (sum_transfer_result acc res) ≡ v.pos c + t.bytes_transferred res
    bytes-sum = rl.bytes-with_bytes res _ ∙ omega (arith, i.count, within, small)

    moved-sum : moved k transfer_all op acc (sum_transfer_result acc res) ≡ t.bytes_transferred res
    moved-sum = omega (arith, bytes-sum, within, i.count, small)

    pos_after :
        v.pos (k.consume (moved k transfer_all op acc (sum_transfer_result acc res)) c)
        ≡ v.pos c + t.bytes_transferred res
    pos_after = rw moved-sum (kl.pos-consume (t.bytes_transferred res) c (omega (arith, within)))

    any-Round : Round v total k op acc c (io_step k transfer_all op acc c s)
    unfolding io_step transfer_part
    any-Round = elim (Bool-cases (k.is_empty part)) [
      | inl e ↦ rw e (
        λ _. omega (arith, i.count, i.low),
        λ _ m. absurd (m (omega (arith, i.count, i.low, small))),
      )
      | inr e ↦ rw e (
        λ _. omega (arith, bytes-sum, within),
        λ _ m. (
          record { count = bytes-sum ∙ sym pos_after; low = omega (arith, pos_after, within) },
          omega (arith, pos_after, within, moved-sum),
        ),
      )
    ]

  -- `do_io_op` over one buffer with `transfer_all` returns, within the bound.
  do_io_op-bounded :
      (fuel : ℕ) (cs : Consumers C P) (bufs : C) (s : S)
      → consumer_type false cs ≡ k
      → total < fuel
      → v.pos bufs ≡ 0
      → (r : R) × (s' : S) × (do_io_op fuel cs bufs transfer_all false op s ≡ some (r, s'))
        × (t.bytes_transferred r ≤ total % 2 ^ 32)
  unfolding do_io_op
  do_io_op-bounded fuel cs bufs s picked enough at_start =
      let (out, e, bound) =
        io_loop-Returns k transfer_all op (Inv v total k op) (Bounded v total k op)
          (λ d. total - v.pos d) (λ acc c s i z. absurd (omega (arith, z)))
          (λ acc c s i nz. any-Round i) fuel _ bufs s (omega (arith, at_start, enough))
          (record {
            count = rl.bytes-with_bytes t.fresh 0 ∙ sym at_start;
            low = omega (arith, at_start);
          }) in
      (out.0, out.2, rw (picked, e), bound)

-- A handle as a stream over parts of one buffer, by one of its two operations.
abbrev pub handle_stream :
    {P W : Type 0}
    → (Buffer → W → NativeTransferResult × W)
    → (P → Buffer)
    → Stream NativeTransferResult P W
handle_stream transfer part_of = record {
  some_part = λ p w. transfer (part_of p) w;
  vectored = false;
}

-- A call moves no more than it is asked for.
pub record IsFileApi {W : Type 0} (c : Calls W) : Type 0 where
  pub read-le : (h a n : ℕ) (w : W) → (c.read_file h a n w).0 ≤ n
  pub write-le : (h a n : ℕ) (w : W) → (c.write_file h a n w).0 ≤ n

-- `read` into and `write` of one buffer of `total` bytes, less than 2^64, with more fuel than bytes,
-- over a Windows handle, if the calls move no more than they are asked for: both return, and move
-- at most `total` modulo 2^32 bytes, in however many calls.
pub transfers-bounded :
    {W C P : Type 0} {v : Spans C P} {total : ℕ} {cs : Consumers C P} (c : Calls W)
    (native_handle : ℕ) (part_of : P → Buffer) (fuel : ℕ) (bufs : C) (w : W)
    → IsFileApi c
    → AreConsumers v total cs
    → IsOneBuffer v total (consumer_type false cs)
    → ((p : P) → (part_of p).size ≡ v.len p)
    → total < size_mod
    → total < fuel
    → v.pos bufs ≡ 0
    → ((r : NativeTransferResult) × (w' : W) × (read_all fuel cs
            (handle_stream (read_some c native_handle) part_of)
            bufs
            w
          ≡ some (r, w'))
        × (r.bytes_transferred ≤ total % 2 ^ 32))
      × ((r : NativeTransferResult) × (w' : W) × (write_all fuel cs
              (handle_stream (write_some c native_handle) part_of)
              bufs
              w
            ≡ some (r, w'))
          × (r.bytes_transferred ≤ total % 2 ^ 32))
unfolding read_all read write_all write read_some write_some
transfers-bounded {cs = cs} c native_handle part_of fuel bufs w api cl whole sizes small enough
      at_start =
    (
      do_io_op-bounded (handle_stream (read_some c native_handle) part_of).some_part
          native-IsTransferResult small cl.vec whole
          (λ p w. rw (← sizes p) (api.read-le native_handle (part_of p).address _ _)) fuel cs bufs w
          refl enough at_start,
      do_io_op-bounded (handle_stream (write_some c native_handle) part_of).some_part
          native-IsTransferResult small cl.vec whole
          (λ p w. rw (← sizes p) (api.write-le native_handle (part_of p).address _ _)) fuel cs bufs
          w refl enough at_start,
    )
