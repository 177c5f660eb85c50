-- ===== src/IoOp/Faultless.antt =====
-- The loop of src/neo/io/detail/io_op.hpp over an operation that never fails.
use mathlib.Core.Option
use neo_io.Prelude.{
  refl, ℕ, zero, suc, ◌≡◌, ◌∙◌, inl, inr, false, Option, some, none, ◌==◌, Bool-cases,
}
use neo_io.Transfer.{TransferResult, IsTransferResult, transfer_errant, transfer_all}
use neo_io.IoOp.{
  Consumer, Consumers, consumer_type, Stream, transfer_part, moved, io_step, io_loop, do_io_op,
  read, read_all, write, write_all,
}

module _ {R C P S : Type 0} ⦃t : TransferResult R⦄ (rl : IsTransferResult t) (k : Consumer C P)
    (cond : R → ℕ) (op : P → S → R × S)
    (faultless : (p : P) (s : S) → transfer_errant (op p s).0 ≡ false) where
  faultless_part :
      (acc : R) (p : P) (s : S)
      → transfer_errant acc ≡ false
      → transfer_errant (transfer_part k cond op acc p s).0 ≡ false
  unfolding transfer_part
  faultless_part acc p s clean = elim (Bool-cases (k.is_empty p)) [
    | inl e ↦ rw e clean
    | inr e ↦ rw e (rl.errant-with_bytes (op p s).0 _ ∙ faultless p s)
  ]

  faultless_loop :
      (fuel : ℕ) (acc : R) (c : C) (s : S) (out : R × C × S)
      → transfer_errant acc ≡ false
      → io_loop k cond op fuel acc c s ≡ some out
      → transfer_errant out.0 ≡ false
  unfolding io_loop io_step
  faultless_loop zero acc c s out clean e = cc e
  faultless_loop (suc fuel) acc c s out clean e =
      let p : P = k.next (cond acc) c in
      let next : R × S = transfer_part k cond op acc p s in
      let fine : transfer_errant next.0 ≡ false = faultless_part acc p s clean in
      elim (Bool-cases (cond acc == 0)) [
        | inl z ↦
            let f : some (acc, c, s) ≡ some out = rw z at e in
            let q : (acc, c, s) ≡ out = cc in rw (← q) clean
        | inr nz ↦ elim (Bool-cases (moved k cond op acc next.0 == 0)) [
          | inl z ↦
              let f : some (next.0, k.consume (moved k cond op acc next.0) c, next.1) ≡ some out =
                rw (nz, fine, z) at e in
              let q : (next.0, k.consume (moved k cond op acc next.0) c, next.1) ≡ out = cc in
              rw (← q) fine
          | inr m ↦
              faultless_loop fuel next.0 (k.consume (moved k cond op acc next.0) c) next.1 out fine
                (rw (nz, fine, m) at e)
        ]
      ]

module _ {R C P S : Type 0} ⦃t : TransferResult R⦄ (rl : IsTransferResult t) (cs : Consumers C P)
    (strm : Stream R P S)
    (faultless : (p : P) (s : S) → transfer_errant (strm.some_part p s).0 ≡ false) where
  faultless_all :
      (fuel : ℕ) (bufs : C) (s : S) (r : R) (s' : S)
      → do_io_op fuel cs bufs transfer_all strm.vectored strm.some_part s ≡ some (r, s')
      → transfer_errant r ≡ false
  unfolding do_io_op
  faultless_all fuel bufs s r s' e =
      ended
        (io_loop (consumer_type strm.vectored cs) transfer_all strm.some_part fuel
          (t.with_bytes t.fresh 0) bufs s)
        refl e
    where
      ended :
          (x : Option (R × C × S))
          → io_loop
              (consumer_type strm.vectored cs)
              transfer_all
              strm.some_part
              fuel
              (t.with_bytes t.fresh 0)
              bufs
              s
            ≡ x
          → Option.map {B = R × S} (λ out. (out.0, out.2)) x ≡ some (r, s')
          → transfer_errant r ≡ false
      ended none h f = absurd (cc f)
      ended (some out) h f =
          let q : out.0 ≡ r = cc in
          rw (← q) (
            faultless_loop rl (consumer_type strm.vectored cs) transfer_all strm.some_part faultless
              fuel (t.with_bytes t.fresh 0) bufs s out
              (rl.errant-with_bytes t.fresh 0 ∙ rl.errant-fresh) h)

  -- Over a stream that never fails `write` has no error, and `read` has none.
  pub faultless_write :
      (fuel : ℕ) (bufs : C) (s : S) (r : R) (s' : S)
      → write_all fuel cs strm bufs s ≡ some (r, s')
      → transfer_errant r ≡ false
  unfolding write_all write
  faultless_write = faultless_all

  pub faultless_read :
      (fuel : ℕ) (bufs : C) (s : S) (r : R) (s' : S)
      → read_all fuel cs strm bufs s ≡ some (r, s')
      → transfer_errant r ≡ false
  unfolding read_all read
  faultless_read = faultless_all
