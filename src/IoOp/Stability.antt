-- ===== src/IoOp/Stability.antt =====
-- What every call of the loop in src/neo/io/detail/io_op.hpp keeps up, the loop keeps up.
use mathlib.Core.Option
use mathlib.Core.Path.{subst}
use neo_io.Prelude.{pick, ℕ, zero, suc, ◌≡◌, inl, inr, ◌==◌, some, Bool, Bool-cases}
use neo_io.Transfer.{TransferResult, transfer_errant, transfer_all}
use neo_io.IoOp.{
  Consumer, Consumers, consumer_type, transfer_part, io_step, moved, io_loop, do_io_op, write,
  write_all,
}

module _ {R C P S : Type 0} ⦃t : TransferResult R⦄ (Q : S → Type 0) (op : P → S → R × S)
    (keeps : (part : P) (s : S) → Q s → Q (op part s).1) where
  io_step-keeps :
      (k : Consumer C P) (cond : R → ℕ) (acc : R) (c : C) (s : S)
      → Q s
      → Q (io_step k cond op acc c s).2
  unfolding io_step transfer_part
  io_step-keeps k cond acc c s q = elim (Bool-cases (k.is_empty (k.next (cond acc) c))) [
    | inl h ↦ rw h q
    | inr h ↦ rw h (keeps (k.next (cond acc) c) s q)
  ]

  io_loop-keeps :
      (k : Consumer C P) (cond : R → ℕ) (fuel : ℕ) (acc : R) (c : C) (s : S) (out : R × C × S)
      → io_loop k cond op fuel acc c s ≡ some out
      → Q s
      → Q out.2
  unfolding io_loop
  io_loop-keeps k cond zero acc c s out e q = absurd (cc e)
  io_loop-keeps k cond (suc fuel) acc c s out e q =
      let (acc', c', s') = io_step k cond op acc c s in
      let q' : Q s' = io_step-keeps k cond acc c s q in
      pick (λ o. Q o.2) (cond acc == 0) (acc, c, s) _ out e q
        (λ e₁.
          pick (λ o. Q o.2) (transfer_errant acc') (acc', c', s') _ out e₁ q'
            (λ e₂.
              pick (λ o. Q o.2) (moved k cond op acc acc' == 0) (acc', c', s') _ out e₂ q'
                (λ e₃. io_loop-keeps k cond fuel acc' c' s' out e₃ q')))

  -- What every call of a stream's operation keeps up, `write` over that stream keeps up.
  pub write_all-keeps :
      (cs : Consumers C P) (vectored : Bool) (c : C) (fuel : ℕ) (s : S) (out : R × S)
      → write_all fuel cs (record { some_part = op; vectored = vectored }) c s ≡ some out
      → Q s
      → Q out.1
  unfolding write_all write do_io_op
  write_all-keeps cs vectored c fuel s out e q =
      let (r, e', same) = (Option.map-eq-some_iff (λ out. (out.0, out.2)) _).0 e in
      subst (λ o. Q o.1) same
        (io_loop-keeps (consumer_type vectored cs) transfer_all fuel (t.with_bytes t.fresh 0) c s r
          e' q)
