-- ===== src/IoOp/Rule.antt =====
-- The invariant rule for the loop of src/neo/io/detail/io_op.hpp.
use neo_io.Prelude.{
  ℕ, zero, suc, ◌<◌, ◌≡◌, ◌≢◌, ◌⊎◌, inl, inr, true, false, some, arith, ◌==◌, ==_iff, Bool-cases,
}
use neo_io.Transfer.{TransferResult, transfer_errant}
use neo_io.IoOp.{Consumer, moved, io_step, io_loop}

module _ {R C P S : Type 0} ⦃t : TransferResult R⦄ (k : Consumer C P) (cond : R → ℕ)
    (op : P → S → R × S) (Inv Post : R → C → S → Type 0) (measure : C → ℕ) where
  -- A round that stops the loop, by a failure or for want of progress, has the postcondition.
  abbrev pub Stops : R → R × C × S → Type 0
  Stops acc (acc', c', s') =
      (transfer_errant acc' ≡ true) ⊎ (moved k cond op acc acc' ≡ 0) → Post acc' c' s'

  -- A round after which the loop goes on keeps the invariant and uses up the buffers.
  abbrev pub Goes : C → R → R × C × S → Type 0
  Goes c acc (acc', c', s') =
      transfer_errant acc' ≡ false
      → moved k cond op acc acc' ≢ 0
      → Inv acc' c' s' × (measure c' < measure c)

  -- With a measure below the fuel the loop ends, and ends well.
  pub io_loop-Returns :
      ((acc : R) (c : C) (s : S) → Inv acc c s → cond acc ≡ 0 → Post acc c s)
      → ((acc : R) (c : C) (s : S)
          → Inv acc c s
          → cond acc ≢ 0
          → Stops acc (io_step k cond op acc c s) × Goes c acc (io_step k cond op acc c s))
      → (fuel : ℕ) (acc : R) (c : C) (s : S) → measure c < fuel
      → Inv acc c s
      → (out : R × C × S) × (io_loop k cond op fuel acc c s ≡ some out) × Post out.0 out.1 out.2
  unfolding io_loop
  io_loop-Returns done round zero acc c s h inv = absurd (omega arith)
  io_loop-Returns done round (suc fuel) acc c s h inv = elim (Bool-cases (cond acc == 0)) [
    | inl z ↦ ((acc, c, s), rw z, done acc c s inv ((==_iff _ _).0 z))
    | inr nz ↦ elim (Bool-cases (transfer_errant next.0)) [
      | inl e ↦ (next, rw (nz, e), (facts nz).0 (inl e))
      | inr ne ↦ elim (Bool-cases (moved k cond op acc next.0 == 0)) [
        | inl z ↦ (next, rw (nz, ne, z), (facts nz).0 (inr ((==_iff _ _).0 z)))
        | inr m ↦
            let go = (facts nz).1 ne (λ z. ground arith) in
            let (out, e, q) =
              io_loop-Returns done round fuel next.0 next.1 next.2 (omega (arith, go.1)) go.0 in
            (out, rw (nz, ne, m) e, q)
      ]
    ]
  ]
    where
      next : R × C × S
      next = io_step k cond op acc c s

      facts : (cond acc == 0) ≡ false → Stops acc next × Goes c acc next
      facts nz = round acc c s inv (λ e. ground arith)
