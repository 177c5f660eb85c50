-- ===== src/IoOp/Conditions.antt =====
-- The completion conditions of src/neo/io/completion_condition.hpp as limits of the loop.
use neo_io.Prelude.{ℕ, ◌≤◌, ◌<◌, min, ◌≡◌, ◌⊎◌, inl, inr, true, false, arith, size_mod}
use neo_io.Transfer.{TransferResult, transfer_errant, transfer_all, transfer_exactly}
use neo_io.IoOp.Laws.{Spans, IsPart}
use neo_io.IoOp.Delivery.{IsCapped, Ended}

module _ {R : Type 0} ⦃t : TransferResult R⦄ where
  pub transfer_all-IsCapped : (total : ℕ) → IsCapped total total (transfer_all {R = R})
  transfer_all-IsCapped total r h = omega arith

  pub transfer_exactly-IsCapped :
      (total n : ℕ) → n < size_mod → IsCapped total n (transfer_exactly {R = R} n)
  transfer_exactly-IsCapped total n h r k = omega arith

  -- An operation that either moves part of a non-empty buffer or fails.
  abbrev pub MakesProgress : {C P S : Type 0} → Spans C P → ℕ → (P → S → R × S) → Type 0
  MakesProgress {C} {P} {S} v total op =
      (p : P) (s : S)
      → IsPart v total p
      → t.bytes_transferred (op p s).0 ≡ 0
      → transfer_errant (op p s).0 ≡ true

  -- What holds after an operation that moved nothing of a non-empty part and did not fail.
  abbrev pub Idles : {C P S : Type 0} → Spans C P → ℕ → (P → S → R × S) → (S → Type 0) → Type 0
  Idles {C} {P} {S} v total op Why =
      (p : P) (s : S)
      → IsPart v total p
      → t.bytes_transferred (op p s).0 ≡ 0
      → transfer_errant (op p s).0 ≡ false
      → Why (op p s).1

module _ {R C P S : Type 0} ⦃t : TransferResult R⦄ (v : Spans C P) {total : ℕ} {op : P → S → R × S}
    (Why : S → Type 0) (idle : Idles v total op Why) where
  -- `transfer_all` ends by a failure, with everything, or after an idle operation.
  pub all-Stopped :
      (r : R) (s' : S)
      → Ended v total transfer_all op r s'
      → (transfer_errant r ≡ true) ⊎ (t.bytes_transferred r ≡ total) ⊎ Why s'
  all-Stopped r s' (inl h) = inl h
  all-Stopped r s' (inr (inl h)) = absurd (omega arith)
  all-Stopped r s' (inr (inr (inl h))) = inr (inl h)
  all-Stopped r s' (inr (inr (inr (p, s, h, z, c, e)))) = inr (inr (rw e at (idle p s h z c)))

module _ {R C P S : Type 0} ⦃t : TransferResult R⦄ (v : Spans C P) {total : ℕ} {op : P → S → R × S}
    (progress : MakesProgress v total op) where
  -- With progress `transfer_all` ends by a failure or with everything.
  pub all-Ended :
      (r : R) (s' : S)
      → Ended v total transfer_all op r s'
      → (transfer_errant r ≡ true) ⊎ (t.bytes_transferred r ≡ total)
  all-Ended r s' (inl h) = inl h
  all-Ended r s' (inr (inl h)) = absurd (omega arith)
  all-Ended r s' (inr (inr (inl h))) = inr h
  all-Ended r s' (inr (inr (inr (p, s, h, z, c, _)))) = absurd (cc (progress p s h z, c))

  -- With progress `transfer_exactly{n}` ends by a failure or with as much of `n` as there is.
  pub exactly-Ended :
      (n : ℕ) (r : R) (s' : S)
      → n < size_mod
      → t.bytes_transferred r ≤ n
      → t.bytes_transferred r ≤ total
      → Ended v total (transfer_exactly n) op r s'
      → (transfer_errant r ≡ true) ⊎ (t.bytes_transferred r ≡ min n total)
  exactly-Ended n r s' small a b (inl h) = inl h
  exactly-Ended n r s' small a b (inr (inl h)) = inr (omega arith)
  exactly-Ended n r s' small a b (inr (inr (inl h))) = inr (omega arith)
  exactly-Ended n r s' small a b (inr (inr (inr (p, s, h, z, c, _)))) =
      absurd (cc (progress p s h z, c))
