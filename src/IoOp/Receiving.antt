-- ===== src/IoOp/Receiving.antt =====
-- src/neo/io/read.hpp: what `read` takes from a stream, and where it puts it.
use neo_io.Prelude.{
  ℕ, ◌+◌, ◌≤◌, ◌<◌, min, ◌≡◌, refl, sym, ◌∙◌, ap, ◌⊎◌, inl, inr, true, false, some, List, [], ◌++◌,
  append_assoc, arith, size_mod, length, take, drop, take-add, take-append_take, drop-append_take,
  drop-drop, length-drop,
}
use neo_io.Transfer.{TransferResult, IsTransferResult, transfer_errant, transfer_all}
use neo_io.IoOp.{Consumers, Stream, read, read_all}
use neo_io.IoOp.Laws.{Spans, AreConsumers, IsPart, IsOperation}
use neo_io.IoOp.Delivery.{Ended, do_io_op-Transferred}
use neo_io.IoOp.Conditions.{transfer_all-IsCapped}

-- The destination after `n` bytes of `xs` were stored at its front.
abbrev pub filled : ℕ → List ℕ → List ℕ → List ℕ
filled n xs mem = take n xs ++ drop n mem

-- The contract of a `read_stream` over a destination memory of `total` bytes: `read_some` stores the
-- next bytes of what comes in at the start of the part, and takes them off the stream; it reports
-- none for a non-empty part only at a failure or at the end of the stream.
pub record IsReader {R C P S : Type 0} (t : TransferResult R) (v : Spans C P) (total : ℕ)
    (incoming memory : S → List ℕ) (strm : Stream R P S) : Type 0 where
  pub read-le :
      (p : P) (s : S) → IsPart v total p → t.bytes_transferred (strm.some_part p s).0 ≤ v.len p
  pub read-le-incoming :
      (p : P) (s : S)
      → IsPart v total p
      → t.bytes_transferred (strm.some_part p s).0 ≤ length (incoming s)
  pub read-incoming :
      (p : P) (s : S)
      → IsPart v total p
      → incoming (strm.some_part p s).1
        ≡ drop (t.bytes_transferred (strm.some_part p s).0) (incoming s)
  pub read-memory :
      (p : P) (s : S)
      → IsPart v total p
      → memory (strm.some_part p s).1
        ≡ take (v.start p) (memory s)
          ++ filled
              (t.bytes_transferred (strm.some_part p s).0)
              (incoming s)
              (drop (v.start p) (memory s))
  pub read-end :
      (p : P) (s : S)
      → IsPart v total p
      → t.bytes_transferred (strm.some_part p s).0 ≡ 0
      → transfer_errant ⦃t = t⦄ (strm.some_part p s).0 ≡ false
      → incoming (strm.some_part p s).1 ≡ []

module _ (a b : ℕ) (xs mem : List ℕ) (h : a ≤ length xs) where
  take-filled : take a (filled a xs mem) ≡ take a xs
  take-filled = take-append_take a xs (drop a mem) h

  drop-filled : drop a (filled a xs mem) ≡ drop a mem
  drop-filled = drop-append_take a xs (drop a mem) h

  -- Storing `b` more bytes behind the first `a`.
  filled-filled :
      take a (filled a xs mem) ++ filled b (drop a xs) (drop a (filled a xs mem))
      ≡ filled (a + b) xs mem
  filled-filled =
      rw (take-filled, drop-filled, drop-drop a b (a + b) mem refl, ← append_assoc)
        (ap (λ t. t ++ drop (a + b) mem) (take-add a b (a + b) xs refl))

module _ {S : Type 0} (incoming memory : S → List ℕ) where
  -- After `n` bytes: they lie at the front of the memory, and are gone from the stream.
  pub record Received (s₀ s : S) (n : ℕ) : Type 0 where
    pub available : n ≤ length (incoming s₀)
    pub stored : memory s ≡ filled n (incoming s₀) (memory s₀)
    pub left : incoming s ≡ drop n (incoming s₀)

module _ {R C P S : Type 0} ⦃t : TransferResult R⦄ {v : Spans C P} {total : ℕ}
    {incoming memory : S → List ℕ} {cs : Consumers C P} {strm : Stream R P S}
    (rl : IsTransferResult t) (small : total < size_mod) (cl : AreConsumers v total cs)
    (wl : IsReader t v total incoming memory strm) where
  read_some-IsOperation :
      (s₀ : S) → IsOperation t v total (Received incoming memory s₀) strm.some_part
  read_some-IsOperation s₀ = record {
    op-le = wl.read-le;
    op-Effect = λ p s fits e. record {
      available = omega (
        arith,
        wl.read-le-incoming p s fits,
        ap length e.left,
        length-drop (v.start p) (incoming s₀),
        e.available,
      );
      stored =
          wl.read-memory p s fits
          ∙ (rw (e.stored, e.left) (filled-filled _ _ (incoming s₀) (memory s₀) e.available));
      left = wl.read-incoming p s fits ∙ (rw e.left (drop-drop _ _ _ (incoming s₀) refl));
    };
  }

  -- `read(strm, bufs)` over a destination of `total` bytes, less than 2^64, with more fuel than
  -- that, returns. The bytes that it reports lie in order at the front of the destination, the rest
  -- of which is unchanged, and they are gone from the stream. Unless the result has an error, it
  -- has filled the destination or emptied the stream.
  pub read_all-receives :
      (fuel : ℕ) (bufs : C) (s : S)
      → total < fuel
      → v.pos bufs ≡ 0
      → (r : R) × (s' : S) × (read_all fuel cs strm bufs s ≡ some (r, s'))
        × Received incoming memory s s' (t.bytes_transferred r)
        × ((transfer_errant r ≡ true) ⊎ (t.bytes_transferred r ≡ min total (length (incoming s))))
  unfolding read_all read
  read_all-receives fuel bufs s enough at_start =
      let ((r, s'), e, q) =
        do_io_op-Transferred rl small cl (read_some-IsOperation s) (transfer_all-IsCapped total)
          fuel strm.vectored bufs s enough at_start
          (record { available = omega arith; stored = refl; left = refl }) in
      (r, s', e, q.effect, full r s' q.bound q.effect q.ended)
    where
      full :
          (r : R) (s' : S)
          → t.bytes_transferred r ≤ total
          → Received incoming memory s s' (t.bytes_transferred r)
          → Ended v total transfer_all strm.some_part r s'
          → (transfer_errant r ≡ true) ⊎ (t.bytes_transferred r ≡ min total (length (incoming s)))
      full r s' b e (inl h) = inl h
      full r s' b e (inr (inl h)) = absurd (omega arith)
      full r s' b e (inr (inr (inl h))) = inr (omega (arith, e.available))
      full r s' b e (inr (inr (inr (p, s₁, h, z, c, f)))) =
          let empty : length (incoming s') ≡ 0 =
            ap (λ x. length (incoming x)) (sym f) ∙ ap length (wl.read-end p s₁ h z c) in
          inr (
            omega (
              arith,
              empty,
              ap length e.left,
              length-drop (t.bytes_transferred r) (incoming s),
              e.available,
              b,
            ))
