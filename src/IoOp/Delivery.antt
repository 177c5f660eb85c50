-- ===== src/IoOp/Delivery.antt =====
-- What the loop of src/neo/io/detail/io_op.hpp achieves over any operation on parts.
use neo_io.Prelude.{
  ℕ, ◌+◌, ◌-◌, ◌≤◌, ◌<◌, min, ◌≡◌, refl, sym, ◌∙◌, ◌≢◌, ◌⊎◌, inl, inr, Bool, true, false, some,
  arith, ◌==◌, ltb, ==_iff, Bool-cases, size_mod,
}
use neo_io.Transfer.{TransferResult, IsTransferResult, transfer_errant, sum_transfer_result}
use neo_io.IoOp.{Consumer, Consumers, consumer_type, transfer_part, moved, io_step, do_io_op}
use neo_io.IoOp.Rule.{Stops, Goes, io_loop-Returns}
use neo_io.IoOp.Laws.{Spans, IsConsumer, AreConsumers, IsPart, IsOperation}

-- A condition that lets no more than `limit` bytes through, over buffers of `total` bytes.
abbrev pub IsCapped : {R : Type 0} ⦃t : TransferResult R⦄ → ℕ → ℕ → (R → ℕ) → Type 0
IsCapped {R} ⦃t⦄ total limit cond =
    (r : R)
    → t.bytes_transferred r ≤ limit
    → t.bytes_transferred r + min (cond r) (total - t.bytes_transferred r) ≤ limit

module _ {C P : Type 0} {v : Spans C P} {total : ℕ} {cs : Consumers C P} where
  picked : AreConsumers v total cs → (ranges : Bool) → IsConsumer v total (consumer_type ranges cs)
  picked cl true = cl.single
  picked cl false = cl.vec

-- Why the loop has stopped with a result and a state: a failure, the condition, the end of the
-- buffers, or, last, an operation that moved nothing of a non-empty part and did not fail.
abbrev pub Ended :
    {R C P S : Type 0} ⦃t : TransferResult R⦄
    → Spans C P
    → ℕ
    → (R → ℕ)
    → (P → S → R × S)
    → R
    → S
    → Type 0
Ended {R} {C} {P} {S} ⦃t⦄ v total cond op r s' =
    (transfer_errant r ≡ true)
    ⊎ (cond r ≡ 0)
    ⊎ (t.bytes_transferred r ≡ total)
    ⊎ ((p : P) × (s : S) × IsPart v total p
        × (t.bytes_transferred (op p s).0 ≡ 0)
        × (transfer_errant (op p s).0 ≡ false)
        × ((op p s).1 ≡ s'))

module _ {R C P S : Type 0} ⦃t : TransferResult R⦄ (v : Spans C P) (total : ℕ)
    (Effect : S → ℕ → Type 0) (limit : ℕ) (cond : R → ℕ) (op : P → S → R × S) where
  -- The result of the whole operation.
  pub record Transferred (r : R) (s : S) : Type 0 where
    pub bound : t.bytes_transferred r ≤ total
    pub within : t.bytes_transferred r ≤ limit
    pub effect : Effect s (t.bytes_transferred r)
    pub ended : Ended v total cond op r s

module _ {R C P S : Type 0} ⦃t : TransferResult R⦄ (v : Spans C P) (total : ℕ)
    (Effect : S → ℕ → Type 0) (limit : ℕ) (cond : R → ℕ) (op : P → S → R × S)
    (k : Consumer C P) where
  record Inv (acc : R) (c : C) (s : S) : Type 0 where
    count : t.bytes_transferred acc ≡ v.pos c
    fits : v.pos c ≤ total
    under : v.pos c ≤ limit
    shown : Effect s (v.pos c)
    clean : transfer_errant acc ≡ false

  abbrev Round : R → C → R × C × S → Type 0
  Round acc c next =
      Stops k cond op Inv (λ r _ s. Transferred v total Effect limit cond op r s)
        (λ d. total - v.pos d) acc next
      × Goes k cond op Inv (λ r _ s. Transferred v total Effect limit cond op r s)
          (λ d. total - v.pos d) c acc next

module _ {R C P S : Type 0} ⦃t : TransferResult R⦄ {v : Spans C P} {total : ℕ}
    {Effect : S → ℕ → Type 0} {limit : ℕ} {cond : R → ℕ} {op : P → S → R × S} {k : Consumer C P}
    (rl : IsTransferResult t) (small : total < size_mod) (kl : IsConsumer v total k)
    (ol : IsOperation t v total Effect op) (capped : IsCapped total limit cond) {acc : R} {c : C}
    {s : S} (i : Inv v total Effect limit cond op k acc c s) where
  -- An empty part comes only at the end of the buffers.
  at_end : cond acc ≢ 0 → k.is_empty (k.next (cond acc) c) ≡ true → v.pos c ≡ total
  at_end nz e =
      let z : v.len (k.next (cond acc) c) ≡ 0 =
        (==_iff _ _).0 (sym (kl.is_empty_lem (k.next (cond acc) c)) ∙ e) in
      elim (Bool-cases (ltb (v.pos c) total)) [
        | inl h ↦ absurd (omega (arith, kl.next-pos (cond acc) c (ground arith) (ground arith)))
        | inr h ↦ let f = i.fits in ground arith
      ]

  shown_acc : Effect s (t.bytes_transferred acc)
  shown_acc = rw i.count i.shown

  -- A round whose next part is empty: nothing moves, and the buffers are at their end.
  empty-Round :
      cond acc ≢ 0
      → k.is_empty (k.next (cond acc) c) ≡ true
      → Round v total Effect limit cond op k acc c (io_step k cond op acc c s)
  unfolding io_step transfer_part
  empty-Round nz e = rw e (
    λ _. record {
      bound = omega (arith, i.count, i.fits);
      within = omega (arith, i.count, i.under);
      effect = shown_acc;
      ended = inr (inr (inl (i.count ∙ at_end nz e)));
    },
    λ _ m. absurd (m (omega (arith, i.count, i.fits))),
  )

  abbrev part : P
  part = k.next (cond acc) c

  abbrev res : R
  res = (op part s).0

  abbrev sum : R
  sum = sum_transfer_result acc res

  part-IsPart : k.is_empty part ≡ false → IsPart v total part
  part-IsPart e =
      let z : (v.len part == 0) ≡ false = sym (kl.is_empty_lem part) ∙ e in
      (ground arith, rw (kl.start-next (cond acc) c) (kl.next-fits (cond acc) c i.fits))

  module _ (e : k.is_empty part ≡ false) where
    -- The sum of the transferred bytes does not wrap.
    bytes-sum : t.bytes_transferred sum ≡ v.pos c + t.bytes_transferred res
    bytes-sum =
        rl.bytes-with_bytes res _
        ∙ omega (
          arith,
          i.count,
          i.fits,
          ol.op-le part s (part-IsPart e),
          kl.next-fits (cond acc) c i.fits,
        )

    in_range : v.pos c + t.bytes_transferred res ≤ total
    in_range = omega (arith, ol.op-le part s (part-IsPart e), kl.next-fits (cond acc) c i.fits)

    in_limit : v.pos c + t.bytes_transferred res ≤ limit
    in_limit = omega (
      arith,
      ol.op-le part s (part-IsPart e),
      kl.next-fits (cond acc) c i.fits,
      kl.next-le (cond acc) c,
      i.count,
      capped acc (omega (arith, i.count, i.under)),
    )

    moved-sum : moved k cond op acc sum ≡ t.bytes_transferred res
    moved-sum = omega (arith, bytes-sum, in_range, i.count, i.fits)

    effect_res : Effect (op part s).1 (v.pos c + t.bytes_transferred res)
    effect_res =
        rw (kl.start-next (cond acc) c) at
          (ol.op-Effect part s (part-IsPart e) (rw (kl.start-next (cond acc) c) i.shown))

    pos_after : v.pos (k.consume (moved k cond op acc sum) c) ≡ v.pos c + t.bytes_transferred res
    pos_after = rw moved-sum (kl.pos-consume (t.bytes_transferred res) c in_range)

    -- A round that calls the operation.
    full-Round :
        cond acc ≢ 0 → Round v total Effect limit cond op k acc c (io_step k cond op acc c s)
    unfolding io_step transfer_part
    full-Round nz = rw e (
      λ why. record {
        bound = omega (arith, bytes-sum, in_range);
        within = omega (arith, bytes-sum, in_limit);
        effect = rw bytes-sum effect_res;
        ended = elim (Bool-cases (transfer_errant sum)) [
          | inl h ↦ inl h
          | inr h ↦ elim why [
            | inl h' ↦ inl h'
            | inr z ↦ inr (
                inr (
                  inr (
                    part,
                    s,
                    part-IsPart e,
                    omega (arith, bytes-sum, in_range, i.count, i.fits),
                    sym (rl.errant-with_bytes res _) ∙ h,
                    refl,
                  )))
          ]
        ];
      },
      λ ne m. (
        record {
          count = bytes-sum ∙ sym pos_after;
          fits = omega (arith, pos_after, in_range);
          under = omega (arith, pos_after, in_limit);
          shown = rw pos_after effect_res;
          clean = ne;
        },
        omega (arith, pos_after, in_range, moved-sum),
      ),
    )

  any-Round : cond acc ≢ 0 → Round v total Effect limit cond op k acc c (io_step k cond op acc c s)
  any-Round nz = elim (Bool-cases (k.is_empty part)) [
    | inl e ↦ empty-Round nz e
    | inr e ↦ full-Round e nz
  ]

module _ {R C P S : Type 0} ⦃t : TransferResult R⦄ {v : Spans C P} {total : ℕ}
    {Effect : S → ℕ → Type 0} {limit : ℕ} {cond : R → ℕ} {op : P → S → R × S} {cs : Consumers C P}
    (rl : IsTransferResult t) (small : total < size_mod) (cl : AreConsumers v total cs)
    (ol : IsOperation t v total Effect op) (capped : IsCapped total limit cond) where
  -- With fuel for one round a byte and one more, `do_io_op` over a sequence of `total` bytes
  -- returns, whichever consumer it uses. It reports no more bytes than there are and no more than
  -- its condition lets through, and the state shows exactly the reported number of bytes moved. It
  -- has stopped by a failure, by its condition, at the end of the buffers, or after an operation
  -- that moved nothing of a non-empty part.
  pub do_io_op-Transferred :
      (fuel : ℕ) (ranges : Bool) (bufs : C) (s : S)
      → total < fuel
      → v.pos bufs ≡ 0
      → Effect s 0
      → (out : R × S) × (do_io_op fuel cs bufs cond ranges op s ≡ some out)
        × Transferred v total Effect limit cond op out.0 out.1
  unfolding do_io_op
  do_io_op-Transferred fuel ranges bufs s enough at_start none_moved =
      let k : Consumer C P = consumer_type ranges cs in
      let (out, e, q) =
        io_loop-Returns k cond op (Inv v total Effect limit cond op k)
          (λ r _ s. Transferred v total Effect limit cond op r s) (λ d. total - v.pos d)
          (λ acc c s i z. record {
            bound = omega (arith, i.count, i.fits);
            within = omega (arith, i.count, i.under);
            effect = rw i.count i.shown;
            ended = inr (inl z);
          })
          (λ acc c s i nz. any-Round rl small (picked cl ranges) ol capped i nz) fuel _ bufs s
          (omega (arith, at_start))
          (record {
            count = rl.bytes-with_bytes t.fresh 0 ∙ sym at_start;
            fits = omega (arith, at_start);
            under = omega (arith, at_start);
            shown = rw at_start none_moved;
            clean = rl.errant-with_bytes t.fresh 0 ∙ rl.errant-fresh;
          }) in
      ((out.0, out.2), rw e, q)
