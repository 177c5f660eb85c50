-- ===== src/IoOp/Sending.antt =====
-- src/neo/io/write.hpp: what `write` puts into a stream.
use neo_io.Prelude.{
  ℕ, ◌≤◌, ◌<◌, min, ◌≡◌, refl, sym, ◌∙◌, ap, ◌⊎◌, true, some, List, ◌++◌, append_assoc, append-nil,
  arith, size_mod, length, take, drop, take-add, take-eq_of_le, inl, inr,
}
use neo_io.Transfer.{
  TransferResult, IsTransferResult, transfer_errant, transfer_all, transfer_exactly,
}
use neo_io.IoOp.{Consumers, Stream, write, write_all}
use neo_io.IoOp.Laws.{Spans, AreConsumers, IsPart, IsOperation}
use neo_io.IoOp.Delivery.{IsCapped, Transferred, do_io_op-Transferred}
use neo_io.IoOp.Conditions.{
  transfer_all-IsCapped, transfer_exactly-IsCapped, MakesProgress, Idles, all-Ended, all-Stopped,
  exactly-Ended,
}

-- The contract of a `write_stream`: `write_some` puts a prefix of the part at the end of what was
-- sent before, and reports its length.
pub record IsWriter {R C P S : Type 0} (t : TransferResult R) (v : Spans C P) (src : List ℕ)
    (sent : S → List ℕ) (strm : Stream R P S) : Type 0 where
  pub write-le :
      (p : P) (s : S)
      → IsPart v (length src) p
      → t.bytes_transferred (strm.some_part p s).0 ≤ v.len p
  pub write-sent :
      (p : P) (s : S)
      → IsPart v (length src) p
      → sent (strm.some_part p s).1
        ≡ sent s ++ take (t.bytes_transferred (strm.some_part p s).0) (drop (v.start p) src)

module _ {R C P S : Type 0} ⦃t : TransferResult R⦄ {v : Spans C P} {src : List ℕ}
    {sent : S → List ℕ} {cs : Consumers C P} {strm : Stream R P S} (rl : IsTransferResult t)
    (small : length src < size_mod) (cl : AreConsumers v (length src) cs)
    (wl : IsWriter t v src sent strm) where
  -- After `n` bytes the sink holds what it held, and the first `n` bytes of the source.
  abbrev pub Sent : S → S → ℕ → Type 0
  Sent s₀ s n = sent s ≡ sent s₀ ++ take n src

  write_some-IsOperation : (s₀ : S) → IsOperation t v (length src) (Sent s₀) strm.some_part
  write_some-IsOperation s₀ = record {
    op-le = wl.write-le;
    op-Effect = λ p s fits e.
        wl.write-sent p s fits
        ∙ (rw (e, append_assoc) (ap (◌++◌ (sent s₀)) (take-add (v.start p) _ _ src refl)));
  }

  -- `write` of a buffer sequence with a condition that caps it at `limit` returns, and puts into the
  -- stream exactly as many leading bytes of the source as it reports, at most `limit`.
  pub write-Transferred :
      (fuel limit : ℕ) (cond : R → ℕ) (bufs : C) (s : S)
      → IsCapped (length src) limit cond
      → length src < fuel
      → v.pos bufs ≡ 0
      → (out : R × S) × (write fuel cs strm bufs cond s ≡ some out)
        × Transferred v (length src) (Sent s) limit cond strm.some_part out.0 out.1
  unfolding write
  write-Transferred fuel limit cond bufs s capped enough at_start =
      do_io_op-Transferred rl small cl (write_some-IsOperation s) capped fuel strm.vectored bufs s
        enough at_start (sym (append-nil (sent s)))

  -- `write(strm, bufs)` of less than 2^64 bytes, with more fuel than bytes, to a stream that moves
  -- something or fails at each call, returns. What it put into the stream is a prefix of the
  -- source, as long as it reports, and it is all of the source unless the result has an error.
  pub write_all-sends :
      (fuel : ℕ) (bufs : C) (s : S)
      → length src < fuel
      → v.pos bufs ≡ 0
      → MakesProgress v (length src) strm.some_part
      → (r : R) × (s' : S) × (write_all fuel cs strm bufs s ≡ some (r, s'))
        × (t.bytes_transferred r ≤ length src)
        × (sent s' ≡ sent s ++ take (t.bytes_transferred r) src)
        × ((transfer_errant r ≡ true)
            ⊎ ((t.bytes_transferred r ≡ length src) × (sent s' ≡ sent s ++ src)))
  unfolding write_all
  write_all-sends fuel bufs s enough at_start progress =
      let ((r, s'), e, q) =
        write-Transferred fuel (length src) transfer_all bufs s (transfer_all-IsCapped _) enough
          at_start in
      (r, s', e, q.bound, q.effect, full r s' q.effect (all-Ended v progress r s' q.ended))
    where
      full :
          (r : R) (s' : S)
          → Sent s s' (t.bytes_transferred r)
          → (transfer_errant r ≡ true) ⊎ (t.bytes_transferred r ≡ length src)
          → (transfer_errant r ≡ true)
            ⊎ ((t.bytes_transferred r ≡ length src) × (sent s' ≡ sent s ++ src))
      full r s' e (inl h) = inl h
      full r s' e (inr h) = inr (h, e ∙ ap (◌++◌ (sent s)) (take-eq_of_le _ src (omega (arith, h))))

  -- `write(strm, bufs)` to a stream that may also move nothing without a failure, which ends the
  -- write.
  pub write_all-stops :
      (Why : S → Type 0) (fuel : ℕ) (bufs : C) (s : S)
      → length src < fuel
      → v.pos bufs ≡ 0
      → Idles v (length src) strm.some_part Why
      → (r : R) × (s' : S) × (write_all fuel cs strm bufs s ≡ some (r, s'))
        × (t.bytes_transferred r ≤ length src)
        × (sent s' ≡ sent s ++ take (t.bytes_transferred r) src)
        × ((transfer_errant r ≡ true) ⊎ (sent s' ≡ sent s ++ src) ⊎ Why s')
  unfolding write_all
  write_all-stops Why fuel bufs s enough at_start idle =
      let ((r, s'), e, q) =
        write-Transferred fuel (length src) transfer_all bufs s (transfer_all-IsCapped _) enough
          at_start in
      (
        r,
        s',
        e,
        q.bound,
        q.effect,
        elim (all-Stopped v Why idle r s' q.ended) [
          | inl h ↦ inl h
          | inr (inl h) ↦
              inr (inl (q.effect ∙ ap (◌++◌ (sent s)) (take-eq_of_le _ src (omega (arith, h)))))
          | inr (inr why) ↦ inr (inr why)
        ],
      )

  -- `write(strm, bufs, transfer_exactly{n})`, under the same conditions, returns with at most `n`
  -- bytes sent, and with `n`, or the whole source if it is shorter, unless the result has an error.
  pub write-exactly :
      (fuel n : ℕ) (bufs : C) (s : S)
      → n < size_mod
      → length src < fuel
      → v.pos bufs ≡ 0
      → MakesProgress v (length src) strm.some_part
      → (r : R) × (s' : S) × (write fuel cs strm bufs (transfer_exactly n) s ≡ some (r, s'))
        × (sent s' ≡ sent s ++ take (t.bytes_transferred r) src)
        × (t.bytes_transferred r ≤ n)
        × ((transfer_errant r ≡ true) ⊎ (t.bytes_transferred r ≡ min n (length src)))
  write-exactly fuel n bufs s fits enough at_start progress =
      let ((r, s'), e, q) =
        write-Transferred fuel n (transfer_exactly n) bufs s (transfer_exactly-IsCapped _ n fits)
          enough at_start in
      (r, s', e, q.effect, q.within, exactly-Ended v progress n r s' fits q.within q.bound q.ended)
