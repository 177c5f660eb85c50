-- ===== src/IoOp/Placing.antt =====
-- src/neo/io/read.hpp: where `read` puts what a stream hands out, if what will come is not known before.
use neo_io.Prelude.{
  ℕ, ◌+◌, ◌≤◌, ◌<◌, ◌≡◌, refl, sym, ap, ◌∙◌, ◌⊎◌, true, some, List, ◌++◌, append_assoc, append-nil,
  arith, size_mod, length, take, drop, take-append_left, drop-append_left, drop-drop, length-append,
  length-take, length-drop,
}
use neo_io.Transfer.{TransferResult, IsTransferResult, transfer_errant}
use neo_io.IoOp.{Consumers, Stream, read, read_all}
use neo_io.IoOp.Laws.{Spans, AreConsumers, IsPart, IsOperation}
use neo_io.IoOp.Delivery.{do_io_op-Transferred}
use neo_io.IoOp.Conditions.{transfer_all-IsCapped, Idles, all-Stopped}

-- A memory after `bytes` were stored at `start`.
abbrev pub stored_at : ℕ → List ℕ → List ℕ → List ℕ
stored_at start bytes mem = take start mem ++ (bytes ++ drop (start + length bytes) mem)

module _ (start : ℕ) (bytes mem : List ℕ) (fits : start + length bytes ≤ length mem) where
  length-take_start : length (take start mem) ≡ start
  length-take_start = omega (arith, length-take start mem, fits)

  length-front : length (take start mem ++ bytes) ≡ start + length bytes
  length-front = omega (arith, length-append (take start mem) bytes, length-take_start)

  stored_at-front :
      stored_at start bytes mem ≡ (take start mem ++ bytes) ++ drop (start + length bytes) mem
  stored_at-front = sym (append_assoc (take start mem) bytes (drop (start + length bytes) mem))

  pub length-stored_at : length (stored_at start bytes mem) ≡ length mem
  length-stored_at = omega (
    arith,
    fits,
    ap length stored_at-front,
    length-append (take start mem ++ bytes) (drop (start + length bytes) mem),
    length-front,
    length-drop (start + length bytes) mem,
  )

  take-stored_at : take (start + length bytes) (stored_at start bytes mem) ≡ take start mem ++ bytes
  take-stored_at =
      ap (take (start + length bytes)) stored_at-front
      ∙ take-append_left (start + length bytes) (take start mem ++ bytes) _ length-front

  drop-stored_at :
      drop (start + length bytes) (stored_at start bytes mem) ≡ drop (start + length bytes) mem
  drop-stored_at =
      ap (drop (start + length bytes)) stored_at-front
      ∙ drop-append_left (start + length bytes) (take start mem ++ bytes) _ length-front

-- The contract of a `read_stream` over a destination memory of `total` bytes, where `delivered` is all
-- that the stream has handed out: `read_some` stores what it hands out at the start of the part.
pub record IsDeliverer {R C P S : Type 0} (t : TransferResult R) (v : Spans C P) (total : ℕ)
    (delivered memory : S → List ℕ) (strm : Stream R P S) : Type 0 where
  pub deliver-le :
      (p : P) (s : S) → IsPart v total p → t.bytes_transferred (strm.some_part p s).0 ≤ v.len p
  pub deliver-stored :
      (p : P) (s : S)
      → IsPart v total p
      → (bytes : List ℕ) × (length bytes ≡ t.bytes_transferred (strm.some_part p s).0)
        × (delivered (strm.some_part p s).1 ≡ delivered s ++ bytes)
        × (memory (strm.some_part p s).1 ≡ stored_at (v.start p) bytes (memory s))

module _ {S : Type 0} (total : ℕ) (delivered memory : S → List ℕ) where
  -- After `n` bytes: the front of the memory is what the stream has handed out meanwhile, and the rest
  -- is as it was.
  pub record Placed (s₀ s : S) (n : ℕ) : Type 0 where
    pub whole : length (memory s) ≡ total
    pub handed : delivered s ≡ delivered s₀ ++ take n (memory s)
    pub rest : drop n (memory s) ≡ drop n (memory s₀)

module _ {R C P S : Type 0} ⦃t : TransferResult R⦄ {v : Spans C P} {total : ℕ}
    {delivered memory : S → List ℕ} {cs : Consumers C P} {strm : Stream R P S}
    (rl : IsTransferResult t) (small : total < size_mod) (cl : AreConsumers v total cs)
    (wl : IsDeliverer t v total delivered memory strm) where
  read_part-Placed :
      (s₀ s s' : S) (start : ℕ) (bytes : List ℕ)
      → start + length bytes ≤ total
      → Placed total delivered memory s₀ s start
      → delivered s' ≡ delivered s ++ bytes
      → memory s' ≡ stored_at start bytes (memory s)
      → Placed total delivered memory s₀ s' (start + length bytes)
  read_part-Placed s₀ s s' start bytes inside e gave put =
      let fits : start + length bytes ≤ length (memory s) = omega (arith, inside, e.whole) in
      record {
        whole = ap length put ∙ length-stored_at start bytes (memory s) fits ∙ e.whole;
        handed =
            gave
            ∙ ap (λ x. x ++ bytes) e.handed
            ∙ append_assoc (delivered s₀) (take start (memory s)) bytes
            ∙ ap (λ x. delivered s₀ ++ x)
                (sym (
                  ap (take (start + length bytes)) put
                  ∙ take-stored_at start bytes (memory s) fits));
        rest =
            ap (drop (start + length bytes)) put
            ∙ drop-stored_at start bytes (memory s) fits
            ∙ sym (drop-drop start (length bytes) _ (memory s) refl)
            ∙ ap (drop (length bytes)) e.rest
            ∙ drop-drop start (length bytes) _ (memory s₀) refl;
      }

  read_some-IsOperation :
      (s₀ : S) → IsOperation t v total (Placed total delivered memory s₀) strm.some_part
  read_some-IsOperation s₀ = record {
    op-le = wl.deliver-le;
    op-Effect = λ p s part e.
        let (bytes, count, gave, put) = wl.deliver-stored p s part in
        rw count at (
          read_part-Placed s₀ s (strm.some_part p s).1 (v.start p) bytes
            (omega (arith, count, wl.deliver-le p s part, part.1)) e gave put);
  }

  -- `read(strm, bufs)` over a destination of `total` bytes, less than 2^64, with more fuel than
  -- that, returns. The bytes that it reports lie at the front of the destination in the order in
  -- which the stream handed them out; it has handed out no others, and the rest of the destination
  -- is as it was. Unless the result has an error, or the last operation moved nothing, the
  -- destination is filled.
  pub read_all-places :
      (Why : S → Type 0) (fuel : ℕ) (bufs : C) (s : S)
      → total < fuel
      → v.pos bufs ≡ 0
      → length (memory s) ≡ total
      → Idles v total strm.some_part Why
      → (r : R) × (s' : S) × (read_all fuel cs strm bufs s ≡ some (r, s'))
        × (t.bytes_transferred r ≤ total)
        × Placed total delivered memory s s' (t.bytes_transferred r)
        × ((transfer_errant r ≡ true) ⊎ (t.bytes_transferred r ≡ total) ⊎ Why s')
  unfolding read_all read
  read_all-places Why fuel bufs s enough at_start whole idle =
      let ((r, s'), e, q) =
        do_io_op-Transferred rl small cl (read_some-IsOperation s) (transfer_all-IsCapped total)
          fuel strm.vectored bufs s enough at_start
          (record { whole = whole; handed = sym (append-nil (delivered s)); rest = refl }) in
      (r, s', e, q.bound, q.effect, all-Stopped v Why idle r s' q.ended)
