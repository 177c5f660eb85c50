-- ===== src/IoOp/Laws.antt =====
-- What the loop of src/neo/io/detail/io_op.hpp relies on: the buffer consumer walks a sequence of
-- `total` bytes, and an operation moves at most the part that it is given.
use neo_io.Prelude.{
  ℕ, ◌+◌, ◌≤◌, ◌<◌, ◌≡◌, ap, ◌==◌, List, arith, length, take, drop, length-take, length-drop,
}
use neo_io.Transfer.{TransferResult}
use neo_io.IoOp.{Consumer, Consumers}

-- How a consumer and its parts are read: the offset reached, and the span that a part covers.
pub record Spans (C P : Type 0) : Type 0 where
  pub pos : C → ℕ
  pub start : P → ℕ
  pub len : P → ℕ

-- The documented behaviour of neo-buffer's consumers over `total` bytes.
pub record IsConsumer {C P : Type 0} (v : Spans C P) (total : ℕ) (k : Consumer C P) : Type 0 where
  pub is_empty_lem : (p : P) → k.is_empty p ≡ (v.len p == 0)
  pub start-next : (n : ℕ) (c : C) → v.start (k.next n c) ≡ v.pos c
  pub next-le : (n : ℕ) (c : C) → v.len (k.next n c) ≤ n
  pub next-fits : (n : ℕ) (c : C) → v.pos c ≤ total → v.pos c + v.len (k.next n c) ≤ total
  pub next-pos : (n : ℕ) (c : C) → 0 < n → v.pos c < total → 0 < v.len (k.next n c)
  pub pos-consume : (n : ℕ) (c : C) → v.pos c + n ≤ total → v.pos (k.consume n c) ≡ v.pos c + n

pub record AreConsumers {C P : Type 0} (v : Spans C P) (total : ℕ) (cs : Consumers C P)
    : Type 0 where
  pub single : IsConsumer v total cs.buffers_consumer
  pub vec : IsConsumer v total cs.buffers_vec_consumer

-- A part that is not empty and lies in the buffers; the loop gives no other to an operation.
abbrev pub IsPart : {C P : Type 0} → Spans C P → ℕ → P → Type 0
IsPart v total p = (0 < v.len p) × (v.start p + v.len p ≤ total)

-- An operation on parts: it moves at most the part, and `Effect s n`, which says that the state `s`
-- shows the first `n` bytes moved, goes on from the part's start.
pub record IsOperation {R C P S : Type 0} (t : TransferResult R) (v : Spans C P) (total : ℕ)
    (Effect : S → ℕ → Type 0) (op : P → S → R × S) : Type 0 where
  pub op-le : (p : P) (s : S) → IsPart v total p → t.bytes_transferred (op p s).0 ≤ v.len p
  pub op-Effect :
      (p : P) (s : S)
      → IsPart v total p
      → Effect s (v.start p)
      → Effect (op p s).1 (v.start p + t.bytes_transferred (op p s).0)

-- The bytes that a part refers to, which are those of the source where it lies inside.
pub record IsView {C P : Type 0} (v : Spans C P) (src : List ℕ) (view : P → List ℕ) : Type 0 where
  pub view-in_range :
      (p : P) → v.start p + v.len p ≤ length src → view p ≡ take (v.len p) (drop (v.start p) src)

pub length-view :
    {C P : Type 0} {v : Spans C P} {src : List ℕ} {view : P → List ℕ}
    → IsView v src view
    → (p : P) → v.start p + v.len p ≤ length src
    → length (view p) ≡ v.len p
length-view {v} {src} vl p inside = omega (
  arith,
  ap length (vl.view-in_range p inside),
  length-take (v.len p) (drop (v.start p) src),
  length-drop (v.start p) src,
  inside,
)
