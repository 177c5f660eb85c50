-- ===== src/Tests/Flat.antt =====
-- Consumers over a flat sequence, and streams over lists, for the tests.
use neo_io.Prelude.{
  ℕ, zero, suc, ◌+◌, ◌-◌, min, ◌≡◌, refl, ap, false, ◌==◌, List, [], ◌∷◌, ◌++◌, arith, length, take,
  drop, eq-nil_of_length,
}
use neo_io.Transfer.{BasicTransferResult, basic_transfer_result, no_error}
use neo_io.IoOp.{Consumer, Consumers, Stream}
use neo_io.IoOp.Laws.{Spans, IsConsumer, AreConsumers}
use neo_io.IoOp.Sending.{IsWriter}
use neo_io.IoOp.Receiving.{IsReader}
use neo_io.IoOp.Conditions.{MakesProgress}

-- A part of the sequence: where it starts, and its length.
pub record Part : Type 0 where
  pub start : ℕ
  pub len : ℕ

abbrev pub spans : Spans ℕ Part
spans = record { pos = λ c. c; start = λ p. p.start; len = λ p. p.len }

abbrev flat_consumer : ℕ → Consumer ℕ Part
flat_consumer total = record {
  next = λ n c. record { start = c; len = min n (total - c) };
  consume = λ n c. c + n;
  is_empty = λ p. p.len == 0;
}

abbrev pub flat : ℕ → Consumers ℕ Part
flat total = record {
  buffers_consumer = flat_consumer total;
  buffers_vec_consumer = flat_consumer total;
}

flat-IsConsumer : (total : ℕ) → IsConsumer spans total (flat_consumer total)
flat-IsConsumer total = record {
  is_empty_lem = λ p. refl;
  start-next = λ n c. refl;
  next-le = λ n c. omega arith;
  next-fits = λ n c h. omega arith;
  next-pos = λ n c h k. omega arith;
  pos-consume = λ n c h. refl;
}

pub flat-AreConsumers : (total : ℕ) → AreConsumers spans total (flat total)
flat-AreConsumers total = record { single = flat-IsConsumer total; vec = flat-IsConsumer total }

abbrev pub moved_bytes : ℕ → BasicTransferResult
moved_bytes n = record { bytes_transferred = n; ec = no_error }

-- A stream that takes two bytes at a time from the source and keeps what was sent.
abbrev pub writer : List ℕ → Stream BasicTransferResult Part (List ℕ)
writer src = record {
  some_part = λ p s. (moved_bytes (min 2 p.len), s ++ take (min 2 p.len) (drop p.start src));
  vectored = false;
}

pub writer-IsWriter :
    (src : List ℕ) → IsWriter basic_transfer_result spans src (λ s. s) (writer src)
writer-IsWriter src = record { write-le = λ p s h. omega arith; write-sent = λ p s h. refl }

pub writer-MakesProgress : (src : List ℕ) → MakesProgress spans (length src) (writer src).some_part
writer-MakesProgress src p s h z = absurd (omega (arith, h.0))

-- What comes in, and the memory that is read into.
pub record Channel : Type 0 where
  pub incoming : List ℕ
  pub memory : List ℕ

-- How much a read of a part moves: two bytes at most.
abbrev reads : Part → Channel → ℕ
reads p s = min (min 2 p.len) (length s.incoming)

abbrev pub reader : Stream BasicTransferResult Part Channel
reader = record {
  some_part = λ p s. (
    moved_bytes (reads p s),
    record {
      incoming = drop (reads p s) s.incoming;
      memory =
          take p.start s.memory
          ++ (take (reads p s) s.incoming ++ drop (reads p s) (drop p.start s.memory));
    },
  );
  vectored = false;
}

pub reader-IsReader :
    (total : ℕ)
    → IsReader basic_transfer_result spans total (λ s. s.incoming) (λ s. s.memory) reader
reader-IsReader total = record {
  read-le = λ p s h. omega arith;
  read-le-incoming = λ p s h. omega arith;
  read-incoming = λ p s h. refl;
  read-memory = λ p s h. refl;
  read-end = λ p s h z e.
      let none_left : s.incoming ≡ [] = eq-nil_of_length s.incoming (omega (arith, h.0)) in
      rw (z, none_left) refl;
}

-- `n` zeros.
abbrev pub zeros : ℕ → List ℕ
zeros zero = []
zeros (suc n) = 0 ∷ zeros n

pub length-zeros : (n : ℕ) → length (zeros n) ≡ n
length-zeros zero = refl
length-zeros (suc n) = ap suc (length-zeros n)
