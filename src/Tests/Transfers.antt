-- ===== src/Tests/Transfers.antt =====
-- Reads and writes over lists.
use neo_io.Prelude.{
  ℕ, ◌≤◌, min, ◌≡◌, ◌⊎◌, true, some, List, [], ◌∷◌, ◌++◌, arith, take, refl, ap, append_assoc,
  take-add,
}
use neo_io.Transfer.{
  BasicTransferResult, basic_transfer_result, basic-IsTransferResult, transfer_errant,
  transfer_exactly,
}
use neo_io.IoOp.{write, write_all, read_all, do_io_op}
use neo_io.IoOp.Laws.{IsOperation}
use neo_io.IoOp.Conditions.{transfer_exactly-IsCapped}
use neo_io.IoOp.Delivery.{Transferred, do_io_op-Transferred}
use neo_io.IoOp.Sending.{write_all-sends, write-exactly}
use neo_io.IoOp.Receiving.{Received, read_all-receives}
use neo_io.Tests.Flat.{
  Channel, spans, flat, flat-AreConsumers, writer, writer-IsWriter, writer-MakesProgress, reader,
  reader-IsReader,
}

abbrev hello : List ℕ
hello = 104 ∷ 101 ∷ 108 ∷ 108 ∷ 111 ∷ []

-- What lies in the stream before.
abbrev before : List ℕ
before = 1 ∷ []

write_all-sends_example :
    (r : BasicTransferResult) × (s' : List ℕ) × (write_all 6 (flat 5) (writer hello) 0 before
      ≡ some (r, s'))
    × (r.bytes_transferred ≤ 5)
    × (s' ≡ before ++ take r.bytes_transferred hello)
    × ((transfer_errant r ≡ true) ⊎ ((r.bytes_transferred ≡ 5) × (s' ≡ before ++ hello)))
write_all-sends_example =
    write_all-sends {sent = λ s. s} basic-IsTransferResult (omega arith) (flat-AreConsumers 5)
      (writer-IsWriter hello) 6 0 before (omega arith) refl (writer-MakesProgress hello)

write-exactly_example :
    (r : BasicTransferResult) × (s' : List ℕ) × (write 6
        (flat 5)
        (writer hello)
        0
        (transfer_exactly 3)
        before
      ≡ some (r, s'))
    × (s' ≡ before ++ take r.bytes_transferred hello)
    × (r.bytes_transferred ≤ 3)
    × ((transfer_errant r ≡ true) ⊎ (r.bytes_transferred ≡ min 3 5))
write-exactly_example =
    write-exactly {sent = λ s. s} basic-IsTransferResult (omega arith) (flat-AreConsumers 5)
      (writer-IsWriter hello) 6 3 0 before (omega arith) (omega arith) refl
      (writer-MakesProgress hello)

-- Three bytes of memory, before anything was read.
abbrev blank : Channel
blank = record { incoming = hello; memory = 0 ∷ 0 ∷ 0 ∷ [] }

read_all-receives_example :
    (r : BasicTransferResult) × (s' : Channel) × (read_all 4 (flat 3) reader 0 blank ≡ some (r, s'))
    × Received (λ s. s.incoming) (λ s. s.memory) blank s' r.bytes_transferred
    × ((transfer_errant r ≡ true) ⊎ (r.bytes_transferred ≡ min 3 5))
read_all-receives_example =
    read_all-receives basic-IsTransferResult (omega arith) (flat-AreConsumers 3) (reader-IsReader 3)
      4 0 blank (omega arith) refl

-- What the writer has sent after some bytes of its source.
abbrev SentSoFar : List ℕ → ℕ → Type 0
SentSoFar s n = s ≡ before ++ take n hello

writer-IsOperation : IsOperation basic_transfer_result spans 5 SentSoFar (writer hello).some_part
writer-IsOperation = record {
  op-le = λ p s fits. omega arith;
  op-Effect =
      λ p s fits e. rw (e, append_assoc) (ap (◌++◌ before) (take-add p.start _ _ hello refl));
}

do_io_op-Transferred_example :
    (out : BasicTransferResult × List ℕ) × (do_io_op 6
        (flat 5)
        0
        (transfer_exactly 3)
        true
        (writer hello).some_part
        before
      ≡ some out)
    × Transferred spans 5 SentSoFar 3 (transfer_exactly 3) (writer hello).some_part out.0 out.1
do_io_op-Transferred_example =
    do_io_op-Transferred basic-IsTransferResult (omega arith) (flat-AreConsumers 5)
      writer-IsOperation (transfer_exactly-IsCapped 5 3 (omega arith)) 6 true 0 before (omega arith)
      refl refl
