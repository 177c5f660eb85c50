-- ===== src/Tests/Files.antt =====
-- File streams, and whole writes to a descriptor of a system that takes two bytes at a time.
use neo_io.Prelude.{
  ℕ, ◌==◌, ◌≢◌, if◌then◌else◌, passed, ◌≤◌, ◌≡◌, ap, ◌⊎◌, inr, refl, true, some, List, [], ◌∷◌,
  ◌++◌, append-nil, arith, min, take, length,
}
use neo_io.Transfer.{NativeTransferResult, native_transfer_result, transfer_errant}
use neo_io.Throwing.{value}
use neo_io.Native.{posix_invalid}
use neo_io.File.Posix.{SysOpen, minus_one}
use neo_io.File.Stream.{only_read, close_file, file_stream, file_stream_lem}
use neo_io.IoOp.{write_all}
use neo_io.IoOp.Laws.{IsView, length-view}
use neo_io.Posix.{Buffer, IoVec, iovec_of, SysCall}
use neo_io.Posix.Overloads.{Source, buffers}
use neo_io.Posix.Writing.{gather, all_bytes, fd_stream, WritesFile, Holds, write_all-writes}
use neo_io.Tests.Flat.{Part, spans, flat, flat-AreConsumers}
use neo_io.Tests.Connections.{throw_held, held-Throws}
use neo_io.Tests.Writing.{part_of, text}

-- The memory holds the text at address 0.
abbrev memory : IoVec → List ℕ
memory v = part_of text (record { start = v.iov_base; len = v.iov_len })

abbrev at_once : List IoVec → ℕ
at_once iov = min 2 (length (gather memory iov))

-- A call of `::writev` on a file that holds what was written.
abbrev toy_writev : SysCall (List IoVec) (List ℕ)
toy_writev fd iov w = (at_once iov, 0, w ++ take (at_once iov) (gather memory iov))

abbrev toy_write : SysCall Buffer (List ℕ)
toy_write fd buf w = toy_writev fd (iovec_of buf ∷ []) w

toy-WritesFile : WritesFile toy_write toy_writev 3 memory (λ w. w)
toy-WritesFile = record {
  alike = λ buf w. refl;
  counts = λ iov w. inr (omega arith, omega arith);
  failure-written = λ iov w h. absurd (omega (arith, h));
  success-written = λ iov w h. refl;
  progress = λ iov w h z. absurd (omega (arith, h, z));
}

-- A range of one buffer.
abbrev one_buffer : Part → Source
one_buffer p = buffers (record { address = p.start; size = p.len } ∷ [])

one_buffer-IsView : IsView spans text (λ p. all_bytes memory (one_buffer p))
one_buffer-IsView = record { view-in_range = λ p h. append-nil (part_of text p) }

-- An array of one entry.
abbrev array : List IoVec
array = record { iov_base = 0; iov_len = 0 } ∷ []

text-Holds : Holds spans memory array one_buffer text
text-Holds = record {
  views = one_buffer-IsView;
  reaches = λ p part. omega (
    arith,
    part.0,
    ap length (one_buffer-IsView.view-in_range p part.1),
    length-view one_buffer-IsView p part.1,
  );
}

write_all-writes_example :
    (r : NativeTransferResult) × (w' : List ℕ) × (write_all 4
        (flat 3)
        (fd_stream toy_write toy_writev 3 array one_buffer)
        0
        (8 ∷ [])
      ≡ some (r, w'))
    × (r.bytes_transferred ≤ 3)
    × (w' ≡ (8 ∷ []) ++ take r.bytes_transferred text)
    × ((transfer_errant r ≡ true) ⊎ (w' ≡ (8 ∷ []) ++ text))
write_all-writes_example =
    write_all-writes array one_buffer toy-WritesFile text-Holds 4 0 (8 ∷ []) (omega arith)
      (omega arith) (flat-AreConsumers 3) refl

-- A system that refuses every path but the one of three characters; its state is what was closed.
abbrev toy_open : SysOpen (List ℕ)
toy_open path flags mode w = if length path == 3 then (5, 0, w) else (minus_one, 2, w)

abbrev toy_close : ℕ → List ℕ → List ℕ
toy_close fd w = fd ∷ w

file_stream_lem_example :
    (file_stream toy_close toy_open throw_held text only_read [] ≡ passed (value 5, []))
    × (5 ≢ minus_one → close_file toy_close posix_invalid (5 ∷ []) ≡ (posix_invalid, 5 ∷ []))
unfolding close_file
file_stream_lem_example =
    file_stream_lem toy_close toy_open throw_held text only_read [] held-Throws
      (λ e. absurd (omega (arith, e)))
