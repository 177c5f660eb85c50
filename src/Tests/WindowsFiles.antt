-- ===== src/Tests/WindowsFiles.antt =====
-- A Windows handle that takes all it is given.
use neo_io.Prelude.{ℕ, ◌%◌, ◌^◌, ◌≤◌, ◌≡◌, ◌+◌, refl, some, arith}
use neo_io.Transfer.{NativeTransferResult, native_transfer_result}
use neo_io.IoOp.{read_all, write_all}
use neo_io.Posix.{Buffer}
use neo_io.Win32.{Calls, read_some, write_some}
use neo_io.Win32.Transfers.{IsFileApi, handle_stream, transfers-bounded}
use neo_io.Tests.Flat.{Part, flat, flat-AreConsumers}

-- The system is the last error.
abbrev toy_files : Calls ℕ
toy_files = record {
  set_last_error = λ e w. e;
  get_last_error = λ w. w;
  read_file = λ h a n w. (n, w);
  write_file = λ h a n w. (n, w);
}

toy-IsFileApi : IsFileApi toy_files
toy-IsFileApi = record { read-le = λ h a n w. omega arith; write-le = λ h a n w. omega arith }

-- 4 GiB and two bytes.
abbrev large : ℕ
large = 4294967298

abbrev large_part : Part → Buffer
large_part p = record { address = 4096 + p.start; size = p.len }

transfers-bounded_example :
    ((r : NativeTransferResult) × (w' : ℕ) × (read_all 4294967299
          (flat large)
          (handle_stream (read_some toy_files 3) large_part)
          0
          6
        ≡ some (r, w'))
      × (r.bytes_transferred ≤ 4294967298 % 2 ^ 32))
    × ((r : NativeTransferResult) × (w' : ℕ) × (write_all 4294967299
            (flat large)
            (handle_stream (write_some toy_files 3) large_part)
            0
            6
          ≡ some (r, w'))
        × (r.bytes_transferred ≤ 4294967298 % 2 ^ 32))
transfers-bounded_example =
    transfers-bounded toy_files 3 large_part 4294967299 0 6 toy-IsFileApi (flat-AreConsumers large)
      (λ n c inside long. omega (arith, inside, long)) (λ p. refl) (omega arith) (omega arith) refl
