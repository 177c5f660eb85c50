-- ===== src/Posix/Writing.antt =====
-- `write` of src/neo/io/write.hpp over a descriptor, by the `write_some` of
-- src/neo/io/stream/posix.hpp.
use mathlib.Core.List.{map}
use neo_io.Prelude.{
  ℕ, zero, suc, ◌-◌, ◌≤◌, ◌<◌, min, ◌≡◌, ◌≢◌, refl, ap, sym, ◌∙◌, ◌⊎◌, inl, inr, true, List, [],
  ◌∷◌, ◌++◌, append_assoc, append-nil, arith, length, take, drop, length-append, take-append_left,
  take-take, size_mod, some, Checked, passed, assert_failed,
}
use neo_io.Transfer.{
  NativeTransferResult, native_transfer_result, native-IsTransferResult, transfer_errant,
}
use neo_io.IoOp.{Stream, Consumers, write_all}
use neo_io.IoOp.Laws.{Spans, IsPart, AreConsumers, IsView, length-view}
use neo_io.IoOp.Conditions.{MakesProgress}
use neo_io.IoOp.Sending.{IsWriter, write_all-sends}
use neo_io.Posix.{Buffer, IoVec, iovec_of, SysCall}
use neo_io.Posix.Transfers.{IsTransferCount, mk_result_lem}
use neo_io.Posix.Overloads.{
  Source, const_buffer, mutable_buffer, buffers, buffers_of, offered, write_some, write_some_lem,
}

-- The bytes of buffers in order, given those of one.
abbrev pub gather : (IoVec → List ℕ) → List IoVec → List ℕ
gather region [] = []
gather region (v ∷ vs) = region v ++ gather region vs

gather-split :
    (region : IoVec → List ℕ) (k : ℕ) (bufs : List Buffer)
    → gather region (map iovec_of bufs)
      ≡ gather region (map iovec_of (take k bufs)) ++ gather region (map iovec_of (drop k bufs))
gather-split region zero bufs = refl
gather-split region (suc k) [] = refl
gather-split region (suc k) (b ∷ bufs) = rw (gather-split region k bufs, append_assoc)

-- A failed assertion ends the program; what stands for it here does not occur.
abbrev pub unless_aborted : Checked NativeTransferResult → NativeTransferResult
unless_aborted (passed r) = r
unless_aborted assert_failed = record { bytes_transferred = 0; errn = 0 }

-- A descriptor as a stream over parts, which are arguments of `write_some`. The array's old entries do
-- not matter.
abbrev pub fd_stream :
    {Q W : Type 0}
    → SysCall Buffer W
    → SysCall (List IoVec) W
    → ℕ
    → List IoVec
    → (Q → Source)
    → Stream NativeTransferResult Q W
fd_stream sys_write sys_writev fd arr argument = record {
  some_part = λ p w.
      let (r, _, w') = write_some sys_write sys_writev fd (argument p) arr w in
      (unless_aborted r, w');
  vectored = true;
}

-- The documented behaviour of `::writev`, and of `::write` as its case of one buffer: it fails with an error number and leaves the file alone, or
-- adds a prefix of the buffers' bytes to what was written, which is not empty unless they are.
pub record WritesFile {W : Type 0} (sys_write : SysCall Buffer W) (call : SysCall (List IoVec) W)
    (fd : ℕ) (region : IoVec → List ℕ) (written : W → List ℕ) : Type 0 where
  pub alike : (buf : Buffer) (w : W) → sys_write fd buf w ≡ call fd (iovec_of buf ∷ []) w
  pub counts :
      (iov : List IoVec) (w : W)
      → IsTransferCount (length (gather region iov)) (call fd iov w).0 (call fd iov w).1
  pub failure-written :
      (iov : List IoVec) (w : W)
      → (call fd iov w).0 ≡ size_mod - 1
      → written (call fd iov w).2 ≡ written w
  pub success-written :
      (iov : List IoVec) (w : W)
      → (call fd iov w).0 ≢ size_mod - 1
      → written (call fd iov w).2 ≡ written w ++ take (call fd iov w).0 (gather region iov)
  pub progress : (iov : List IoVec) (w : W) → 0 < length (gather region iov) → (call fd iov w).0 ≢ 0

abbrev pub all_bytes : (IoVec → List ℕ) → Source → List ℕ
all_bytes region a = gather region (map iovec_of (buffers_of a))

module _ (region : IoVec → List ℕ) (arr : List IoVec) where
  -- The bytes that one call offers to the system.
  abbrev pub offered_bytes : Source → List ℕ
  offered_bytes a = gather region (offered a arr)

  split : (a : Source) → (rest : List ℕ) × (all_bytes region a ≡ offered_bytes a ++ rest)
  split (const_buffer b) = ([], sym (append-nil (region (iovec_of b) ++ [])))
  split (mutable_buffer b) = ([], sym (append-nil (region (iovec_of b) ++ [])))
  split (buffers bufs) =
      let k = min (length arr) (length bufs) in
      (gather region (map iovec_of (drop k bufs)), gather-split region k bufs)

  offered-le : (a : Source) → length (offered_bytes a) ≤ length (all_bytes region a)
  offered-le a =
      let (rest, e) = split a in omega (arith, ap length e, length-append (offered_bytes a) rest)

  take-offered :
      (a : Source) (n : ℕ)
      → n ≤ length (offered_bytes a)
      → take n (offered_bytes a) ≡ take n (all_bytes region a)
  take-offered a n h =
      let k = length (offered_bytes a) in
      let (rest, e) = split a in
      sym (ap (take n) (take-append_left k (offered_bytes a) rest refl))
      ∙ take-take n k (offered_bytes a ++ rest) h
      ∙ ap (take n) (sym e)

module _ {W : Type 0} {sys_write : SysCall Buffer W} {call : SysCall (List IoVec) W} {fd : ℕ}
    {region : IoVec → List ℕ} {written : W → List ℕ} (arr : List IoVec)
    (wl : WritesFile sys_write call fd region written) where
  -- What one call reports and writes: an error and nothing, or a prefix of the argument's bytes.
  abbrev Wrote : Source → W → NativeTransferResult → W → Type 0
  Wrote a w r w' =
      (r.bytes_transferred ≤ length (all_bytes region a))
      × (written w' ≡ written w ++ take r.bytes_transferred (all_bytes region a))
      × (0 < length (offered_bytes region arr a)
          → r.bytes_transferred ≡ 0
          → transfer_errant r ≡ true)

  pub call-Wrote :
      (a : Source) (w : W)
      → let (r, _, w') = write_some sys_write call fd a arr w in Wrote a w (unless_aborted r) w'
  call-Wrote a w =
      let (n, errno, w') = call fd (offered a arr) w in
      let (r, e, failed, ends) =
        mk_result_lem (length (offered_bytes region arr a)) n errno (wl.counts (offered a arr) w) in
      let (same, world, _) = write_some_lem sys_write call fd a arr w wl.alike in
      rw (same, world, e)
        (elim ends [
          | inl (bad, none, _) ↦ (
            omega (arith, none),
            rw none (
                wl.failure-written (offered a arr) w (failed.1 bad) ∙ sym (append-nil (written w))),
            λ _ _. bad,
          )
          | inr (good, count, le) ↦ (
            omega (arith, count, le, offered-le region arr a),
            rw count (
                wl.success-written (offered a arr) w (λ q. cc (failed.0 q, good))
                ∙ ap (λ x. written w ++ x) (take-offered region arr a n le)),
            λ some_bytes z. absurd (wl.progress (offered a arr) w some_bytes (sym count ∙ z)),
          )
        ])

-- The parts refer to the bytes of the source, and of each that is not empty one of the buffers that
-- fit into the array is not empty.
pub record Holds {D Q : Type 0} (u : Spans D Q) (region : IoVec → List ℕ) (arr : List IoVec)
    (argument : Q → Source) (src : List ℕ) : Type 0 where
  pub views : IsView u src (λ p. all_bytes region (argument p))
  pub reaches :
      (p : Q) → IsPart u (length src) p → 0 < length (offered_bytes region arr (argument p))

module _ {D Q W : Type 0} {sys_write : SysCall Buffer W} {call : SysCall (List IoVec) W} {fd : ℕ}
    {region : IoVec → List ℕ} {written : W → List ℕ} (arr : List IoVec) (argument : Q → Source)
    {u : Spans D Q} {src : List ℕ} (wl : WritesFile sys_write call fd region written)
    (held : Holds u region arr argument src) where
  pub fd-IsWriter :
      IsWriter native_transfer_result u src written (fd_stream sys_write call fd arr argument)
  fd-IsWriter = record {
    write-le = λ p w part.
        let (le, _, _) = call-Wrote arr wl (argument p) w in
        omega (arith, le, length-view held.views p part.1);
    write-sent = λ p w part.
        let (le, wrote, _) = call-Wrote arr wl (argument p) w in
        wrote
        ∙ ap (λ x. written w ++ x)
            (ap (take _) (held.views.view-in_range p part.1)
              ∙ take-take _ (u.len p) (drop (u.start p) src)
                  (omega (arith, le, length-view held.views p part.1)));
  }

  pub fd-MakesProgress :
      MakesProgress u (length src) (fd_stream sys_write call fd arr argument).some_part
  fd-MakesProgress p w part z = (call-Wrote arr wl (argument p) w).2 (held.reaches p part) z

  -- `write` of less than 2^64 bytes, with more fuel than bytes, to a descriptor whose system behaves
  -- as documented, by whichever overload of `write_some`. The parts refer to the bytes of the
  -- source, and of each that is not empty one of the buffers that fit into the array is not empty.
  -- Then the write returns. The file has got exactly the
  -- reported number of leading bytes, and the whole source unless the result has an error.
  pub write_all-writes :
      {cs : Consumers D Q} (fuel : ℕ) (c : D) (w : W)
      → length src < size_mod
      → length src < fuel
      → AreConsumers u (length src) cs
      → u.pos c ≡ 0
      → (r : NativeTransferResult) × (w' : W) × (write_all fuel cs
            (fd_stream sys_write call fd arr argument)
            c
            w
          ≡ some (r, w'))
        × (r.bytes_transferred ≤ length src)
        × (written w' ≡ written w ++ take r.bytes_transferred src)
        × ((transfer_errant r ≡ true) ⊎ (written w' ≡ written w ++ src))
  write_all-writes fuel c w small enough cl at_start =
      let (r, w', e, le, wrote, end) =
        write_all-sends native-IsTransferResult small cl fd-IsWriter fuel c w enough at_start
          fd-MakesProgress in
      (r, w', e, le, wrote, elim end [ inl bad ↦ inl bad | inr (_, all) ↦ inr all ])
