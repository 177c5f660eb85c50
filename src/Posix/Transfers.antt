-- ===== src/Posix/Transfers.antt =====
-- What a vectored transfer of src/neo/io/stream/posix.hpp covers, and what it reports.
use mathlib.Core.List.{map}
use mathlib.Core.Path.{ap₂}
use neo_io.Prelude.{
  ℕ, suc, ◌+◌, ◌-◌, ◌/◌, ◌≤◌, ◌<◌, min, ◌≡◌, refl, ap, zero, ◌∙◌, ◌⊎◌, inl, inr, true, false, List,
  [], ◌∷◌, ◌++◌, arith, length, take, drop, take-append_left, length-append, length-drop, ◌≢◌, ◌↔◌,
  size_mod, passed,
}
use neo_io.Transfer.{NativeTransferResult, native_transfer_result, transfer_errant}
use neo_io.Posix.{
  Buffer, IoVec, iovec_of, prep_from, prep_iovec, mk_result, SysCall, transfer_range,
}

prep_from_lem :
    (arr : List IoVec) (bufs : List Buffer) (n : ℕ)
    → let k = min (length arr) (length bufs) in
      ((prep_from arr bufs n).0 ≡ map iovec_of (take k bufs) ++ drop k arr)
      × ((prep_from arr bufs n).1 ≡ n + k)
unfolding prep_from
prep_from_lem [] bufs n = let z : min 0 (length bufs) ≡ 0 = omega arith in rw z (refl, omega arith)
prep_from_lem (v ∷ arr) [] n =
    let z : min (suc (length arr)) 0 ≡ 0 = omega arith in rw z (refl, omega arith)
prep_from_lem (v ∷ arr) (b ∷ bufs) n =
    let z : min (suc (length arr)) (suc (length bufs)) ≡ suc (min (length arr) (length bufs)) =
      omega arith in
    let (same, count) = prep_from_lem arr bufs (n + 1) in
    rw z (ap (λ t. iovec_of b ∷ t) same, omega (arith, count))

-- The buffers that one vectored call covers.
abbrev pub covered : List IoVec → List Buffer → List IoVec
covered arr bufs = map iovec_of (take (min (length arr) (length bufs)) bufs)

length-covered :
    (arr : List IoVec) (bufs : List Buffer)
    → length (covered arr bufs) ≡ min (length arr) (length bufs)
length-covered arr bufs = length-map_take (min (length arr) (length bufs)) bufs (omega arith)
  where
    length-map_take :
        (k : ℕ) (bs : List Buffer) → k ≤ length bs → length (map iovec_of (take k bs)) ≡ k
    length-map_take zero bs h = refl
    length-map_take (suc k) [] h = absurd (omega arith)
    length-map_take (suc k) (b ∷ bs) h = ap suc (length-map_take k bs (omega arith))

-- A vectored transfer makes one system call, on the leading buffers of the sequence, as many as the
-- array has entries, in order; and it reports what the call returned.
pub transfer_range_lem :
    {W : Type 0} (call : SysCall (List IoVec) W) (fd : ℕ) (arr : List IoVec) (bufs : List Buffer)
    (w : W)
    → let (n, errno, w') = call fd (covered arr bufs) w in
      let (r, arr', w'') = transfer_range call fd arr bufs w in
      (r ≡ mk_result n errno) × (w'' ≡ w') × (length arr' ≡ length arr)
unfolding transfer_range
transfer_range_lem call fd arr bufs w = rw first (refl, refl, kept)
  where
    k : ℕ
    k = min (length arr) (length bufs)

    facts :
        ((prep_iovec arr bufs).0 ≡ covered arr bufs ++ drop k arr)
        × ((prep_iovec arr bufs).1 ≡ 0 + k)
    facts = prep_from_lem arr bufs 0

    first : take (prep_iovec arr bufs).1 (prep_iovec arr bufs).0 ≡ covered arr bufs
    first =
        ap₂ take facts.1 facts.0
        ∙ take-append_left (0 + k) (covered arr bufs) (drop k arr)
            (omega (arith, length-covered arr bufs))

    kept : length (prep_iovec arr bufs).0 ≡ length arr
    kept =
        ap length facts.0
        ∙ length-append (covered arr bufs) (drop k arr)
        ∙ omega (arith, length-covered arr bufs, length-drop k arr)

-- The documented outcome of a transfer of `size` bytes: -1 with an error number, or a count of at
-- most that.
abbrev pub IsTransferCount : ℕ → ℕ → ℕ → Type 0
IsTransferCount size n errno =
    ((n ≡ size_mod - 1) × (errno ≢ 0)) ⊎ ((n ≤ size) × (n < size_mod / 2))

-- From a documented outcome `_mk_result` makes a result and passes its assertion. The result has an
-- error exactly if the call failed, and then no bytes; otherwise it has the bytes of the call.
pub mk_result_lem :
    (size n errno : ℕ)
    → IsTransferCount size n errno
    → (r : NativeTransferResult) × (mk_result n errno ≡ passed r)
      × ((n ≡ size_mod - 1) ↔ (transfer_errant r ≡ true))
      × ((transfer_errant r ≡ true) × (r.bytes_transferred ≡ 0) × (r.errn ≡ errno)
          ⊎ (transfer_errant r ≡ false) × (r.bytes_transferred ≡ n) × (n ≤ size))
unfolding mk_result
mk_result_lem size n errno (inl (e, nz)) = (
  record { bytes_transferred = 0; errn = errno },
  ground arith,
  (λ _. ground arith, λ _. e),
  inl (ground arith, refl, refl),
)
mk_result_lem size n errno (inr (le, lt)) = (
  record { bytes_transferred = n; errn = 0 },
  ground arith,
  (λ e. absurd (omega arith), λ c. absurd (cc c)),
  inr (refl, refl, le),
)
