-- ===== src/Buffers/Input.antt =====
-- `next` of src/neo/io/stream/buffers.hpp: what comes in.
use neo_io.Prelude.{
  ℕ, ◌≤◌, ◌≡◌, ◌≢◌, refl, ap, ◌∙◌, inl, inr, ltb, ◌==◌, ==_iff, List, [], ◌++◌, append_assoc, arith,
  Bool-cases, length, take, drop, eq-nil_of_length, length-append, take-append_left, take-eq_of_le,
}
use neo_io.Transfer.{TransferResult, transfer_errant, ErrorCode, Outcome, returned, thrown}
use neo_io.Buffers.{DynbufIo, ReadSome, IoBuffers, fill, next}
use neo_io.Buffers.Laws.{IsDynbufIo}

-- The contract of a `read_stream`: `read_some` stores in the region the next bytes that come in, as
-- many as it reports.
pub record IsSource {R S : Type 0} ⦃t : TransferResult R⦄ (incoming : S → List ℕ)
    (read_some : ReadSome R S) : Type 0 where
  pub read-le : (n : ℕ) (s : S) → t.bytes_transferred (read_some n s).0 ≤ n
  pub length-read :
      (n : ℕ) (s : S) → length (read_some n s).1 ≡ t.bytes_transferred (read_some n s).0
  pub read-incoming : (n : ℕ) (s : S) → incoming s ≡ (read_some n s).1 ++ incoming (read_some n s).2

module _ {B S : Type 0} (content : B → List ℕ) (incoming : S → List ℕ) where
  -- What a call of `next(size)` that does what it should has done.
  pub record Serves (size : ℕ) (x : IoBuffers B S) (out : Outcome (List ℕ)) (x' : IoBuffers B S)
      : Type 0 where
    pub kept : content x'.io_bufs ++ incoming x'.strm ≡ content x.io_bufs ++ incoming x.strm
    pub given : (bytes : List ℕ) → out ≡ returned bytes → bytes ≡ take size (content x'.io_bufs)
    pub buffered : content x.io_bufs ≢ [] → x' ≡ x
    pub failed : (e : ErrorCode) → out ≡ thrown e → content x.io_bufs ≡ []

module _ {R B S : Type 0} ⦃t : TransferResult R⦄ {d : DynbufIo B} {content staged : B → List ℕ}
    {incoming : S → List ℕ} {read_some : ReadSome R S} (dl : IsDynbufIo d content staged)
    (sl : IsSource incoming read_some) where
  -- The bytes that were read end up behind the buffered ones.
  fill-content :
      (size : ℕ) (x : IoBuffers B S)
      → let in_bufs = d.prepare size x.io_bufs in
        let (r, bytes, s) = read_some (d.prepared in_bufs) x.strm in
        content (d.commit (t.bytes_transferred r) (d.store bytes in_bufs))
        ≡ content x.io_bufs ++ bytes
  fill-content size x =
      dl.content-commit n (d.store bytes in_bufs) (
        omega (
          arith,
          ap length area,
          room,
          len,
          length-append bytes (drop (length bytes) (staged in_bufs)),
        ))
      ∙ (rw (
        dl.content-store bytes in_bufs,
        dl.content-prepare size x.io_bufs,
        area,
        take-append_left n bytes (drop (length bytes) (staged in_bufs)) len,
      ))
    where
      in_bufs : B
      in_bufs = d.prepare size x.io_bufs

      n : ℕ
      n = t.bytes_transferred (read_some (d.prepared in_bufs) x.strm).0

      bytes : List ℕ
      bytes = (read_some (d.prepared in_bufs) x.strm).1

      len : length bytes ≡ n
      len = sl.length-read (d.prepared in_bufs) x.strm

      room : length bytes ≤ length (staged in_bufs)
      room = omega (arith, len, sl.read-le (d.prepared in_bufs) x.strm, dl.prepared_lem in_bufs)

      area : staged (d.store bytes in_bufs) ≡ bytes ++ drop (length bytes) (staged in_bufs)
      area = dl.staged-store bytes in_bufs room

  fill-Serves :
      (size : ℕ) (x : IoBuffers B S)
      → content x.io_bufs ≡ []
      → Serves content incoming size x (fill d read_some size x).0 (fill d read_some size x).1
  unfolding fill
  fill-Serves size x e = record {
    kept = rw (
      fill-content size x,
      append_assoc,
      ← sl.read-incoming (d.prepared (d.prepare size x.io_bufs)) x.strm,
    );
    given = λ bytes q. elim (Bool-cases (transfer_errant res.0)) [
      | inl bad ↦ absurd (cc (rw bad at q))
      | inr fine ↦ cc (rw fine at q, dl.next_lem size after)
    ];
    buffered = λ k. absurd (k e);
    failed = λ _ _. e;
  }
    where
      res : R × List ℕ × S
      res = read_some (d.prepared (d.prepare size x.io_bufs)) x.strm

      after : B
      after = d.commit (t.bytes_transferred res.0) (d.store res.1 (d.prepare size x.io_bufs))

  -- `next(size)` loses, doubles and reorders nothing between the buffer and the stream. What it
  -- returns are the first `size` buffered bytes, or all if there are fewer. While anything is
  -- buffered it leaves the buffer and the stream alone, and it throws only if nothing was.
  pub next-Serves :
      (size : ℕ) (x : IoBuffers B S)
      → Serves content incoming size x (next d read_some size x).0 (next d read_some size x).1
  unfolding next
  next-Serves size x = elim (Bool-cases (ltb size (d.available x.io_bufs))) [
    | inl h ↦ rw h (record {
      kept = refl;
      given = λ bytes q. cc (q, dl.next_lem size x.io_bufs);
      buffered = λ _. refl;
      failed = λ e q. absurd (cc q);
    })
    | inr h ↦ elim (Bool-cases (d.available x.io_bufs == 0)) [
      | inl z ↦
          rw (h, z)
            (fill-Serves size x (eq-nil_of_length _ (omega (arith, buffer, (==_iff _ _).0 z))))
      | inr nz ↦
          rw (h, nz)
            (record {
              kept = refl;
              given = λ bytes q. cc (
                q,
                dl.next_lem (d.available x.io_bufs) x.io_bufs,
                take-eq_of_le (d.available x.io_bufs) (content x.io_bufs) (omega (arith, buffer)),
                take-eq_of_le size (content x.io_bufs) (ground (arith, buffer)),
              );
              buffered = λ _. refl;
              failed = λ e q. absurd (cc q);
            })
    ]
  ]
    where
      buffer : d.available x.io_bufs ≡ length (content x.io_bufs)
      buffer = dl.available_lem x.io_bufs
