-- ===== src/Buffers/Laws.antt =====
-- What src/neo/io/stream/buffers.hpp relies on: the documented behaviour of `dynbuf_io`.
use neo_io.Prelude.{ℕ, ◌≤◌, ◌≡◌, List, ◌++◌, length, take, drop}
use neo_io.Buffers.{DynbufIo}

-- `content b` are the bytes committed and not consumed, `staged b` those of the prepared region.
pub record IsDynbufIo {B : Type 0} (d : DynbufIo B) (content staged : B → List ℕ) : Type 0 where
  pub available_lem : (b : B) → d.available b ≡ length (content b)
  pub prepared_lem : (b : B) → d.prepared b ≡ length (staged b)
  pub next_lem : (n : ℕ) (b : B) → d.next n b ≡ take n (content b)
  pub content-consume : (n : ℕ) (b : B) → content (d.consume n b) ≡ drop n (content b)
  pub content-prepare : (n : ℕ) (b : B) → content (d.prepare n b) ≡ content b
  pub prepare-le : (n : ℕ) (b : B) → length (staged (d.prepare n b)) ≤ n
  pub content-store : (bs : List ℕ) (b : B) → content (d.store bs b) ≡ content b
  pub staged-store :
      (bs : List ℕ) (b : B)
      → length bs ≤ length (staged b)
      → staged (d.store bs b) ≡ bs ++ drop (length bs) (staged b)
  pub content-commit :
      (n : ℕ) (b : B)
      → n ≤ length (staged b)
      → content (d.commit n b) ≡ content b ++ take n (staged b)
