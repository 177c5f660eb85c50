-- ===== src/Dynbuf/Laws.antt =====
-- What src/neo/io/stream/dynbuf.hpp relies on: the documented behaviour of a dynamic buffer.
use neo_io.Prelude.{ℕ, ◌+◌, ◌≤◌, ◌≡◌, min, List, ◌++◌, length, take, drop}
use neo_io.Dynbuf.{Region, DynamicBuffer, BufferCopy}

-- `content b` are the bytes that the buffer holds.
pub record IsDynamicBuffer {B : Type 0} (d : DynamicBuffer B) (content : B → List ℕ) : Type 0 where
  pub size_lem : (b : B) → d.size b ≡ length (content b)
  pub grow-start : (n : ℕ) (b : B) → (d.grow n b).0.start ≡ length (content b)
  pub grow-le : (n : ℕ) (b : B) → (d.grow n b).0.size ≤ n
  pub length-grow :
      (n : ℕ) (b : B) → length (content (d.grow n b).1) ≡ length (content b) + (d.grow n b).0.size
  pub take-grow : (n : ℕ) (b : B) → take (length (content b)) (content (d.grow n b).1) ≡ content b
  pub shown_lem : (n : ℕ) (b : B) → n ≤ length (content b) → d.shown 0 n b ≡ take n (content b)
  pub content-consume :
      (n : ℕ) (b : B) → n ≤ length (content b) → content (d.consume n b) ≡ drop n (content b)
  pub count-copy_into :
      (w : Region) (src : List ℕ) (b : B)
      → w.start + w.size ≤ length (content b)
      → (d.copy_into w src b).0 ≡ min w.size (length src)
  pub content-copy_into :
      (w : Region) (src : List ℕ) (b : B)
      → w.start + w.size ≤ length (content b)
      → content (d.copy_into w src b).1
        ≡ take w.start (content b)
          ++ (take (min w.size (length src)) src
              ++ drop (w.start + min w.size (length src)) (content b))

-- `buffer_copy` stores as much as fits at the front of the destination.
abbrev pub IsBufferCopy : BufferCopy → Type 0
IsBufferCopy buffer_copy =
    (dest src : List ℕ)
    → length src ≤ length dest
    → buffer_copy dest src ≡ src ++ drop (length src) dest
