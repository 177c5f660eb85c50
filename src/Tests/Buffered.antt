-- ===== src/Tests/Buffered.antt =====
-- The dynamic buffer and the buffered stream over lists.
use neo_io.Prelude.{
  ℕ, ◌+◌, min, ◌≡◌, refl, ap, ◌∙◌, some, List, [], ◌∷◌, ◌++◌, arith, length, take, drop,
  length-append, length-take, take-append_left, take-append-drop, take-eq_of_le, sym,
}
use neo_io.Transfer.{
  BasicTransferResult, basic_transfer_result, basic-IsTransferResult, Outcome, returned,
}
use neo_io.Dynbuf.{DynamicBuffer, BufferCopy}
use neo_io.Dynbuf.Laws.{IsDynamicBuffer, IsBufferCopy}
use neo_io.Dynbuf.Fifo.{Call, put, get, run, run-fifo}
use neo_io.Buffers.{DynbufIo, Sink, ReadSome, IoBuffers, commit, next}
use neo_io.Buffers.Laws.{IsDynbufIo}
use neo_io.Buffers.Output.{IsSink, commit-keeps}
use neo_io.Buffers.Input.{IsSource, Serves, next-Serves}
use neo_io.Tests.Flat.{
  Part, spans, flat, flat-AreConsumers, moved_bytes, writer, writer-IsWriter, writer-MakesProgress,
  zeros, length-zeros,
}

-- A list as a dynamic buffer.
abbrev pub list_buffer : DynamicBuffer (List ℕ)
list_buffer = record {
  size = λ b. length b;
  grow = λ n b. (record { start = length b; size = n }, b ++ zeros n);
  shown = λ p n b. take n (drop p b);
  consume = λ n b. drop n b;
  copy_into = λ w src b. (
    min w.size (length src),
    take w.start b
        ++ (take (min w.size (length src)) src ++ drop (w.start + min w.size (length src)) b),
  );
}

pub list-IsDynamicBuffer : IsDynamicBuffer list_buffer (λ b. b)
list-IsDynamicBuffer = record {
  size_lem = λ b. refl;
  grow-start = λ n b. refl;
  grow-le = λ n b. omega arith;
  length-grow = λ n b. length-append b (zeros n) ∙ ap (λ k. length b + k) (length-zeros n);
  take-grow = λ n b. take-append_left (length b) b (zeros n) refl;
  shown_lem = λ n b h. refl;
  content-consume = λ n b h. refl;
  count-copy_into = λ w src b h. refl;
  content-copy_into = λ w src b h. refl;
}

abbrev pub list_copy : BufferCopy
list_copy dest src = take (length dest) src ++ drop (length src) dest

pub list-IsBufferCopy : IsBufferCopy list_copy
list-IsBufferCopy dest src h =
    ap (λ t. t ++ drop (length src) dest) (take-eq_of_le (length dest) src h)

abbrev old : List ℕ
old = 7 ∷ 8 ∷ []

abbrev calls : List Call
calls = put (4 ∷ 5 ∷ []) ∷ get (0 ∷ 0 ∷ 0 ∷ []) ∷ put (6 ∷ []) ∷ []

run-fifo_example :
    let (taken, given, b') = run list_buffer list_copy calls old in old ++ taken ≡ given ++ b'
run-fifo_example = run-fifo list-IsDynamicBuffer list-IsBufferCopy calls old

-- The committed bytes and the prepared region.
pub record Staged : Type 0 where
  pub content : List ℕ
  pub area : List ℕ

abbrev pub list_io : DynbufIo Staged
list_io = record {
  prepare = λ n b. record b { area = zeros n };
  prepared = λ b. length b.area;
  store = λ bs b. record b { area = bs ++ drop (length bs) b.area };
  commit = λ n b. record { content = b.content ++ take n b.area; area = drop n b.area };
  available = λ b. length b.content;
  next = λ n b. take n b.content;
  consume = λ n b. record b { content = drop n b.content };
}

pub list-IsDynbufIo : IsDynbufIo list_io (λ b. b.content) (λ b. b.area)
list-IsDynbufIo = record {
  available_lem = λ b. refl;
  prepared_lem = λ b. refl;
  next_lem = λ n b. refl;
  content-consume = λ n b. refl;
  content-prepare = λ n b. refl;
  prepare-le = λ n b. omega (arith, length-zeros n);
  content-store = λ bs b. refl;
  staged-store = λ bs b h. refl;
  content-commit = λ n b h. refl;
}

abbrev pub list_sink : Sink BasicTransferResult ℕ Part (List ℕ)
list_sink = record {
  stream = λ src. writer src;
  consumers = λ src. flat (length src);
  begins = λ src. 0;
}

pub list-IsSink : IsSink spans (λ s. s) list_sink
list-IsSink = record {
  walks = λ src. flat-AreConsumers (length src);
  starts = λ src. refl;
  writes = writer-IsWriter;
  moves = writer-MakesProgress;
}

-- Three prepared bytes behind one that an earlier commit has left.
abbrev backlog : IoBuffers Staged (List ℕ)
backlog = record { io_bufs = record { content = 1 ∷ []; area = 2 ∷ 3 ∷ 4 ∷ [] }; strm = 9 ∷ [] }

commit-keeps_example :
    (out : Outcome (Unit {0})) × (x' : IoBuffers Staged (List ℕ)) × (commit list_io list_sink 4 3
        backlog
      ≡ some (out, x'))
    × (x'.strm ++ x'.io_bufs.content ≡ ((9 ∷ []) ++ (1 ∷ [])) ++ take 3 (2 ∷ 3 ∷ 4 ∷ []))
    × (out ≡ returned tt → length x'.io_bufs.content ≡ 1)
commit-keeps_example =
    commit-keeps {staged = λ b. b.area} {sent = λ s. s} basic-IsTransferResult list-IsDynbufIo
      list-IsSink 4 3 backlog (omega arith) (omega arith) (omega arith)

abbrev pub list_source : ReadSome BasicTransferResult (List ℕ)
list_source n s =
    (moved_bytes (min n (length s)), take (min n (length s)) s, drop (min n (length s)) s)

pub list-IsSource : IsSource (λ s. s) list_source
list-IsSource = record {
  read-le = λ n s. omega arith;
  length-read = λ n s. length-take (min n (length s)) s ∙ omega arith;
  read-incoming = λ n s. sym (take-append-drop (min n (length s)) s);
}

abbrev empty_buffer : IoBuffers Staged (List ℕ)
empty_buffer = record { io_bufs = record { content = []; area = [] }; strm = old }

next-Serves_example :
    Serves
      (λ b. b.content)
      (λ s. s)
      3
      empty_buffer
      (next list_io list_source 3 empty_buffer).0
      (next list_io list_source 3 empty_buffer).1
next-Serves_example = next-Serves list-IsDynbufIo list-IsSource 3 empty_buffer
