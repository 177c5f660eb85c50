-- ===== src/Tests/Writing.antt =====
-- Whole writes into a dynamic buffer made of a list and reads from it, and a string stream made of one.
use neo_io.Prelude.{ℕ, min, ◌≡◌, refl, false, some, List, [], ◌∷◌, ◌++◌, arith, take, drop}
use neo_io.Transfer.{BasicTransferResult, basic_transfer_result, is_error}
use neo_io.IoOp.{Stream, read_all, write_all}
use neo_io.IoOp.Receiving.{filled}
use neo_io.Dynbuf.Reading.{Receiver, dynbuf_source, read_all-takes}
use neo_io.IoOp.Laws.{IsView}
use neo_io.Dynbuf.Writing.{dynbuf_stream, write_all-appends}
use neo_io.Dynbuf.{string_read_some}
use neo_io.Dynbuf.StringTrip.{IsStringBuffer, string_stream, string_stream_roundtrip}
use neo_io.Tests.Flat.{Part, spans, flat, flat-AreConsumers}
use neo_io.Tests.Buffered.{list_buffer, list-IsDynamicBuffer, list_copy, list-IsBufferCopy}

-- The bytes of a part.
abbrev pub part_of : List ℕ → Part → List ℕ
part_of src p = take p.len (drop p.start src)

pub part_of-IsView : (src : List ℕ) → IsView spans src (part_of src)
part_of-IsView src = record { view-in_range = λ p h. refl }

abbrev pub text : List ℕ
text = 110 ∷ 101 ∷ 111 ∷ []

write_all-appends_example :
    (r : BasicTransferResult) × (b' : List ℕ) × (write_all 4
        (flat 3)
        (dynbuf_stream list_buffer (part_of text))
        0
        (42 ∷ [])
      ≡ some (r, b'))
    × (is_error r.ec ≡ false)
    × (r.bytes_transferred ≡ 3)
    × (b' ≡ (42 ∷ []) ++ text)
write_all-appends_example =
    write_all-appends list-IsDynamicBuffer (part_of-IsView text) 4 0 (42 ∷ []) (omega arith)
      (omega arith) (flat-AreConsumers 3) refl (λ n b. refl)

-- A string that is the list of its characters.
list-IsStringBuffer : IsStringBuffer {B = List ℕ} {T = List ℕ} (λ b. b) (λ s. s) (λ s. s) (λ b. b)
list-IsStringBuffer = record { content-as_dynamic_buffer = λ s. refl; bytes-string_of = λ b. refl }

abbrev text_stream : Stream BasicTransferResult Part (List ℕ)
text_stream = string_stream {T = List ℕ} list_buffer (λ s. s) (λ b. b) (part_of text)

string_stream_roundtrip_example :
    (w : BasicTransferResult) × (s' : List ℕ) × (write_all 4 (flat 3) text_stream 0 []
      ≡ some (w, s'))
    × (w.bytes_transferred ≡ 3)
    × let (r, dest', s'') =
        string_read_some list_buffer {T = List ℕ}
          (λ s. s)
          (λ b. b)
          list_copy
          (0 ∷ 0 ∷ 0 ∷ 0 ∷ [])
          s' in
      (r.bytes_transferred ≡ 3) × (dest' ≡ text ++ 0 ∷ []) × (s'' ≡ [])
string_stream_roundtrip_example =
    string_stream_roundtrip list-IsDynamicBuffer list-IsStringBuffer (part_of-IsView text) 4 0
      (0 ∷ 0 ∷ 0 ∷ 0 ∷ []) [] (omega arith) (omega arith) (flat-AreConsumers 3) refl
      list-IsBufferCopy (λ n b. refl) refl (omega arith)

-- A destination of two bytes, before a buffer of three.
abbrev receiver : Receiver 2 (List ℕ)
receiver = record { memory = 0 ∷ 0 ∷ []; length-memory = refl; bufs = text }

abbrev text_source : Stream BasicTransferResult Part (Receiver 2 (List ℕ))
text_source = dynbuf_source spans 2 list-IsDynamicBuffer list-IsBufferCopy

read_all-takes_example :
    (r : BasicTransferResult) × (s' : Receiver 2 (List ℕ)) × (read_all 3
        (flat 2)
        text_source
        0
        receiver
      ≡ some (r, s'))
    × (is_error r.ec ≡ false)
    × (r.bytes_transferred ≡ min 2 3)
    × (s'.memory ≡ filled r.bytes_transferred text (0 ∷ 0 ∷ []))
    × (s'.bufs ≡ drop r.bytes_transferred text)
read_all-takes_example =
    read_all-takes spans 2 list-IsDynamicBuffer list-IsBufferCopy 3 0 receiver (omega arith)
      (omega arith) (flat-AreConsumers 2) refl
