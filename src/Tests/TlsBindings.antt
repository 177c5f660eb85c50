-- ===== src/Tests/TlsBindings.antt =====
-- TLS streams over owned connections and over one outside, which are moved and used.
use neo_io.Prelude.{ℕ, ◌≡◌, none, List, [], ◌∷◌}
use neo_io.Buffers.{IoBuffers}
use neo_io.Ssl.Bindings.{owned, referred, Store, to_peer, from_peer, Moved}
use neo_io.Ssl.Bindings.Program.{Op, constructs, adopts, assigns, rebinds, destroys, uses, run}
use neo_io.Ssl.Bindings.Sessions.{session_run}
use neo_io.Ssl.Bindings.Binding.{AreBound}
use neo_io.Ssl.Bindings.Refinement.{view, run-refines}
use neo_io.Tests.TlsObjects.{Heap, context_calls, engine_calls, taken, modern}

-- An inner stream is the bytes that it holds, and so are buffers.
abbrev moved_lists : Moved (List ℕ) (List ℕ)
moved_lists = record { moved_inner = λ v. []; moved_bufs = λ b. []; no_bufs = [] }

abbrev no_streams : Store (List ℕ) (List ℕ) Heap
no_streams = record {
  streams = λ i. none;
  externals = λ a. a ∷ [];
  system = record { next = 1; contexts = []; ssls = []; bios = [] };
}

-- What is buffered goes to the stream, and what the stream holds is buffered.
abbrev send : IoBuffers (List ℕ) (List ℕ) → IoBuffers (List ℕ) (List ℕ)
send x = record { io_bufs = []; strm = 5 ∷ x.strm }

abbrev receive : IoBuffers (List ℕ) (List ℕ) → IoBuffers (List ℕ) (List ℕ)
receive x = record { io_bufs = x.strm; strm = [] }

abbrev moving : List (Op (List ℕ) (List ℕ))
moving =
    constructs 0 9 (owned (7 ∷ []))
    ∷ constructs 1 9 (referred 3)
    ∷ uses to_peer send 0
    ∷ adopts 2 0
    ∷ uses from_peer receive 2
    ∷ rebinds 1 4
    ∷ uses to_peer send 1
    ∷ assigns 0 2
    ∷ uses to_peer send 0
    ∷ destroys 2
    ∷ []

run-refines_example :
    AreBound (run context_calls engine_calls taken modern moved_lists moving no_streams)
    × (view (run context_calls engine_calls taken modern moved_lists moving no_streams)
        ≡ session_run context_calls engine_calls taken modern moved_lists moving (view no_streams))
run-refines_example =
    run-refines context_calls engine_calls taken modern moved_lists moving no_streams (λ k. tt)
