-- ===== src/Ssl/Bindings/Program.antt =====
-- What a program does with its TLS streams of src/neo/io/openssl/stream.hpp.
use neo_io.Prelude.{ℕ, ◌==◌, if◌then◌else◌, Option, none, some, List, [], ◌∷◌}
use neo_io.Transfer.{Outcome, returned, thrown}
use neo_io.Buffers.{IoBuffers}
use neo_io.Ssl.Context.{Config, ContextCalls}
use neo_io.Ssl.Ownership.{Pointers, EngineCalls, Take, construct_engine, free}
use neo_io.Ssl.Bindings.{
  Inner, Bound, Stream, Store, Side, Moved, put, address_of, rebind_io, take_stream,
  rebind_next_layer, use_bufs,
}

-- What a program does: it makes a stream in a place that is free, with a context and an inner stream,
-- or by moving from another; it assigns by moving from a stream at another place, binds to another
-- inner stream, destroys, or lets the engine use one of the buffers.
pub data Op (V B : Type 0) : Type 0 where
  constructs : ℕ → ℕ → Inner V → Op V B
  adopts : ℕ → ℕ → Op V B
  assigns : ℕ → ℕ → Op V B
  rebinds : ℕ → ℕ → Op V B
  destroys : ℕ → Op V B
  uses : Side → (IoBuffers B V → IoBuffers B V) → ℕ → Op V B

module _ {V B W : Type 0} (c : ContextCalls W) (e : EngineCalls W) (take_ptr : Take) (g : Config)
    (m : Moved V B) where
  -- `stream(context&, Inner&&)` at place `i`: the engine's constructor first, which may throw.
  unfoldable pub constructed : ℕ → Inner V → Outcome Pointers × W → Store V B W → Store V B W
  unfolding address_of
  constructed i inner (thrown err, w) s = record s { system = w }
  constructed i inner (returned pointers, w) s =
      let bufs : Bound B = record { strm = address_of i inner; io_bufs = m.no_bufs } in
      record s {
        streams =
            put i
              (some (record { inner = inner; pointers = pointers; input = bufs; output = bufs }))
              s.streams;
        system = w;
      }

  unfoldable pub construct : ℕ → ℕ → Inner V → Option (Stream V B) → Store V B W → Store V B W
  unfolding constructed
  construct i ctx inner none s =
      constructed i inner (construct_engine c e take_ptr g ctx s.system) s
  construct i ctx inner (some _) s = s

  -- `stream(stream&&)`, at the free place `i` from the stream at place `j`.
  unfoldable pub adopt :
      ℕ → ℕ → Option (Stream V B) → Option (Stream V B) → Store V B W → Store V B W
  unfolding take_stream rebind_io
  adopt i j none (some other) s =
      let (this, left) = take_stream take_ptr m other in
      record s { streams = put i (some (rebind_io i this)) (put j (some left) s.streams) }
  adopt i j none none s = s
  adopt i j (some _) _ s = s

  -- The move assignment, to the stream at place `i` from the one at place `j`.
  unfoldable pub assign :
      ℕ → ℕ → Option (Stream V B) → Option (Stream V B) → Store V B W → Store V B W
  unfolding take_stream rebind_io
  assign i j (some this) (some other) s =
      let (moved, left) = take_stream take_ptr m other in
      record s {
        streams = put i (some (rebind_io i moved)) (put j (some left) s.streams);
        system = free c e take_ptr g this.pointers s.system;
      }
  assign i j (some _) none s = s
  assign i j none _ s = s

  unfoldable pub rebind : ℕ → ℕ → Option (Stream V B) → Store V B W → Store V B W
  unfolding rebind_next_layer
  rebind i a none s = s
  rebind i a (some this) s = record s {
    streams = put i (some (rebind_next_layer i a this)) s.streams;
  }

  -- The destructor, which frees what the engine's pointers own.
  unfoldable pub destroy : ℕ → Option (Stream V B) → Store V B W → Store V B W
  destroy i none s = s
  destroy i (some this) s = record s {
    streams = put i none s.streams;
    system = free c e take_ptr g this.pointers s.system;
  }

  -- One operation; one on a stream that does not exist is none. Assigning a stream to itself is not
  -- among them: its engine would keep what it has freed.
  unfoldable pub step : Op V B → Store V B W → Store V B W
  unfolding construct adopt assign rebind destroy use_bufs
  step (constructs i ctx inner) s = construct i ctx inner (s.streams i) s
  step (adopts i j) s = adopt i j (s.streams i) (s.streams j) s
  step (assigns i j) s = if i == j then s else assign i j (s.streams i) (s.streams j) s
  step (rebinds i a) s = rebind i a (s.streams i) s
  step (destroys i) s = destroy i (s.streams i) s
  step (uses side f i) s = use_bufs side f i (s.streams i) s

  unfoldable pub run : List (Op V B) → Store V B W → Store V B W
  unfolding step
  run [] s = s
  run (o ∷ os) s = run os (step o s)
