-- ===== src/Ssl/Bindings.antt =====
-- src/neo/io/openssl/stream.hpp, with the members of the engine of src/neo/io/openssl/engine.hpp: where
-- the buffers of a TLS stream find its inner stream. Streams stand at places, which are numbers, and
-- an inner stream has an address: it is a member of a stream, or outside of all.
pub mod Program
pub mod Binding
pub mod Sessions
pub mod Refinement
use neo_io.Prelude.{ℕ, ◌==◌, if◌then◌else◌, Option, none, some, List, [], ◌∷◌}
use neo_io.Transfer.{ErrorCode, Outcome, returned, thrown}
use neo_io.Buffers.{IoBuffers}
use neo_io.Ssl.Context.{Config, ContextCalls}
use neo_io.Ssl.Ownership.{Pointers, EngineCalls, Take, construct_engine, free, take_members}

pub data InnerAddress : Type 0 where
  member external : ℕ → InnerAddress

-- `wrap_refs_t<Inner>`: the inner stream itself, or, if `Inner` is a reference, the address of one
-- that is outside.
pub data Inner (V : Type 0) : Type 0 where
  owned : V → Inner V
  referred : ℕ → Inner V

-- A `stream_io_buffers<Inner&>`: the stream that it refers to, and its buffers.
pub record Bound (B : Type 0) : Type 0 where
  pub strm : InnerAddress
  pub io_bufs : B

-- A `stream<Inner>`: `_inner`, and the members of `_eng`.
pub record Stream (V B : Type 0) : Type 0 where
  pub inner : Inner V
  pub pointers : Pointers
  pub input : Bound B
  pub output : Bound B

-- The streams by their places, the inner streams outside, and the rest of the program's world.
pub record Store (V B W : Type 0) : Type 0 where
  pub streams : ℕ → Option (Stream V B)
  pub externals : ℕ → V
  pub system : W

-- The two ways of a stream: the engine's output, and its input.
pub data Side : Type 0 where
  to_peer from_peer : Side

-- What a move leaves in an inner stream and in buffers, and buffers as their default constructor
-- makes them.
pub record Moved (V B : Type 0) : Type 0 where
  pub moved_inner : V → V
  pub moved_bufs : B → B
  pub no_bufs : B

abbrev pub put : {A : Type 0} → ℕ → A → (ℕ → A) → ℕ → A
put i x f k = if k == i then x else f k

-- The value in an inner stream that is a member.
unfoldable pub own_value : {V : Type 0} → Inner V → Option V
own_value (owned v) = some v
own_value (referred a) = none

unfoldable pub set_value : {V : Type 0} → V → Inner V → Inner V
set_value v (owned _) = owned v
set_value v (referred a) = referred a

-- The stream that `_inner` stands for, in the stream at place `i`.
unfoldable pub address_of : {V : Type 0} → ℕ → Inner V → InnerAddress
address_of i (owned v) = member i
address_of i (referred a) = external a

-- `rebind_stream` of `stream_io_buffers`.
abbrev pub rebind_stream : {B : Type 0} → InnerAddress → Bound B → Bound B
rebind_stream a x = record { strm = a; io_bufs = x.io_bufs }

module _ {V B : Type 0} where
  -- `_rebind_io`, of the stream at place `i`.
  unfoldable pub rebind_io : ℕ → Stream V B → Stream V B
  unfolding address_of
  rebind_io i this = record this {
    input = rebind_stream (address_of i this.inner) this.input;
    output = rebind_stream (address_of i this.inner) this.output;
  }

  abbrev pub bound : Side → Stream V B → Bound B
  bound to_peer x = x.output
  bound from_peer x = x.input

  abbrev pub set_bufs : Side → B → Stream V B → Stream V B
  set_bufs to_peer b x = record x { output = record { strm = x.output.strm; io_bufs = b } }
  set_bufs from_peer b x = record x { input = record { strm = x.input.strm; io_bufs = b } }

  -- What moving from `_inner` gives, and what it leaves there.
  unfoldable pub take_inner : Moved V B → Inner V → Inner V × Inner V
  take_inner m (owned v) = (owned v, owned (m.moved_inner v))
  take_inner m (referred a) = (referred a, referred a)

  unfoldable pub take_bound : Moved V B → Bound B → Bound B × Bound B
  take_bound m x = (x, record { strm = x.strm; io_bufs = m.moved_bufs x.io_bufs })

  -- All members moved from another stream: what they give, and what is left there.
  unfoldable pub take_stream : Take → Moved V B → Stream V B → Stream V B × Stream V B
  unfolding take_inner take_bound
  take_stream take_ptr m other =
      let (inner, inner_left) = take_inner m other.inner in
      let (pointers, pointers_left) = take_members take_ptr other.pointers in
      let (input, input_left) = take_bound m other.input in
      let (output, output_left) = take_bound m other.output in
      (
        record { inner = inner; pointers = pointers; input = input; output = output },
        record {
          inner = inner_left;
          pointers = pointers_left;
          input = input_left;
          output = output_left;
        },
      )

  -- `rebind_next_layer`, which only a stream of a reference has; by `_inner`.
  unfoldable pub rebind_inner : ℕ → ℕ → Inner V → Stream V B → Stream V B
  unfolding rebind_io
  rebind_inner i a (owned v) this = this
  rebind_inner i a (referred b) this = rebind_io i (record this { inner = referred a })

  unfoldable pub rebind_next_layer : ℕ → ℕ → Stream V B → Stream V B
  unfolding rebind_inner
  rebind_next_layer i a this = rebind_inner i a this.inner this

  -- The inner stream that is a member of the stream in a place.
  unfoldable pub member_value : Option (Stream V B) → Option V
  unfolding own_value
  member_value none = none
  member_value (some x) = own_value x.inner

  unfoldable pub save_member : V → Option (Stream V B) → Option (Stream V B)
  unfolding set_value
  save_member v none = none
  save_member v (some x) = some (record x { inner = set_value v x.inner })

module _ {V B W : Type 0} where
  -- The inner stream at an address, for the buffers that refer to it.
  unfoldable pub load : InnerAddress → Store V B W → Option V
  unfolding member_value
  load (member k) s = member_value (s.streams k)
  load (external a) s = some (s.externals a)

  unfoldable pub save : InnerAddress → V → Store V B W → Store V B W
  unfolding save_member
  save (member k) v s = record s { streams = put k (save_member v (s.streams k)) s.streams }
  save (external a) v s = record s { externals = put a v s.externals }

  -- A call on the buffers of one side, which reaches the inner stream through their reference.
  unfoldable pub used : Side → ℕ → Stream V B → IoBuffers B V → Store V B W → Store V B W
  unfolding save
  used side i x y s =
      save (bound side x).strm y.strm
        (record s { streams = put i (some (set_bufs side y.io_bufs x)) s.streams })

  unfoldable pub use_at :
      Side → (IoBuffers B V → IoBuffers B V) → ℕ → Stream V B → Option V → Store V B W → Store V B W
  unfolding used
  use_at side f i x none s = s
  use_at side f i x (some v) s =
      used side i x (f (record { io_bufs = (bound side x).io_bufs; strm = v })) s

  unfoldable pub use_bufs :
      Side → (IoBuffers B V → IoBuffers B V) → ℕ → Option (Stream V B) → Store V B W → Store V B W
  unfolding use_at load
  use_bufs side f i none s = s
  use_bufs side f i (some x) s = use_at side f i x (load (bound side x).strm s) s
