-- ===== src/Ssl/Bindings/Sessions.antt =====
-- TLS streams without addresses, which src/neo/io/openssl/stream.hpp promises: a session has one inner
-- stream, which both of its sides use, and a move carries the session over.
use neo_io.Prelude.{ℕ, ◌==◌, if◌then◌else◌, Option, none, some, List, [], ◌∷◌}
use neo_io.Transfer.{Outcome, returned, thrown}
use neo_io.Buffers.{IoBuffers}
use neo_io.Ssl.Context.{Config, ContextCalls}
use neo_io.Ssl.Ownership.{Pointers, EngineCalls, Take, construct_engine, free, take_members}
use neo_io.Ssl.Bindings.{Inner, owned, referred, Side, to_peer, from_peer, Moved, put, take_inner}
use neo_io.Ssl.Bindings.Program.{Op, constructs, adopts, assigns, rebinds, destroys, uses}

pub record Session (V B : Type 0) : Type 0 where
  pub inner : Inner V
  pub pointers : Pointers
  pub in_bufs : B
  pub out_bufs : B

pub record Sessions (V B W : Type 0) : Type 0 where
  pub sessions : ℕ → Option (Session V B)
  pub externals : ℕ → V
  pub system : W

-- Only a session over an inner stream outside can be bound to another.
unfoldable pub refer_to : {V : Type 0} → ℕ → Inner V → Inner V
refer_to a (owned v) = owned v
refer_to a (referred b) = referred a

module _ {V B : Type 0} where
  abbrev pub bufs_of : Side → Session V B → B
  bufs_of to_peer x = x.out_bufs
  bufs_of from_peer x = x.in_bufs

  abbrev pub with_bufs : Side → B → Session V B → Session V B
  with_bufs to_peer b x = record x { out_bufs = b }
  with_bufs from_peer b x = record x { in_bufs = b }

  -- What a move carries over, and what it leaves.
  unfoldable pub move_session : Take → Moved V B → Session V B → Session V B × Session V B
  move_session take_ptr m other =
      let (inner, inner_left) = take_inner m other.inner in
      let (pointers, pointers_left) = take_members take_ptr other.pointers in
      (
        record {
          inner = inner;
          pointers = pointers;
          in_bufs = other.in_bufs;
          out_bufs = other.out_bufs;
        },
        record {
          inner = inner_left;
          pointers = pointers_left;
          in_bufs = m.moved_bufs other.in_bufs;
          out_bufs = m.moved_bufs other.out_bufs;
        },
      )

module _ {V B W : Type 0} where
  -- A use of one side works on the session's own inner stream, or on the one that it refers to.
  unfoldable pub use_inner :
      Side
      → (IoBuffers B V → IoBuffers B V)
      → ℕ
      → Session V B
      → Inner V
      → Sessions V B W
      → Sessions V B W
  use_inner side f i x (owned v) s =
      let y = f (record { io_bufs = bufs_of side x; strm = v }) in
      let x' = with_bufs side y.io_bufs x in
      record s { sessions = put i (some (record x' { inner = owned y.strm })) s.sessions }
  use_inner side f i x (referred a) s =
      let y = f (record { io_bufs = bufs_of side x; strm = s.externals a }) in
      record s {
        sessions = put i (some (with_bufs side y.io_bufs x)) s.sessions;
        externals = put a y.strm s.externals;
      }

  unfoldable pub use_session :
      Side
      → (IoBuffers B V → IoBuffers B V)
      → ℕ
      → Option (Session V B)
      → Sessions V B W
      → Sessions V B W
  unfolding use_inner
  use_session side f i none s = s
  use_session side f i (some x) s = use_inner side f i x x.inner s

module _ {V B W : Type 0} (c : ContextCalls W) (e : EngineCalls W) (take_ptr : Take) (g : Config)
    (m : Moved V B) where
  unfoldable pub new_session : ℕ → Inner V → Outcome Pointers × W → Sessions V B W → Sessions V B W
  new_session i inner (thrown err, w) s = record s { system = w }
  new_session i inner (returned pointers, w) s = record s {
    sessions =
        put i
          (some (record {
            inner = inner;
            pointers = pointers;
            in_bufs = m.no_bufs;
            out_bufs = m.no_bufs;
          }))
          s.sessions;
    system = w;
  }

  unfoldable pub start_session :
      ℕ → ℕ → Inner V → Option (Session V B) → Sessions V B W → Sessions V B W
  unfolding new_session
  start_session i ctx inner none s =
      new_session i inner (construct_engine c e take_ptr g ctx s.system) s
  start_session i ctx inner (some _) s = s

  unfoldable pub adopt_session :
      ℕ → ℕ → Option (Session V B) → Option (Session V B) → Sessions V B W → Sessions V B W
  unfolding move_session
  adopt_session i j none (some other) s =
      let (this, left) = move_session take_ptr m other in
      record s { sessions = put i (some this) (put j (some left) s.sessions) }
  adopt_session i j none none s = s
  adopt_session i j (some _) _ s = s

  unfoldable pub assign_session :
      ℕ → ℕ → Option (Session V B) → Option (Session V B) → Sessions V B W → Sessions V B W
  unfolding move_session
  assign_session i j (some this) (some other) s =
      let (moved, left) = move_session take_ptr m other in
      record s {
        sessions = put i (some moved) (put j (some left) s.sessions);
        system = free c e take_ptr g this.pointers s.system;
      }
  assign_session i j (some _) none s = s
  assign_session i j none _ s = s

  unfoldable pub rebind_session : ℕ → ℕ → Option (Session V B) → Sessions V B W → Sessions V B W
  unfolding refer_to
  rebind_session i a none s = s
  rebind_session i a (some x) s = record s {
    sessions = put i (some (record x { inner = refer_to a x.inner })) s.sessions;
  }

  unfoldable pub end_session : ℕ → Option (Session V B) → Sessions V B W → Sessions V B W
  end_session i none s = s
  end_session i (some x) s = record s {
    sessions = put i none s.sessions;
    system = free c e take_ptr g x.pointers s.system;
  }

  unfoldable pub session_step : Op V B → Sessions V B W → Sessions V B W
  unfolding start_session adopt_session assign_session rebind_session end_session use_session
  session_step (constructs i ctx inner) s = start_session i ctx inner (s.sessions i) s
  session_step (adopts i j) s = adopt_session i j (s.sessions i) (s.sessions j) s
  session_step (assigns i j) s =
      if i == j then s else assign_session i j (s.sessions i) (s.sessions j) s
  session_step (rebinds i a) s = rebind_session i a (s.sessions i) s
  session_step (destroys i) s = end_session i (s.sessions i) s
  session_step (uses side f i) s = use_session side f i (s.sessions i) s

  unfoldable pub session_run : List (Op V B) → Sessions V B W → Sessions V B W
  unfolding session_step
  session_run [] s = s
  session_run (o ∷ os) s = session_run os (session_step o s)
