-- ===== src/Ssl/Bindings/Refinement.antt =====
-- A program's TLS streams, of src/neo/io/openssl/stream.hpp, are sessions.
use std.Path.{fun_ext}
use mathlib.Core.Option
use neo_io.Prelude.{
  ℕ, ◌==◌, ==_iff, ◌≡◌, refl, ap, ◌∙◌, inl, inr, Bool-cases, Option, none, some, List, [], ◌∷◌,
}
use neo_io.Transfer.{Outcome, returned, thrown}
use neo_io.Buffers.{IoBuffers}
use neo_io.Ssl.Context.{Config, ContextCalls}
use neo_io.Ssl.Ownership.{Pointers, EngineCalls, Take, construct_engine}
use neo_io.Ssl.Bindings.{
  member, external, Inner, owned, referred, Bound, Stream, Store, Side, to_peer, from_peer, Moved,
  put, own_value, set_value, address_of, rebind_io, rebind_inner, bound, take_bound, take_stream,
  rebind_next_layer, member_value, load, save_member, save, used, use_at, use_bufs,
}
use neo_io.Ssl.Bindings.Program.{
  Op, constructs, adopts, assigns, rebinds, destroys, uses, constructed, construct, adopt, assign,
  rebind, destroy, step, run,
}
use neo_io.Ssl.Bindings.Binding.{IsBoundAt, AreBound, step-AreBound}
use neo_io.Ssl.Bindings.Sessions.{
  Session, Sessions, move_session, refer_to, use_inner, use_session, new_session, start_session,
  adopt_session, assign_session, rebind_session, end_session, session_step, session_run,
}

put-same : {A : Type 0} (i : ℕ) (x : A) (f : ℕ → A) → put i x f i ≡ x
put-same i x f = rw ((==_iff i i).1 refl) refl

put-update :
    {A : Type 0} (h : A → A) (i : ℕ) (x : A) (f : ℕ → A)
    → put i (h (put i x f i)) (put i x f) ≡ put i (h x) f
put-update h i x f =
    fun_ext
      (λ k. elim (Bool-cases (k == i)) [ inl e ↦ rw e (ap h (put-same i x f)) | inr e ↦ rw e refl ])

put-map :
    {A C : Type 0} (h : A → C) (i : ℕ) (x : A) (f : ℕ → A)
    → (λ k. h (put i x f k)) ≡ put i (h x) (λ k. h (f k))
put-map h i x f =
    fun_ext (λ k. elim (Bool-cases (k == i)) [ inl e ↦ rw e refl | inr e ↦ rw e refl ])

module _ {V B : Type 0} where
  -- A stream without the addresses.
  abbrev pub session : Stream V B → Session V B
  session x = record {
    inner = x.inner;
    pointers = x.pointers;
    in_bufs = x.input.io_bufs;
    out_bufs = x.output.io_bufs;
  }

  abbrev viewed : (ℕ → Option (Stream V B)) → ℕ → Option (Session V B)
  viewed f k = Option.map session (f k)

  put-viewed :
      (i : ℕ) (o : Option (Stream V B)) (f : ℕ → Option (Stream V B))
      → viewed (put i o f) ≡ put i (Option.map session o) (viewed f)
  put-viewed i o f = put-map (Option.map session) i o f

  bound-side :
      (side : Side) (i : ℕ) (x : Stream V B)
      → IsBoundAt i (some x)
      → (bound side x).strm ≡ address_of i x.inner
  bound-side to_peer i x (a, b) = b
  bound-side from_peer i x (a, b) = a

  -- A member's stream is saved after its own buffers.
  updated-viewed :
      (i : ℕ) (v : V) (x : Stream V B) (f : ℕ → Option (Stream V B))
      → viewed (put i (save_member v (put i (some x) f i)) (put i (some x) f))
        ≡ put i (Option.map session (save_member v (some x))) (viewed f)
  updated-viewed i v x f = ap viewed (put-update (save_member v) i (some x) f) ∙ put-viewed i _ f

module _ {V B W : Type 0} where
  abbrev pub view : Store V B W → Sessions V B W
  view s = record { sessions = viewed s.streams; externals = s.externals; system = s.system }

  abbrev seen : (ℕ → V) → W → (ℕ → Option (Session V B)) → Sessions V B W
  seen ext w f = record { sessions = f; externals = ext; system = w }

  use-owned :
      (side : Side) (f : IoBuffers B V → IoBuffers B V) (i : ℕ) (v : V) (p : Pointers)
      (a b : Bound B) (s : Store V B W)
      → let x : Stream V B = record { inner = owned v; pointers = p; input = a; output = b } in
        s.streams i ≡ some x
        → (bound side x).strm ≡ member i
        → view (use_at side f i x (load (bound side x).strm s) s)
          ≡ use_inner side f i (session x) (owned v) (view s)
  unfolding use_at used load member_value own_value save save_member set_value use_inner
  use-owned to_peer f i v p a b s e q =
      rw (q, e) (ap (seen s.externals s.system) (updated-viewed i _ _ s.streams))
  use-owned from_peer f i v p a b s e q =
      rw (q, e) (ap (seen s.externals s.system) (updated-viewed i _ _ s.streams))

  use-referred :
      (side : Side) (f : IoBuffers B V → IoBuffers B V) (i r : ℕ) (p : Pointers) (a b : Bound B)
      (s : Store V B W)
      → let x : Stream V B = record { inner = referred r; pointers = p; input = a; output = b } in
        (bound side x).strm ≡ external r
        → view (use_at side f i x (load (bound side x).strm s) s)
          ≡ use_inner side f i (session x) (referred r) (view s)
  unfolding use_at used load save use_inner
  use-referred to_peer f i r p a b s q = rw q (ap (seen _ s.system) (put-viewed i _ s.streams))
  use-referred from_peer f i r p a b s q = rw q (ap (seen _ s.system) (put-viewed i _ s.streams))

  use-by_inner :
      (side : Side) (f : IoBuffers B V → IoBuffers B V) (i : ℕ) (n : Inner V) (p : Pointers)
      (a b : Bound B) (s : Store V B W)
      → let x : Stream V B = record { inner = n; pointers = p; input = a; output = b } in
        s.streams i ≡ some x
        → IsBoundAt i (some x)
        → view (use_at side f i x (load (bound side x).strm s) s)
          ≡ use_inner side f i (session x) n (view s)
  unfolding address_of
  use-by_inner side f i (owned v) p a b s e h =
      use-owned side f i v p a b s e (bound-side side i _ h)
  use-by_inner side f i (referred r) p a b s e h =
      use-referred side f i r p a b s (bound-side side i _ h)

  use-view :
      (side : Side) (f : IoBuffers B V → IoBuffers B V) (i : ℕ) (o : Option (Stream V B))
      (s : Store V B W)
      → s.streams i ≡ o
      → IsBoundAt i o
      → view (use_bufs side f i o s) ≡ use_session side f i (Option.map session o) (view s)
  unfolding use_bufs use_session
  use-view side f i none s e h = refl
  use-view side f i (some x) s e h = use-by_inner side f i x.inner x.pointers x.input x.output s e h

module _ {V B W : Type 0} (c : ContextCalls W) (e : EngineCalls W) (take_ptr : Take) (g : Config)
    (m : Moved V B) where
  constructed-view :
      (i : ℕ) (n : Inner V) (out : Outcome Pointers × W) (s : Store V B W)
      → view (constructed c e take_ptr g m i n out s)
        ≡ new_session c e take_ptr g m i n out (view s)
  unfolding constructed new_session
  constructed-view i n (thrown err, w) s = refl
  constructed-view i n (returned p, w) s = ap (seen s.externals w) (put-viewed i _ s.streams)

  construct-view :
      (i ctx : ℕ) (n : Inner V) (o : Option (Stream V B)) (s : Store V B W)
      → view (construct c e take_ptr g m i ctx n o s)
        ≡ start_session c e take_ptr g m i ctx n (Option.map session o) (view s)
  unfolding construct start_session
  construct-view i ctx n none s =
      constructed-view i n (construct_engine c e take_ptr g ctx s.system) s
  construct-view i ctx n (some _) s = refl

  two_put-viewed :
      (i j : ℕ) (a b : Option (Stream V B)) (f : ℕ → Option (Stream V B))
      → viewed (put i a (put j b f))
        ≡ put i (Option.map session a) (put j (Option.map session b) (viewed f))
  two_put-viewed i j a b f =
      put-viewed i a (put j b f) ∙ ap (put i (Option.map session a)) (put-viewed j b f)

  adopt-view :
      (i j : ℕ) (a b : Option (Stream V B)) (s : Store V B W)
      → view (adopt c e take_ptr g m i j a b s)
        ≡ adopt_session c e take_ptr g m i j (Option.map session a) (Option.map session b) (view s)
  unfolding adopt adopt_session take_stream take_bound rebind_io move_session
  adopt-view i j (some _) b s = refl
  adopt-view i j none none s = refl
  adopt-view i j none (some other) s =
      ap (seen s.externals s.system) (two_put-viewed i j _ _ s.streams)

  assign-view :
      (i j : ℕ) (a b : Option (Stream V B)) (s : Store V B W)
      → view (assign c e take_ptr g m i j a b s)
        ≡ assign_session c e take_ptr g m i j (Option.map session a) (Option.map session b) (view s)
  unfolding assign assign_session take_stream take_bound rebind_io move_session
  assign-view i j none b s = refl
  assign-view i j (some _) none s = refl
  assign-view i j (some this) (some other) s =
      ap (seen s.externals _) (two_put-viewed i j _ _ s.streams)

  rebind_inner-session :
      (i a : ℕ) (n : Inner V) (p : Pointers) (x y : Bound B)
      → session (rebind_inner i a n (record { inner = n; pointers = p; input = x; output = y }))
        ≡ record { inner = refer_to a n; pointers = p; in_bufs = x.io_bufs; out_bufs = y.io_bufs }
  unfolding rebind_inner rebind_io refer_to
  rebind_inner-session i a (owned v) p x y = refl
  rebind_inner-session i a (referred b) p x y = refl

  rebind-view :
      (i a : ℕ) (o : Option (Stream V B)) (s : Store V B W)
      → view (rebind c e take_ptr g m i a o s)
        ≡ rebind_session c e take_ptr g m i a (Option.map session o) (view s)
  unfolding rebind rebind_next_layer rebind_session
  rebind-view i a none s = refl
  rebind-view i a (some x) s = ap (seen s.externals s.system) (
      put-viewed i _ s.streams
      ∙ ap (λ y. put i (some y) (viewed s.streams))
          (rebind_inner-session i a x.inner x.pointers x.input x.output))

  destroy-view :
      (i : ℕ) (o : Option (Stream V B)) (s : Store V B W)
      → view (destroy c e take_ptr g m i o s)
        ≡ end_session c e take_ptr g m i (Option.map session o) (view s)
  unfolding destroy end_session
  destroy-view i none s = refl
  destroy-view i (some x) s = ap (seen s.externals _) (put-viewed i none s.streams)

  step-view :
      (o : Op V B) (s : Store V B W)
      → AreBound s
      → view (step c e take_ptr g m o s) ≡ session_step c e take_ptr g m o (view s)
  unfolding step session_step
  step-view (constructs i ctx n) s h = construct-view i ctx n (s.streams i) s
  step-view (adopts i j) s h = adopt-view i j (s.streams i) (s.streams j) s
  step-view (assigns i j) s h = elim (Bool-cases (i == j)) [
    | inl same ↦ rw same refl
    | inr other ↦ rw other (assign-view i j (s.streams i) (s.streams j) s)
  ]
  step-view (rebinds i a) s h = rebind-view i a (s.streams i) s
  step-view (destroys i) s h = destroy-view i (s.streams i) s
  step-view (uses side f i) s h = use-view side f i (s.streams i) s refl (h i)

  -- A program that makes, moves, assigns, rebinds, destroys and uses TLS streams, from any state in
  -- which both buffers of each stream refer to its own inner stream. The buffers do so afterwards,
  -- and the streams without their addresses are what the same program makes of sessions that have
  -- one inner stream for both sides.
  pub run-refines :
      (os : List (Op V B)) (s : Store V B W)
      → AreBound s
      → AreBound (run c e take_ptr g m os s)
        × (view (run c e take_ptr g m os s) ≡ session_run c e take_ptr g m os (view s))
  unfolding run session_run
  run-refines [] s h = (h, refl)
  run-refines (o ∷ os) s h =
      let (b, v) =
        run-refines os (step c e take_ptr g m o s) (step-AreBound c e take_ptr g m o s h) in
      (b, v ∙ ap (session_run c e take_ptr g m os) (step-view o s h))
