-- ===== src/Ssl/Bindings/Binding.antt =====
-- The buffers of each TLS stream of src/neo/io/openssl/stream.hpp refer to its own inner stream.

use mathlib.Core.Path.{subst}
use neo_io.Prelude.{ℕ, ◌==◌, ==_iff, ◌≡◌, refl, sym, ◌∙◌, inl, inr, Bool-cases, Option, none, some}
use neo_io.Transfer.{Outcome, returned, thrown}
use neo_io.Buffers.{IoBuffers}
use neo_io.Ssl.Context.{Config, ContextCalls}
use neo_io.Ssl.Ownership.{Pointers, EngineCalls, Take, construct_engine}
use neo_io.Ssl.Bindings.{
  InnerAddress, member, external, Inner, owned, referred, Stream, Store, Side, to_peer, from_peer,
  Moved, put, set_value, address_of, rebind_io, rebind_inner, bound, set_bufs, take_inner,
  take_bound, take_stream, rebind_next_layer, load, save_member, save, used, use_at, use_bufs,
}
use neo_io.Ssl.Bindings.Program.{
  Op, constructs, adopts, assigns, rebinds, destroys, uses, constructed, construct, adopt, assign,
  rebind, destroy, step,
}

set_value-address_of :
    {V : Type 0} (i : ℕ) (v : V) (x : Inner V) → address_of i (set_value v x) ≡ address_of i x
unfolding address_of set_value
set_value-address_of i v (owned _) = refl
set_value-address_of i v (referred a) = refl

module _ {V B : Type 0} where
  -- Both buffers of the stream at a place refer to its inner stream.
  abbrev pub IsBoundAt : ℕ → Option (Stream V B) → Type 0
  IsBoundAt i none = Unit {0}
  IsBoundAt i (some x) =
      (x.input.strm ≡ address_of i x.inner) × (x.output.strm ≡ address_of i x.inner)

  put-IsBoundAt :
      (i : ℕ) (o : Option (Stream V B)) (f : ℕ → Option (Stream V B))
      → IsBoundAt i o
      → ((k : ℕ) → IsBoundAt k (f k))
      → (k : ℕ) → IsBoundAt k (put i o f k)
  put-IsBoundAt i o f here rest k = elim (Bool-cases (k == i)) [
    | inl h ↦ rw h (subst (λ n. IsBoundAt n o) (sym ((==_iff k i).0 h)) here)
    | inr h ↦ rw h (rest k)
  ]

  rebind_io-IsBoundAt : (i : ℕ) (x : Stream V B) → IsBoundAt i (some (rebind_io i x))
  unfolding rebind_io
  rebind_io-IsBoundAt i x = (refl, refl)

  take_inner-address_of :
      (m : Moved V B) (i : ℕ) (x : Inner V) → address_of i (take_inner m x).1 ≡ address_of i x
  unfolding take_inner address_of
  take_inner-address_of m i (owned v) = refl
  take_inner-address_of m i (referred a) = refl

  take_stream-IsBoundAt :
      (t : Take) (m : Moved V B) (i : ℕ) (x : Stream V B)
      → IsBoundAt i (some x)
      → IsBoundAt i (some (take_stream t m x).1)
  unfolding take_stream take_bound
  take_stream-IsBoundAt t m i x (a, b) =
      let k = take_inner-address_of m i x.inner in (a ∙ sym k, b ∙ sym k)

  rebind_inner-IsBoundAt :
      (i a : ℕ) (n : Inner V) (x : Stream V B)
      → IsBoundAt i (some x)
      → IsBoundAt i (some (rebind_inner i a n x))
  unfolding rebind_inner
  rebind_inner-IsBoundAt i a (owned v) x b = b
  rebind_inner-IsBoundAt i a (referred _) x b =
      rebind_io-IsBoundAt i (record x { inner = referred a })

  -- What a use leaves in a stream is bound as it was.
  set_bufs-IsBoundAt :
      (side : Side) (i : ℕ) (b : B) (x : Stream V B)
      → IsBoundAt i (some x)
      → IsBoundAt i (some (set_bufs side b x))
  set_bufs-IsBoundAt to_peer i b x h = h
  set_bufs-IsBoundAt from_peer i b x h = h

  save_member-IsBoundAt :
      (i : ℕ) (v : V) (o : Option (Stream V B)) → IsBoundAt i o → IsBoundAt i (save_member v o)
  unfolding save_member
  save_member-IsBoundAt i v none h = h
  save_member-IsBoundAt i v (some x) (a, b) =
      let k = set_value-address_of i v x.inner in (a ∙ sym k, b ∙ sym k)

module _ {V B W : Type 0} where
  abbrev pub AreBound : Store V B W → Type 0
  AreBound s = (k : ℕ) → IsBoundAt k (s.streams k)

  save-AreBound : (a : InnerAddress) (v : V) (s : Store V B W) → AreBound s → AreBound (save a v s)
  unfolding save
  save-AreBound (external a) v s h = h
  save-AreBound (member k) v s h =
      put-IsBoundAt k (save_member v (s.streams k)) s.streams
        (save_member-IsBoundAt k v (s.streams k) (h k)) h

  use_at-AreBound :
      (side : Side) (f : IoBuffers B V → IoBuffers B V) (i : ℕ) (x : Stream V B) (o : Option V)
      (s : Store V B W)
      → IsBoundAt i (some x)
      → AreBound s
      → AreBound (use_at side f i x o s)
  unfolding use_at used
  use_at-AreBound side f i x none s b h = h
  use_at-AreBound side f i x (some v) s b h =
      let y = f (record { io_bufs = (bound side x).io_bufs; strm = v }) in
      save-AreBound (bound side x).strm y.strm _ (
        put-IsBoundAt i (some (set_bufs side y.io_bufs x)) s.streams
          (set_bufs-IsBoundAt side i y.io_bufs x b) h)

  use_bufs-AreBound :
      (side : Side) (f : IoBuffers B V → IoBuffers B V) (i : ℕ) (o : Option (Stream V B))
      (s : Store V B W)
      → IsBoundAt i o
      → AreBound s
      → AreBound (use_bufs side f i o s)
  unfolding use_bufs
  use_bufs-AreBound side f i none s b h = h
  use_bufs-AreBound side f i (some x) s b h =
      use_at-AreBound side f i x (load (bound side x).strm s) s b h

module _ {V B W : Type 0} (c : ContextCalls W) (e : EngineCalls W) (take_ptr : Take) (g : Config)
    (m : Moved V B) where
  constructed-AreBound :
      (i : ℕ) (n : Inner V) (out : Outcome Pointers × W) (s : Store V B W)
      → AreBound s
      → AreBound (constructed c e take_ptr g m i n out s)
  unfolding constructed
  constructed-AreBound i n (thrown err, w) s h = h
  constructed-AreBound i n (returned p, w) s h = put-IsBoundAt i _ s.streams (refl, refl) h

  construct-AreBound :
      (i ctx : ℕ) (n : Inner V) (o : Option (Stream V B)) (s : Store V B W)
      → AreBound s
      → AreBound (construct c e take_ptr g m i ctx n o s)
  unfolding construct
  construct-AreBound i ctx n none s h =
      constructed-AreBound i n (construct_engine c e take_ptr g ctx s.system) s h
  construct-AreBound i ctx n (some _) s h = h

  rebind-AreBound :
      (i a : ℕ) (o : Option (Stream V B)) (s : Store V B W)
      → IsBoundAt i o
      → AreBound s
      → AreBound (rebind c e take_ptr g m i a o s)
  unfolding rebind rebind_next_layer
  rebind-AreBound i a none s b h = h
  rebind-AreBound i a (some x) s b h =
      put-IsBoundAt i (some (rebind_inner i a x.inner x)) s.streams
        (rebind_inner-IsBoundAt i a x.inner x b) h

  destroy-AreBound :
      (i : ℕ) (o : Option (Stream V B)) (s : Store V B W)
      → AreBound s
      → AreBound (destroy c e take_ptr g m i o s)
  unfolding destroy
  destroy-AreBound i none s h = h
  destroy-AreBound i (some _) s h = put-IsBoundAt i none s.streams tt h

  -- Two streams are replaced, the one at `i` last.
  two_put-AreBound :
      (i j : ℕ) (a b : Stream V B) (s : Store V B W)
      → IsBoundAt i (some a)
      → IsBoundAt j (some b)
      → AreBound s
      → (k : ℕ) → IsBoundAt k (put i (some a) (put j (some b) s.streams) k)
  two_put-AreBound i j a b s p q h =
      put-IsBoundAt i (some a) (put j (some b) s.streams) p (put-IsBoundAt j (some b) s.streams q h)

  adopt-AreBound :
      (i j : ℕ) (a b : Option (Stream V B)) (s : Store V B W)
      → IsBoundAt j b
      → AreBound s
      → AreBound (adopt c e take_ptr g m i j a b s)
  unfolding adopt
  adopt-AreBound i j (some _) b s q h = h
  adopt-AreBound i j none none s q h = h
  adopt-AreBound i j none (some other) s q h =
      let (this, left) = take_stream take_ptr m other in
      two_put-AreBound i j (rebind_io i this) left s (rebind_io-IsBoundAt i this)
        (take_stream-IsBoundAt take_ptr m j other q) h

  assign-AreBound :
      (i j : ℕ) (a b : Option (Stream V B)) (s : Store V B W)
      → IsBoundAt j b
      → AreBound s
      → AreBound (assign c e take_ptr g m i j a b s)
  unfolding assign
  assign-AreBound i j none b s q h = h
  assign-AreBound i j (some _) none s q h = h
  assign-AreBound i j (some this) (some other) s q h =
      let (moved, left) = take_stream take_ptr m other in
      two_put-AreBound i j (rebind_io i moved) left s (rebind_io-IsBoundAt i moved)
        (take_stream-IsBoundAt take_ptr m j other q) h

  pub step-AreBound :
      (o : Op V B) (s : Store V B W) → AreBound s → AreBound (step c e take_ptr g m o s)
  unfolding step
  step-AreBound (constructs i ctx n) s h = construct-AreBound i ctx n (s.streams i) s h
  step-AreBound (adopts i j) s h = adopt-AreBound i j (s.streams i) (s.streams j) s (h j) h
  step-AreBound (assigns i j) s h = elim (Bool-cases (i == j)) [
    | inl same ↦ rw same h
    | inr other ↦ rw other (assign-AreBound i j (s.streams i) (s.streams j) s (h j) h)
  ]
  step-AreBound (rebinds i a) s h = rebind-AreBound i a (s.streams i) s (h i) h
  step-AreBound (destroys i) s h = destroy-AreBound i (s.streams i) s h
  step-AreBound (uses side f i) s h = use_bufs-AreBound side f i (s.streams i) s (h i) h
