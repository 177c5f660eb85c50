-- ===== src/Ssl/Ownership/Held.antt =====
-- No context, SSL object or BIO of src/neo/io/openssl/engine.hpp and context.hpp is lost, and none
-- is freed twice.
use neo_io.Prelude.{
  ℕ, ◌+◌, ◌&&◌, get_or-set, length-set, ◌<◌, ◌≡◌, ◌≢◌, refl, ◌∙◌, Bool, true, tally, tally-set,
  tally-move, tally-empty_move, List, [], ◌∷◌, length, ltb, if◌then◌else◌, get_or, set, arith,
}
use neo_io.Transfer.{Outcome, returned, thrown}
use neo_io.Ssl.Context.{
  Config, Role, ContextCalls, Plan, unsupported, load, Pin, unpinned, exactly, at_least, no_ssl,
  pin, execute, plan, construct, suffix_of, close,
}
use neo_io.Ssl.Ownership.{
  Pointers, null_pointers, EngineCalls, Op, make_context, adopt_context, move_context,
  destroy_context, make_engine, adopt_engine, move_engine, destroy_engine, Objects, Take,
  throw_current, construct_engine, free, take_members, add_context, add_engine, context_from,
  assign_context, engine_from, assign_engine, step, run, assigns_other, no_self_assign,
}
use neo_io.Ssl.Ownership.Ledger.{
  Resource, address, as_context, owns, new_context, new_engine, as_context-null, as_ssl-null,
  as_bio-null, IsLedger,
}

both_true : (a b : Bool) → (a && b) ≡ true → (a ≡ true) × (b ≡ true)
both_true a b q = ground arith

module _ {W : Type 0} (c : ContextCalls W) (e : EngineCalls W) (take_ptr : Take) (g : Config)
    (freed : Resource → W → ℕ) (ledger : IsLedger c e freed) (r : Resource)
    (takes : (x : ℕ) → take_ptr x ≡ (x, 0)) (valid : address r ≢ 0) where
  -- Where a resource is: owned by a context or an engine, or freed.
  abbrev pub held : Objects W → ℕ
  held s = tally (as_context r) s.contexts + tally (owns r) s.engines + freed r s.system

  -- How often an operation acquires the resource from OpenSSL.
  abbrev pub acquired : Op → Objects W → ℕ
  acquired (make_context pr rl) s = new_context r (construct c g pr rl s.system)
  acquired (make_engine i) s =
      if ltb i (length s.contexts)
      then new_engine r (construct_engine c e take_ptr g (get_or s.contexts i 0) s.system)
      else 0
  acquired o s = 0

  abbrev pub acquired_all : List Op → Objects W → ℕ
  acquired_all [] s = 0
  acquired_all (o ∷ os) s = acquired o s + acquired_all os (step c e take_ptr g o s)

  pin-frees : (p : Pin) (x : ℕ) (w : W) → freed r (pin c p x w) ≡ freed r w
  unfolding pin
  pin-frees unpinned x w = refl
  pin-frees (exactly v) x w =
      ledger.max_version-frees r x v (c.set_min_proto_version x v w)
      ∙ ledger.min_version-frees r x v w
  pin-frees (at_least v) x w = ledger.min_version-frees r x v w
  pin-frees no_ssl x w = ledger.options-frees r x w

  execute-frees : (p : Plan) (rl : Role) (w : W) → freed r (execute c p rl w).1 ≡ freed r w
  unfolding execute
  execute-frees unsupported rl w = refl
  execute-frees (load pre p) rl w = ground (
    arith,
    ledger.ctx_new-frees r pre (suffix_of rl) w,
    ledger.error-frees r (c.ctx_new pre (suffix_of rl) w).1,
    pin-frees p (c.ctx_new pre (suffix_of rl) w).0 (c.ctx_new pre (suffix_of rl) w).1,
  )

  construct_engine-frees :
      (x : ℕ) (w : W) → freed r (construct_engine c e take_ptr g x w).1 ≡ freed r w
  unfolding construct_engine throw_current
  construct_engine-frees x w = grind (
    arith,
    ledger.ssl_new-frees r,
    ledger.mode-frees r,
    ledger.pair-frees r,
    ledger.set_bio-frees r,
    ledger.error-frees r,
  )

  free-counts :
      (this : Pointers) (w : W) → freed r (free c e take_ptr g this w) ≡ owns r this + freed r w
  unfolding free
  free-counts this w = ground (
    arith,
    ledger.bio_free-counts r this.bio w,
    ledger.ssl_free-counts r this.ssl w,
    ledger.ssl_free-counts r this.ssl (e.bio_free this.bio w),
    as_ssl-null r valid,
    as_bio-null r valid,
  )

  close-counts :
      (x : ℕ) (w : W)
      → (freed r (close c x w).1 ≡ as_context r x + freed r w) × ((close c x w).0 ≡ 0)
  unfolding close
  close-counts x w = ground (arith, ledger.ctx_free-counts r x w, as_context-null r valid)

  add_context-counts :
      (x : Outcome ℕ × W) (s : Objects W)
      → freed r x.1 ≡ freed r s.system
      → held (add_context c e take_ptr g x s) ≡ held s + new_context r x
  unfolding add_context
  add_context-counts (returned ptr, w) s kept = omega (arith, kept)
  add_context-counts (thrown err, w) s kept = omega (arith, kept)

  add_engine-counts :
      (x : Outcome Pointers × W) (s : Objects W)
      → freed r x.1 ≡ freed r s.system
      → held (add_engine c e take_ptr g x s) ≡ held s + new_engine r x
  unfolding add_engine
  add_engine-counts (returned this, w) s kept = omega (arith, kept)
  add_engine-counts (thrown err, w) s kept = omega (arith, kept)

  owns-null : owns r null_pointers ≡ 0
  owns-null = omega (arith, as_ssl-null r valid, as_bio-null r valid)

  assign_context-holds :
      (i j : ℕ) (s : Objects W)
      → i < length s.contexts
      → j < length s.contexts
      → held (assign_context c e take_ptr g i j s) ≡ held s
  unfolding assign_context
  assign_context-holds i j s hi hj = ground (
    arith,
    takes (get_or (set s.contexts i 0) j 0),
    close-counts (get_or s.contexts i 0) s.system,
    tally-empty_move (as_context r) s.contexts i j 0 (as_context-null r valid) hi hj,
  )

  take_members-moves : (x : Pointers) → (take_members take_ptr x) ≡ (x, null_pointers)
  unfolding take_members
  take_members-moves x = rw (takes x.ssl, takes x.bio) refl

  assign_engine-holds :
      (i j : ℕ) (s : Objects W)
      → i ≢ j
      → i < length s.engines
      → j < length s.engines
      → held (assign_engine c e take_ptr g i j s) ≡ held s
  unfolding assign_engine
  assign_engine-holds i j s ne hi hj = ground (
    arith,
    take_members-moves (get_or s.engines j null_pointers),
    free-counts (get_or s.engines i null_pointers) s.system,
    tally-move (owns r) s.engines i j null_pointers owns-null ne hi hj,
  )

  held-step :
      (o : Op) (s : Objects W)
      → assigns_other o ≡ true
      → held (step c e take_ptr g o s) ≡ held s + acquired o s
  unfolding step construct context_from engine_from
  held-step (make_context pr rl) s ok =
      add_context-counts (construct c g pr rl s.system) s (execute-frees (plan g pr) rl s.system)
  held-step (adopt_context i) s ok = ground (
    arith,
    takes (get_or s.contexts i 0),
    tally-set (as_context r) s.contexts i 0 0,
    as_context-null r valid,
  )
  held-step (move_context i j) s ok = ground (arith, assign_context-holds i j s)
  held-step (destroy_context i) s ok = ground (
    arith,
    close-counts (get_or s.contexts i 0) s.system,
    as_context-null r valid,
    tally-set (as_context r) s.contexts i (close c (get_or s.contexts i 0) s.system).0 0,
  )
  held-step (make_engine i) s ok = ground (
    arith,
    add_engine-counts (construct_engine c e take_ptr g (get_or s.contexts i 0) s.system) s,
    construct_engine-frees (get_or s.contexts i 0) s.system,
  )
  held-step (adopt_engine i) s ok = ground (
    arith,
    take_members-moves (get_or s.engines i null_pointers),
    tally-set (owns r) s.engines i null_pointers null_pointers,
    owns-null,
  )
  held-step (move_engine i j) s ok = ground (arith, assign_engine-holds i j s)
  held-step (destroy_engine i) s ok = ground (
    arith,
    free-counts (get_or s.engines i null_pointers) s.system,
    tally-set (owns r) s.engines i null_pointers null_pointers,
    owns-null,
  )

  -- Over any operations in which no engine is assigned to itself, a context, an SSL object or an
  -- outer BIO is owned by a context or an engine, or was freed, exactly as often as it was at the
  -- start and was acquired since: none is lost and none is freed twice. This needs that OpenSSL's calls free
  -- nothing but what the freeing calls are given, and that `neo::take` gives the pointer and leaves a null pointer.
  pub objects_held-run :
      (os : List Op) (s : Objects W)
      → no_self_assign os ≡ true
      → held (run c e take_ptr g os s) ≡ held s + acquired_all os s
  unfolding run
  objects_held-run [] s ok = omega arith
  objects_held-run (o ∷ os) s ok =
      let (this, rest) = both_true (assigns_other o) (no_self_assign os) ok in
      omega (arith, objects_held-run os (step c e take_ptr g o s) rest, held-step o s this)

  -- An engine that is assigned to itself and then destroyed frees its SSL object and its outer BIO
  -- twice each, if `neo::take` gives the pointer.
  pub assign_engine-frees_twice :
      (i : ℕ) (s : Objects W)
      → i < length s.engines
      → freed r (run c e take_ptr g (move_engine i i ∷ destroy_engine i ∷ []) s).system
        ≡ owns r (get_or s.engines i null_pointers)
          + (owns r (get_or s.engines i null_pointers) + freed r s.system)
  unfolding run step assign_engine
  assign_engine-frees_twice i s hi = ground (
    arith,
    take_members-moves (get_or s.engines i null_pointers),
    length-set s.engines i null_pointers,
    length-set (set s.engines i null_pointers) i (get_or s.engines i null_pointers),
    get_or-set (set s.engines i null_pointers) i (get_or s.engines i null_pointers) null_pointers,
    free-counts (get_or s.engines i null_pointers) s.system,
    free-counts (get_or s.engines i null_pointers)
        (free c e take_ptr g (get_or s.engines i null_pointers) s.system),
  )
