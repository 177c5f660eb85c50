-- ===== src/Ssl/Ownership.antt =====
-- src/neo/io/openssl/engine.hpp, engine.cpp, context.hpp and error.cpp: how engines and contexts are
-- made, moved and destroyed, and what they free. OpenSSL's calls and `neo::take` are parameters; a
-- pointer is a number, 0 for a null pointer.
pub mod Ledger
pub mod Held
use neo_io.Prelude.{
  ℕ, Bool, true, not, ◌&&◌, ◌==◌, ltb, if◌then◌else◌, List, [], ◌∷◌, length, get_or, set, to_int,
}
use neo_io.Transfer.{ErrorCode, ssl_category, Outcome, returned, thrown}
use neo_io.Ssl.Context.{Config, Protocol, Role, ContextCalls, construct, close}

-- The modes that the constructor sets.
pub data Mode : Type 0 where
  enable_partial_write accept_moving_write_buffer : Mode

-- The members of `engine_base`.
pub record Pointers : Type 0 where
  pub ssl : ℕ
  pub bio : ℕ

-- The members as their initialisers leave them.
abbrev pub null_pointers : Pointers
null_pointers = record { ssl = 0; bio = 0 }

-- The calls on engines; `bio_new_bio_pair` gives the inner BIO and the outer one.
pub record EngineCalls (W : Type 0) : Type 0 where
  pub ssl_new : ℕ → W → ℕ × W
  pub set_mode : ℕ → Mode → W → W
  pub bio_new_bio_pair : W → (ℕ × ℕ) × W
  pub set_bio : ℕ → ℕ → ℕ → W → W
  pub bio_free : ℕ → W → W
  pub ssl_free : ℕ → W → W

-- What a program does with contexts and engines, which it names by their places: an engine is made
-- with a context, or by moving from another engine.
pub data Op : Type 0 where
  make_context : Protocol → Role → Op
  adopt_context : ℕ → Op
  move_context : ℕ → ℕ → Op
  destroy_context : ℕ → Op
  make_engine : ℕ → Op
  adopt_engine : ℕ → Op
  move_engine : ℕ → ℕ → Op
  destroy_engine : ℕ → Op

-- The objects, the newest first. One that was destroyed keeps its place, with null pointers.
pub record Objects (W : Type 0) : Type 0 where
  pub contexts : List ℕ
  pub engines : List Pointers
  pub system : W

-- `neo::take` of a pointer: what it gives, and what it leaves in its place.
abbrev pub Take : Type 0
Take = ℕ → ℕ × ℕ

-- Both members taken from another engine: this engine, and the other.
unfoldable pub take_members : Take → Pointers → Pointers × Pointers
take_members take_ptr other =
    let (ssl, ssl_left) = take_ptr other.ssl in
    let (bio, bio_left) = take_ptr other.bio in
    (record { ssl = ssl; bio = bio }, record { ssl = ssl_left; bio = bio_left })

module _ {W : Type 0} (c : ContextCalls W) (e : EngineCalls W) (take_ptr : Take) (g : Config) where
  -- `throw_current`: what it throws.
  unfoldable pub throw_current : {A : Type 0} → W → Outcome A × W
  throw_current w =
      let (code, w₁) = c.err_get_error w in
      (thrown (record { value = to_int code; category = ssl_category }), w₁)

  -- `engine_base(context&)`, on the pointer of the context.
  unfoldable pub construct_engine : ℕ → W → Outcome Pointers × W
  unfolding throw_current
  construct_engine ctx w =
      let (ssl, w₁) = e.ssl_new ctx w in
      let w₂ = e.set_mode ssl enable_partial_write w₁ in
      let w₃ = e.set_mode ssl accept_moving_write_buffer w₂ in
      let ((inner, outer), w₄) = e.bio_new_bio_pair w₃ in
      if ssl == 0
      then throw_current w₁
      else (returned (record { ssl = ssl; bio = outer }), e.set_bio ssl inner inner w₄)

  -- `_free()`.
  unfoldable pub free : Pointers → W → W
  free this w =
      let w₁ = if this.bio == 0 then w else e.bio_free this.bio w in
      if this.ssl == 0 then w₁ else e.ssl_free this.ssl w₁

  -- A context or an engine was constructed, or its constructor threw.
  unfoldable pub add_context : Outcome ℕ × W → Objects W → Objects W
  add_context (returned ptr, w) s = record s { contexts = ptr ∷ s.contexts; system = w }
  add_context (thrown err, w) s = record s { system = w }

  unfoldable pub add_engine : Outcome Pointers × W → Objects W → Objects W
  add_engine (returned this, w) s = record s { engines = this ∷ s.engines; system = w }
  add_engine (thrown err, w) s = record s { system = w }

  -- `context(context&&)`.
  unfoldable pub context_from : ℕ → Objects W → Objects W
  context_from i s =
      let (this, other) = take_ptr (get_or s.contexts i 0) in
      record s { contexts = this ∷ set s.contexts i other }

  -- The move assignment of a context, also onto itself: close, then take.
  unfoldable pub assign_context : ℕ → ℕ → Objects W → Objects W
  assign_context i j s =
      let (closed, w) = close c (get_or s.contexts i 0) s.system in
      let after_close = set s.contexts i closed in
      let (this, other) = take_ptr (get_or after_close j 0) in
      record s { contexts = set (set after_close j other) i this; system = w }

  -- `engine_base(engine_base&&)`.
  unfoldable pub engine_from : ℕ → Objects W → Objects W
  unfolding take_members
  engine_from i s =
      let (this, other) = take_members take_ptr (get_or s.engines i null_pointers) in
      record s { engines = this ∷ set s.engines i other }

  -- The move assignment of an engine, also onto itself: `_free` leaves the members as they are.
  unfoldable pub assign_engine : ℕ → ℕ → Objects W → Objects W
  unfolding take_members
  assign_engine i j s =
      let w = free (get_or s.engines i null_pointers) s.system in
      let (this, other) = take_members take_ptr (get_or s.engines j null_pointers) in
      record s { engines = set (set s.engines j other) i this; system = w }

  -- One operation; one on an object that does not exist is none.
  unfoldable pub step : Op → Objects W → Objects W
  unfolding add_context add_engine context_from assign_context engine_from assign_engine
  step (make_context pr rl) s = add_context (construct c g pr rl s.system) s
  step (adopt_context i) s = if ltb i (length s.contexts) then context_from i s else s
  step (move_context i j) s =
      if ltb i (length s.contexts)
      then (if ltb j (length s.contexts) then assign_context i j s else s)
      else s
  step (destroy_context i) s =
      if ltb i (length s.contexts)
      then (let (closed, w) = close c (get_or s.contexts i 0) s.system in
          record s { contexts = set s.contexts i closed; system = w })
      else s
  step (make_engine i) s =
      if ltb i (length s.contexts)
      then add_engine (construct_engine (get_or s.contexts i 0) s.system) s
      else s
  step (adopt_engine i) s = if ltb i (length s.engines) then engine_from i s else s
  step (move_engine i j) s =
      if ltb i (length s.engines)
      then (if ltb j (length s.engines) then assign_engine i j s else s)
      else s
  step (destroy_engine i) s =
      if ltb i (length s.engines)
      then record s {
        engines = set s.engines i null_pointers;
        system = free (get_or s.engines i null_pointers) s.system;
      }
      else s

  unfoldable pub run : List Op → Objects W → Objects W
  run [] s = s
  run (o ∷ os) s = run os (step o s)

-- Not an assignment of an engine to itself.
abbrev pub assigns_other : Op → Bool
assigns_other (move_engine i j) = not (i == j)
assigns_other (make_context pr rl) = true
assigns_other (adopt_context i) = true
assigns_other (move_context i j) = true
assigns_other (destroy_context i) = true
assigns_other (make_engine i) = true
assigns_other (adopt_engine i) = true
assigns_other (destroy_engine i) = true

abbrev pub no_self_assign : List Op → Bool
no_self_assign [] = true
no_self_assign (o ∷ os) = assigns_other o && no_self_assign os
