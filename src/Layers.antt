-- ===== src/Layers.antt =====
-- src/neo/io/concepts/layered.hpp: streams over streams. The compiler picks an overload by the static
-- type of a stream, so that a stream is modelled with its type.
use neo_io.Prelude.{ℕ, ◌≡◌, refl, Bool, true, false}

-- A type that is not `layered`, or one whose `next_layer()` has another type.
pub data StreamType : Type 0 where
  plain : ℕ → StreamType
  layered_over : StreamType → StreamType

-- The concept `layered`.
abbrev pub is_layered : StreamType → Bool
is_layered (plain n) = false
is_layered (layered_over t) = true

-- A stream of a type: what it holds itself, and the stream that it is over.
pub data Object : StreamType → Type 0 where
  bottom : {n : ℕ} → ℕ → Object (plain n)
  over : {t : StreamType} → ℕ → Object t → Object (layered_over t)

-- `next_layer`.
pub next_layer : {t : StreamType} → Object (layered_over t) → Object t
next_layer (over x o) = o

-- `lowest_layer_t` and `lowest_layer`, by the two overloads.
pub lowest_layer_t : StreamType → StreamType
lowest_layer_t (plain n) = plain n
lowest_layer_t (layered_over t) = lowest_layer_t t

pub lowest_layer : {t : StreamType} → Object t → Object (lowest_layer_t t)
unfolding lowest_layer_t next_layer
lowest_layer {t = plain n} o = o
lowest_layer {t = layered_over t} o = lowest_layer (next_layer o)

-- A stream is reached from another by going to the next layer any number of times.
pub data Reaches {u : StreamType} (p : Object u) : (t : StreamType) → Object t → Type 0 where
  here : Reaches p u p
  below :
      (t : StreamType) (o : Object (layered_over t))
      → Reaches p t (next_layer o)
      → Reaches p (layered_over t) o

lowest_layer_t-plain : (t : StreamType) → is_layered (lowest_layer_t t) ≡ false
unfolding lowest_layer_t
lowest_layer_t-plain (plain n) = refl
lowest_layer_t-plain (layered_over t) = lowest_layer_t-plain t

lowest_layer-Reaches : (t : StreamType) (o : Object t) → Reaches (lowest_layer o) t o
unfolding lowest_layer lowest_layer_t
lowest_layer-Reaches (plain n) o = here
lowest_layer-Reaches (layered_over t) o = below t o (lowest_layer-Reaches t (next_layer o))

-- A stream with its type.
abbrev pub Typed : Type 0
Typed = (t : StreamType) × Object t

lowest_layer-same :
    {u : StreamType} (p : Object u) (t : StreamType) (o : Object t)
    → Reaches p t o
    → Path Typed (lowest_layer_t u, lowest_layer p) (lowest_layer_t t, lowest_layer o)
unfolding lowest_layer lowest_layer_t
lowest_layer-same p _ _ here = refl
lowest_layer-same p _ _ (below t o r) = lowest_layer-same p t (next_layer o) r

-- `lowest_layer` of a stream has a type that is not layered, and is reached from the stream by
-- `next_layer`. It is the only such stream: each that is reached and is not layered is it.
pub lowest_layer_lem :
    (t : StreamType) (o : Object t)
    → (is_layered (lowest_layer_t t) ≡ false)
      × Reaches (lowest_layer o) t o
      × ((n : ℕ) (p : Object (plain n))
          → Reaches p t o
          → Path Typed (plain n, p) (lowest_layer_t t, lowest_layer o))
unfolding lowest_layer lowest_layer_t
lowest_layer_lem t o =
    (lowest_layer_t-plain t, lowest_layer-Reaches t o, λ n p r. lowest_layer-same p t o r)
