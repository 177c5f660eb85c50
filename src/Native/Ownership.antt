-- ===== src/Native/Ownership.antt =====
-- No handle of src/neo/io/stream/native.hpp is lost, and none is closed twice.
use neo_io.Prelude.{
  one_if, tally, tally-set, ℕ, ◌+◌, ◌<◌, ◌≡◌, ap, ◌≢◌, ltb, if◌then◌else◌, List, [], ◌∷◌, arith,
  length, get_or, set, length-set,
}
use neo_io.Native.{Base, close, Streams, Op, make, resets, moves, releases, closes, step, run}

-- How often a handle occurs.
abbrev pub count : ℕ → List ℕ → ℕ
count h = tally (one_if h)

count-set :
    (h : ℕ) (xs : List ℕ) (i v d : ℕ)
    → i < length xs
    → count h (set xs i v) + one_if h (get_or xs i d) ≡ count h xs + one_if h v
count-set h = tally-set (one_if h)

module _ {W : Type 0} (b : Base W) (closed : W → List ℕ)
    (logs : (h : ℕ) (w : W) → closed (b.sys_close h w) ≡ h ∷ closed w) (h : ℕ)
    (valid : h ≢ b.invalid) where
  -- Where a handle is: in a stream, back with the program, or closed.
  abbrev pub held : Streams W → ℕ
  held s = count h s.slots + count h s.released + count h (closed s.system)

  -- How often an operation takes the handle over from the program.
  abbrev pub adopted : Op → Streams W → ℕ
  adopted (resets i handle) s = if ltb i (length s.slots) then one_if h handle else 0
  adopted make s = 0
  adopted (moves i j) s = 0
  adopted (releases i) s = 0
  adopted (closes i) s = 0

  abbrev pub adopted_all : List Op → Streams W → ℕ
  adopted_all [] s = 0
  adopted_all (o ∷ os) s = adopted o s + adopted_all os (step b o s)

  -- Closing logs the handle, if it is one.
  count-close :
      (x : ℕ) (w : W)
      → (count h (closed (close b x w).1) ≡ one_if h x + count h (closed w))
        × (one_if h (close b x w).0 ≡ 0)
  unfolding close
  count-close x w = ground (arith, ap (count h) (logs x w))

  held-step : (o : Op) (s : Streams W) → held (step b o s) ≡ held s + adopted o s
  unfolding step
  held-step make s = ground arith
  held-step (resets i x) s =
      ground (
        arith,
        count-set h s.slots i x b.invalid,
        count-close (get_or s.slots i b.invalid) s.system,
      )
  held-step (moves i j) s = ground (
    arith,
    length-set s.slots j b.invalid,
    count-set h s.slots j b.invalid b.invalid,
    count-set h (set s.slots j b.invalid) i (get_or s.slots j b.invalid) b.invalid,
    count-close (get_or (set s.slots j b.invalid) i b.invalid) s.system,
  )
  held-step (releases i) s = ground (arith, count-set h s.slots i b.invalid b.invalid)
  held-step (closes i) s = ground (
    arith,
    count-set h s.slots i (close b (get_or s.slots i b.invalid) s.system).0 b.invalid,
    count-close (get_or s.slots i b.invalid) s.system,
  )

  -- Over any operations, self-moves included, a valid handle is in the streams, back with the program or
  -- closed exactly as often as it was at the start and was taken over since: none is lost and none
  -- is closed twice.
  pub held-run : (os : List Op) (s : Streams W) → held (run b os s) ≡ held s + adopted_all os s
  unfolding run
  held-run [] s = omega arith
  held-run (o ∷ os) s = omega (arith, held-run os (step b o s), held-step o s)
