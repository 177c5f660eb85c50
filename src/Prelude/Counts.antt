-- ===== src/Prelude/Counts.antt =====
-- Sums over a list of slots, for arguments that count owners.
use Prim.Native.Nat.{ℕ, zero, suc, ◌+◌, ◌<◌}
use mathlib.Core.Logic.{◌≢◌}
use mathlib.Core.Path.{◌≡◌, refl, ap}
use mathlib.Core.List.{List, [], ◌∷◌}
use native.Mathlib.Omega.{arith}
use neo_io.Prelude.Tests.{◌==◌, if◌then◌else◌}
use neo_io.Prelude.Lists.{length, get_or, set, length-set}

abbrev pub one_if : ℕ → ℕ → ℕ
one_if h x = if x == h then 1 else 0

abbrev pub tally {ℓ} : {A : Type ℓ} → (A → ℕ) → List A → ℕ
tally f [] = 0
tally f (x ∷ xs) = f x + tally f xs

pub tally-set {ℓ} :
    {A : Type ℓ} (f : A → ℕ) (xs : List A) (i : ℕ) (v d : A)
    → i < length xs
    → tally f (set xs i v) + f (get_or xs i d) ≡ tally f xs + f v
tally-set f [] i v d lt = absurd (omega arith)
tally-set f (x ∷ xs) zero v d lt = omega arith
tally-set f (x ∷ xs) (suc i) v d lt = omega (arith, tally-set f xs i v d (omega arith))

pub get_or-set {ℓ} :
    {A : Type ℓ} (xs : List A) (i : ℕ) (v d : A) → i < length xs → get_or (set xs i v) i d ≡ v
get_or-set [] i v d lt = absurd (omega arith)
get_or-set (x ∷ xs) zero v d lt = refl
get_or-set (x ∷ xs) (suc i) v d lt = get_or-set xs i v d (omega arith)

pub get_or-set_other {ℓ} :
    {A : Type ℓ} (xs : List A) (i j : ℕ) (v d : A) → i ≢ j → get_or (set xs j v) i d ≡ get_or xs i d
get_or-set_other [] i j v d ne = refl
get_or-set_other (x ∷ xs) zero zero v d ne = absurd (omega arith)
get_or-set_other (x ∷ xs) zero (suc j) v d ne = refl
get_or-set_other (x ∷ xs) (suc i) zero v d ne = refl
get_or-set_other (x ∷ xs) (suc i) (suc j) v d ne =
    get_or-set_other xs i j v d (λ q. ne (omega arith))

-- An empty slot is empty still when another, or the same, is emptied.
pub get_or-empties {ℓ} :
    {A : Type ℓ} (xs : List A) (i j : ℕ) (d : A) → get_or xs i d ≡ d → get_or (set xs j d) i d ≡ d
get_or-empties [] i j d q = refl
get_or-empties (x ∷ xs) zero zero d q = refl
get_or-empties (x ∷ xs) zero (suc j) d q = q
get_or-empties (x ∷ xs) (suc i) zero d q = q
get_or-empties (x ∷ xs) (suc i) (suc j) d q = get_or-empties xs i j d q

-- Moving one slot onto another drops what that one held, if a null slot counts nothing.
pub tally-move {ℓ} :
    {A : Type ℓ} (f : A → ℕ) (xs : List A) (i j : ℕ) (d : A)
    → f d ≡ 0
    → i ≢ j
    → i < length xs
    → j < length xs
    → tally f (set (set xs j d) i (get_or xs j d)) + f (get_or xs i d) ≡ tally f xs
tally-move f xs i j d null ne hi hj = ground (
  arith,
  length-set xs j d,
  tally-set f xs j d d hj,
  tally-set f (set xs j d) i (get_or xs j d) d,
  ap f (get_or-set_other xs i j d d ne),
)

-- The same where the slot is emptied before the other is read, for one slot twice too.
pub tally-empty_move {ℓ} :
    {A : Type ℓ} (f : A → ℕ) (xs : List A) (i j : ℕ) (d : A)
    → f d ≡ 0
    → i < length xs
    → j < length xs
    → tally f (set (set (set xs i d) j d) i (get_or (set xs i d) j d)) + f (get_or xs i d)
      ≡ tally f xs
tally-empty_move f xs i j d null hi hj = ground (
  arith,
  length-set xs i d,
  length-set (set xs i d) j d,
  tally-set f xs i d d hi,
  tally-set f (set xs i d) j d d,
  tally-set f (set (set xs i d) j d) i (get_or (set xs i d) j d) d,
  ap f (get_or-empties (set xs i d) i j d (get_or-set xs i d d hi)),
)
