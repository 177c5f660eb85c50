-- ===== src/Prelude/Options.antt =====
-- Reasoning from a result that is there.
use mathlib.Core.Option.{Option, some, some_inj}
use mathlib.Core.Path.{◌≡◌, subst}
use mathlib.Core.Bool.{Bool, true, false}
use neo_io.Prelude.Tests.{if◌then◌else◌}

-- What the first of two results has and the second passes on, the result that a test picks has.
pub pick :
    {A : Type 0} (Q : A → Type 0) (b : Bool) (x : A) (y : Option A) (out : A)
    → (if b then some x else y) ≡ some out
    → Q x
    → (y ≡ some out → Q out)
    → Q out
pick Q true x y out e q rest = subst Q (some_inj.0 e) q
pick Q false x y out e q rest = rest e
