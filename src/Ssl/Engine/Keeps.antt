-- ===== src/Ssl/Engine/Keeps.antt =====
-- What every part of the output loop of `flush_io` in src/neo/io/openssl/engine.cpp keeps up, the loop
-- keeps up.
use mathlib.Core.Option
use mathlib.Core.Path.{subst}
use neo_io.Prelude.{pick, refl, ap, ℕ, zero, suc, ◌≡◌, Bool, true, false, Option, none, some, ◌==◌}
use neo_io.Transfer.{ErrorCode, Outcome, returned, thrown}
use neo_io.Ssl.Engine.{OpenSsl, Ports, committed, output_round, after_round, flush_output}

-- A state with the property `Q`, after a call that may have thrown an error with the property `E`.
abbrev pub Fine : {W A : Type 0} → (W → Type 0) → (ErrorCode → Type 0) → Outcome A × W → Type 0
Fine Q E out = Q out.1 × ((x : ErrorCode) → out.0 ≡ thrown x → E x)

module _ {W : Type 0} (o : OpenSsl W) (p : Ports W) (Q : W → Type 0) (E : ErrorCode → Type 0)
    (next-keeps : (n : ℕ) (w : W) → Q w → Fine Q E (p.do_next_output n w))
    (read-keeps : (n : ℕ) (w : W) → Q w → Q (o.bio_read n w).1)
    (commit-keeps : (n : ℕ) (w : W) (out : Outcome (Unit {0}) × W)
      → p.do_commit_output n w ≡ some out
      → Q w
      → Fine Q E out) where
  committed-keeps :
      (r : Option (Outcome (Unit {0}) × W)) (more : Bool) (end : Outcome (Unit {0})) (w' : W)
      → committed o p r ≡ some (more, end, w')
      → ((out : Outcome (Unit {0}) × W) → r ≡ some out → Fine Q E out)
      → Fine Q E (end, w')
  unfolding committed
  committed-keeps none more end w' e q = absurd (cc e)
  committed-keeps (some (thrown x, w)) more end w' e q =
      subst (Fine Q E) (ap (λ z. (z.1, z.2)) (Option.some_inj.0 e)) (q (thrown x, w) refl)
  committed-keeps (some (returned u, w)) more end w' e q =
      subst (Fine Q E) (ap (λ z. (z.1, z.2)) (Option.some_inj.0 e)) (q (returned u, w) refl)

  output_round-keeps :
      (a : Outcome ℕ × W) (more : Bool) (end : Outcome (Unit {0})) (w' : W)
      → output_round o p a ≡ some (more, end, w')
      → Fine Q E a
      → Fine Q E (end, w')
  unfolding output_round
  output_round-keeps (thrown x, w) more end w' e q =
      subst (Fine Q E) (ap (λ z. (z.1, z.2)) (Option.some_inj.0 e))
        (q.0, λ y f. let s : x ≡ y = cc f in subst E s (q.1 x refl))
  output_round-keeps (returned zero, w) more end w' e q =
      subst (Fine Q E) (ap (λ z. (z.1, z.2)) (Option.some_inj.0 e)) (q.0, λ y f. absurd (cc f))
  output_round-keeps (returned (suc n), w) more end w' e q =
      committed-keeps _ more end w' e (λ out f. commit-keeps _ _ out f (read-keeps _ w q.0))

  after_round-keeps :
      (r : Option (Bool × Outcome (Unit {0}) × W)) (rest : W → Option (Outcome (Unit {0}) × W))
      (out : Outcome (Unit {0}) × W)
      → after_round o p r rest ≡ some out
      → ((more : Bool) (end : Outcome (Unit {0})) (w : W)
          → r ≡ some (more, end, w)
          → Fine Q E (end, w))
      → ((w : W) → rest w ≡ some out → Q w → Fine Q E out)
      → Fine Q E out
  unfolding after_round
  after_round-keeps none rest out e here there = absurd (cc e)
  after_round-keeps (some (true, end, w)) rest out e here there = there w e (here true end w refl).0
  after_round-keeps (some (false, end, w)) rest out e here there =
      subst (Fine Q E) (Option.some_inj.0 e) (here false end w refl)

  -- However the loop ends, by an exception too.
  pub flush_output-keeps :
      (fuel : ℕ) (w : W) (out : Outcome (Unit {0}) × W)
      → flush_output o p fuel w ≡ some out
      → Q w
      → Fine Q E out
  unfolding flush_output
  flush_output-keeps zero w out e q = absurd (cc e)
  flush_output-keeps (suc fuel) w out e q =
      pick (Fine Q E) (o.bio_ctrl_pending w == 0) (returned tt, w) _ out e (q, λ y f. absurd (cc f))
        (λ e₁.
          after_round-keeps _ _ out e₁
            (λ more end w' f. output_round-keeps _ more end w' f (next-keeps _ w q))
            (λ w' f q'. flush_output-keeps fuel w' out f q'))
