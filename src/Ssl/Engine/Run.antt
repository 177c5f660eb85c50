-- ===== src/Ssl/Engine/Run.antt =====
-- The invariant rule for `engine_impl::run` of src/neo/io/openssl/engine.cpp.
use neo_io.Prelude.{
  ℕ, zero, suc, ◌<◌, ◌≡◌, refl, inl, inr, Bool, true, false, ◌||◌, some, arith, Bool-cases,
}
use neo_io.Transfer.{ErrorCode, no_error, is_error, Outcome}
use neo_io.Ssl.Engine.{
  OpenSsl, Ports, Errc, State, is_stop, one_step, flush_io, caught, after_flush, run_loop, run,
}

module _ {W L : Type 0} (o : OpenSsl W) (p : Ports W) (fn : L → W → ℕ × L × W) (inner : ℕ)
    (Inv : L → W → Type 0) (Post : ErrorCode → L → W → Type 0) (measure : W → ℕ) where
  -- A round from the state `w` after `one_step`: a failed step ends the loop, and otherwise the
  -- flush returns and either ends the loop or brings it forward.
  abbrev pub Rounds : W → State × ErrorCode × L × W → Type 0
  Rounds w (state, ec, l, w') =
      (is_error ec ≡ true → Post ec l w')
      × (is_error ec ≡ false
          → (r : Outcome Errc × W) × (flush_io o p inner w' ≡ some r)
            × ((is_stop o p fn state || is_error (caught o p r).0) ≡ true
                → Post (caught o p r).0 l (caught o p r).1)
            × ((is_stop o p fn state || is_error (caught o p r).0) ≡ false
                → Inv l (caught o p r).1 × (measure (caught o p r).1 < measure w)))

  run_loop-Returns :
      ((ec : ErrorCode) (l : L) (w : W)
        → is_error ec ≡ false
        → Inv l w
        → Rounds w (one_step o p fn ec l w))
      → (fuel : ℕ) (ec : ErrorCode) (l : L) (w : W) → measure w < fuel
      → is_error ec ≡ false
      → Inv l w
      → (out : ErrorCode × L × W) × (run_loop o p fn inner fuel ec l w ≡ some out)
        × Post out.0 out.1 out.2
  unfolding run_loop after_flush
  run_loop-Returns round zero ec l w h clean i = absurd (omega arith)
  run_loop-Returns round (suc fuel) ec l w h clean i = elim (Bool-cases (is_error next.1)) [
    | inl e ↦ ((next.1, next.2, next.3), rw e, facts.0 e)
    | inr ne ↦
        let (r, f, stops, goes) = facts.1 ne in
        elim (Bool-cases (is_stop o p fn next.0 || is_error (caught o p r).0)) [
          | inl e ↦ (((caught o p r).0, next.2, (caught o p r).1), rw (ne, f, e), stops e)
          | inr e ↦
              let (i', less) = goes e in
              let (out, q, post) =
                run_loop-Returns round fuel (caught o p r).0 next.2 (caught o p r).1
                  (omega (arith, less))
                  (right_false (is_stop o p fn next.0) (is_error (caught o p r).0) e) i' in
              (out, rw (ne, f, e) q, post)
        ]
  ]
    where
      next : State × ErrorCode × L × W
      next = one_step o p fn ec l w

      facts : Rounds w next
      facts = round ec l w clean i

      right_false : (a b : Bool) → (a || b) ≡ false → b ≡ false
      right_false a b k = ground arith

  -- With a measure below the fuel `run` returns, and ends well.
  pub run-Returns :
      ((ec : ErrorCode) (l : L) (w : W)
        → is_error ec ≡ false
        → Inv l w
        → Rounds w (one_step o p fn ec l w))
      → (fuel : ℕ) (l : L) (w : W) → measure w < fuel
      → Inv l w
      → (out : ErrorCode × L × W) × (run o p fn inner fuel l w ≡ some out) × Post out.0 out.1 out.2
  unfolding run
  run-Returns round fuel l w h i = run_loop-Returns round fuel no_error l w h refl i
