-- ===== src/Ssl/Engine/Flush.antt =====
-- `engine_impl::flush_io` of src/neo/io/openssl/engine.cpp: what the engine has for the peer goes to
-- the output, in order.
use mathlib.Core.Path.{subst}
use neo_io.Prelude.{
  ℕ, zero, suc, ◌≤◌, ◌<◌, ◌/◌, ◌≡◌, refl, sym, ap, ◌∙◌, ◌⊎◌, inl, inr, Bool, true, false, ◌==◌,
  Option, some, List, [], ◌++◌, ==_iff, eq-nil_of_length, append_assoc, take-append-drop, arith,
  Bool-cases, length, take, drop, length-drop, to_int, int_mod,
}
use neo_io.Transfer.{Outcome, returned, thrown}
use neo_io.Ssl.Engine.{
  OpenSsl, Ports, positive, max_zero, committed, output_round, after_round, flush_output,
}
use neo_io.Ssl.Engine.OneShot.{positive→lt}

-- What a commit of the bytes just read does.
pub record Commits {W : Type 0} (o : OpenSsl W) (waiting sent : W → List ℕ) (Quiet : W → Type 0)
    (n : ℕ) (w : W) (out : Outcome (Unit {0}) × W) : Type 0 where
  pub kept-waiting : waiting out.1 ≡ waiting (o.bio_read n w).1
  pub grown-sent : sent out.1 ≡ sent w ++ take (o.bio_read n w).0 (waiting w)
  pub still-Quiet : out.0 ≡ returned tt → Quiet w → Quiet out.1

-- The documented behaviour of the BIO pair and of the output. `waiting w` are the bytes that the
-- pair holds for the peer, `sent w` those that the output was given, `room w` the size of the region
-- that it prepared last. A read of a pair that holds bytes takes some of them; the output offers no
-- more room than it is asked for, and a commit returns and adds to it the bytes just read. `Quiet`
-- is what else the output keeps up as long as it does not throw.
pub record IsOutput {W : Type 0} (o : OpenSsl W) (p : Ports W) (waiting sent : W → List ℕ)
    (room : W → ℕ) (Quiet : W → Type 0) : Type 0 where
  pub pending_lem : (w : W) → o.bio_ctrl_pending w ≡ length (waiting w)
  pub pair-small : (w : W) → length (waiting w) < int_mod / 2
  pub next-waiting : (n : ℕ) (w : W) → waiting (p.do_next_output n w).1 ≡ waiting w
  pub next-sent : (n : ℕ) (w : W) → sent (p.do_next_output n w).1 ≡ sent w
  pub next-Quiet : (n : ℕ) (w : W) → Quiet w → Quiet (p.do_next_output n w).1
  pub next-le :
      (n k : ℕ) (w v : W) → p.do_next_output n w ≡ (returned k, v) → (k ≤ n) × (k ≤ room v)
  pub read-positive :
      (n : ℕ) (w : W)
      → 0 < n
      → n < int_mod / 2
      → 0 < length (waiting w)
      → positive (o.bio_read n w).0 ≡ true
  pub read-waiting :
      (n : ℕ) (w : W)
      → positive (o.bio_read n w).0 ≡ true
      → waiting (o.bio_read n w).1 ≡ drop (o.bio_read n w).0 (waiting w)
  pub commit-Commits :
      (n : ℕ) (w : W)
      → n ≤ room w
      → positive (o.bio_read n w).0 ≡ true
      → (out : Outcome (Unit {0}) × W) × (p.do_commit_output (o.bio_read n w).0 (o.bio_read n w).1
          ≡ some out)
        × Commits o waiting sent Quiet n w out

max_zero-positive : (n : ℕ) → positive n ≡ true → max_zero n ≡ n
max_zero-positive n h = rw h

-- Nothing is lost, doubled or reordered between two states.
abbrev pub Kept : {W : Type 0} → (W → List ℕ) → (W → List ℕ) → W → W → Type 0
Kept waiting sent w w' = sent w' ++ waiting w' ≡ sent w ++ waiting w

-- The output had no room for what was pending.
abbrev pub NoRoom : {W : Type 0} → OpenSsl W → Ports W → W → Type 0
NoRoom {W} o p w' = (v : W) × (p.do_next_output (o.bio_ctrl_pending v) v ≡ (returned 0, w'))

module _ {W : Type 0} {o : OpenSsl W} {p : Ports W} {waiting sent : W → List ℕ} {room : W → ℕ}
    {Quiet : W → Type 0} (ol : IsOutput o p waiting sent room Quiet) where
  abbrev Ends : W → Bool × Outcome (Unit {0}) × W → Type 0
  Ends w (more, out, w') =
      Kept waiting sent w w'
      × (more ≡ true → (length (waiting w') < length (waiting w)) × (Quiet w → Quiet w'))
      × (more ≡ false → out ≡ returned tt → NoRoom o p w' × (Quiet w → Quiet w'))

  abbrev RoundOk : W → Option (Bool × Outcome (Unit {0}) × W) → Type 0
  RoundOk w round = (next : Bool × Outcome (Unit {0}) × W) × (round ≡ some next) × Ends w next

  -- A round that has read `n` of the bytes waiting at `v`, which the output then was given.
  read_ok :
      (w v : W) (n : ℕ)
      → waiting v ≡ waiting w
      → sent v ≡ sent w
      → (Quiet w → Quiet v)
      → positive (o.bio_read n v).0 ≡ true
      → 0 < length (waiting w)
      → (c : Outcome (Unit {0}) × W) → Commits o waiting sent Quiet n v c
      → RoundOk w (committed o p (some c))
  unfolding committed
  read_ok w v n e s quiet h some_left (out, u) c = ended out refl
    where
      k : ℕ
      k = (o.bio_read n v).0

      rest : waiting u ≡ drop k (waiting w)
      rest = c.kept-waiting ∙ ol.read-waiting n v h ∙ ap (drop k) e

      kept : sent u ++ waiting u ≡ sent w ++ waiting w
      kept = rw (c.grown-sent, rest, s, e, append_assoc, take-append-drop)

      less : length (waiting u) < length (waiting w)
      less = omega (arith, ap length rest, length-drop k (waiting w), some_left, positive→lt k h)

      ended : (x : Outcome (Unit {0})) → x ≡ out → RoundOk w (committed o p (some (x, u)))
      ended (thrown y) q =
          ((false, thrown y, u), refl, (kept, λ k. absurd (cc k), λ _ k. absurd (cc k)))
      ended (returned y) q = (
        (true, returned tt, u),
        refl,
        (kept, λ _. (less, λ z. c.still-Quiet (sym q) (quiet z)), λ k. absurd (cc k)),
      )

  -- A round, given what `do_next_output` did.
  round_ok :
      (w : W)
      → 0 < length (waiting w)
      → (x : Outcome ℕ × W) → p.do_next_output (o.bio_ctrl_pending w) w ≡ x
      → RoundOk w (output_round o p x)
  unfolding output_round
  round_ok w some_left (x, v) e = by_answer x e
    where
      waits : waiting v ≡ waiting w
      waits = ap (λ x. waiting x.1) (sym e) ∙ ol.next-waiting _ w

      sends : sent v ≡ sent w
      sends = ap (λ x. sent x.1) (sym e) ∙ ol.next-sent _ w

      quiet : Quiet w → Quiet v
      quiet q = subst (λ x. Quiet x.1) e (ol.next-Quiet _ w q)

      same : sent v ++ waiting v ≡ sent w ++ waiting w
      same = rw (sends, waits)

      by_answer :
          (x : Outcome ℕ)
          → p.do_next_output (o.bio_ctrl_pending w) w ≡ (x, v)
          → RoundOk w (output_round o p (x, v))
      by_answer (thrown y) e =
          ((false, thrown y, v), refl, (same, λ k. absurd (cc k), λ _ k. absurd (cc k)))
      by_answer (returned zero) e =
          ((false, returned tt, v), refl, (same, λ k. absurd (cc k), λ _ _. ((w, e), quiet)))
      by_answer (returned (suc n)) e =
          let (le, fits) = ol.next-le _ (suc n) w v e in
          let int : to_int (suc n) ≡ suc n = omega (arith, le, ol.pending_lem w, ol.pair-small w) in
          let h : positive (o.bio_read (to_int (suc n)) v).0 ≡ true =
            ol.read-positive (to_int (suc n)) v (omega (arith, int))
              (omega (arith, int, le, ol.pending_lem w, ol.pair-small w))
              (omega (arith, ap length waits)) in
          let (c, q, does) = ol.commit-Commits (to_int (suc n)) v (omega (arith, int, fits)) h in
          rw (max_zero-positive _ h, q)
            (read_ok w v (to_int (suc n)) waits sends quiet h some_left c does)

  -- With more fuel than bytes that wait, and a BIO pair and an output that behave as documented,
  -- the flush returns, and nothing that waited for the peer is lost, doubled or reordered, also if
  -- the output threw. If it did not, all that waited is sent or the output had no room, and what
  -- else the output keeps up still holds.
  pub flush_output-drains :
      (fuel : ℕ) (w : W)
      → length (waiting w) < fuel
      → (out : Outcome (Unit {0})) × (w' : W) × (flush_output o p fuel w ≡ some (out, w'))
        × Kept waiting sent w w'
        × (out ≡ returned tt → ((waiting w' ≡ []) ⊎ NoRoom o p w') × (Quiet w → Quiet w'))
  unfolding flush_output after_round
  flush_output-drains zero w h = absurd (omega arith)
  flush_output-drains (suc fuel) w h = elim (Bool-cases (o.bio_ctrl_pending w == 0)) [
    | inl z ↦ (
      returned tt,
      w,
      rw z,
      refl,
      λ _. (
        inl (eq-nil_of_length (waiting w) (omega (arith, ol.pending_lem w, (==_iff _ _).0 z))),
        λ q. q,
      ),
    )
    | inr nz ↦
        let (next, e, (kept, goes, stops)) = round_ok w (ground (arith, ol.pending_lem w)) _ refl in
        elim (Bool-cases next.0) [
          | inl more ↦
              let (less, quiet) = goes more in
              let (out, w', f, kept', q) = flush_output-drains fuel next.2 (omega (arith, less)) in
              (out, w', rw (nz, e, more) f, kept' ∙ kept, λ k. ((q k).0, λ z. (q k).1 (quiet z)))
          | inr done ↦ (
            next.1,
            next.2,
            rw (nz, e, done),
            kept,
            λ k. (inr (stops done k).0, (stops done k).1),
          )
        ]
  ]
