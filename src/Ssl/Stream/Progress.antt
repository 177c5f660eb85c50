-- ===== src/Ssl/Stream/Progress.antt =====
-- Why the rounds of an engine over the buffers of src/neo/io/openssl/stream.hpp come to an end.
use mathlib.Core.Option
use mathlib.Core.Path.{subst}
use native.Mathlib.Nat.{mul-le-mul_right, suc-mul}
use neo_io.Prelude.{
  ℕ, suc, ◌+◌, ◌*◌, ◌<◌, min, ◌≡◌, refl, sym, ap, ◌∙◌, ◌⊎◌, inl, inr, true, false, some, List, [],
  ◌∷◌, arith, length, take, length-take, length-drop, length-append, Bool-cases, to_int,
}
use neo_io.Transfer.{TransferResult, ErrorCode, is_error, Outcome, returned, thrown}
use neo_io.Buffers.{DynbufIo, Sink, ReadSome, IoBuffers, next}
use neo_io.Buffers.Laws.{IsDynbufIo}
use neo_io.Buffers.Input.{IsSource, next-Serves}
use neo_io.Ssl.Engine.{
  ok, positive, max_zero, Errc, one_step, input_round, flush_output, flush_input, flush_io, caught,
}
use neo_io.Ssl.Engine.OneShot.{positive→lt}
use neo_io.Ssl.Engine.Keeps.{Fine, flush_output-keeps}
use neo_io.Ssl.Stream.{
  TlsCalls, TlsStream, calls, ports, output, set_output, input, input_size, next_size,
  do_next_output, do_commit_output, do_next_input, do_consume_input,
}
use neo_io.Ssl.Stream.Input.{TakesInput}
use neo_io.Ssl.Stream.Duplex.{IsDuplex, commit-incoming}
use neo_io.Ssl.Stream.Proceeds.{
  Proceeds, HasErrors, ActsOnTls, ok-wants, commit-HasErrors, next-HasErrors,
}

module _ {R X B C P S : Type 0} ⦃t : TransferResult R⦄ {c : TlsCalls X} {d : DynbufIo B}
    {content staged : B → List ℕ} {sent incoming : S → List ℕ} {waiting fed : X → List ℕ}
    {sink : Sink R C P S} {inner_read : ReadSome R S} {owes : X → ℕ} {limit : ℕ} (write_fuel : ℕ)
    (errors : HasErrors t) (dl : IsDynbufIo d content staged) (il : IsSource incoming inner_read)
    (tl : TakesInput c fed) (du : IsDuplex c sink inner_read waiting fed sent incoming)
    (pl : Proceeds c owes limit) where
  -- How many bytes the peer's side still brings.
  abbrev pub to_come : TlsStream X B S → ℕ
  to_come w = length (content w.in_bufs) + length (incoming w.inner)

  -- What an output leaves alone.
  abbrev Still : TlsStream X B S → TlsStream X B S → Type 0
  Still w w' =
      (w'.in_bufs ≡ w.in_bufs)
      × (incoming w'.inner ≡ incoming w.inner)
      × (owes w'.tls ≡ owes w.tls)
      × (c.ssl_want_read w'.tls ≡ c.ssl_want_read w.tls)

  commit-Fine :
      (v : TlsStream X B S) (n : ℕ) (w : TlsStream X B S)
      (out : Outcome (Unit {0}) × TlsStream X B S)
      → do_commit_output d sink write_fuel n w ≡ some out
      → Still v w
      → Fine (Still v) (λ x. is_error x ≡ true) out
  unfolding do_commit_output
  commit-Fine v n w out e (b, i, o, q) =
      let (r, e', same) = (Option.map-eq-some_iff (λ r. (r.0, set_output w r.1)) _).0 e in
      subst (Fine (Still v) (λ x. is_error x ≡ true)) same (
        (b, commit-incoming d du write_fuel n (output w) r (incoming v.inner) e' i, o, q),
        λ y. commit-HasErrors errors d sink write_fuel n (output w) r y e',
      )

  pub flush_output-Fine :
      (fuel : ℕ) (w : TlsStream X B S) (out : Outcome (Unit {0}) × TlsStream X B S)
      → flush_output (calls c d) (ports d sink write_fuel inner_read) fuel w ≡ some out
      → Fine (Still w) (λ x. is_error x ≡ true) out
  unfolding do_next_output
  flush_output-Fine fuel w out e =
      flush_output-keeps (calls c d) (ports d sink write_fuel inner_read) (Still w)
        (λ x. is_error x ≡ true) (λ n v q. ((q.0, q.1, q.2, q.3), λ y f. absurd (cc f)))
        (λ n v q. (q.0, q.1, pl.owes-bio_read n v.tls ∙ q.2, pl.wants-bio_read n v.tls ∙ q.3))
        (commit-Fine w) fuel w out e (refl, refl, refl, refl)

  -- A pass of input that brings no error takes a byte or more, by what `next` did.
  answered-falls :
      (w : TlsStream X B S) (a : Outcome (List ℕ)) (x : IoBuffers B S)
      → c.ssl_want_read w.tls ≡ true
      → ((bytes : List ℕ) → a ≡ returned bytes → bytes ≡ take input_size (content x.io_bufs))
      → ((y : ErrorCode) → a ≡ thrown y → is_error y ≡ true)
      → let r = input_round (calls c d) (ports d sink write_fuel inner_read) (next_size w (a, x)) in
        is_error (caught (calls c d) (ports d sink write_fuel inner_read) r).0 ≡ false
        → to_come (caught (calls c d) (ports d sink write_fuel inner_read) r).1
          < length (content x.io_bufs) + length (incoming x.strm)
  unfolding input_round next_size do_consume_input
  answered-falls w (thrown y) x wants given bad clean = absurd (cc (bad y refl, clean))
  answered-falls w (returned []) x wants given bad clean = absurd (cc clean)
  answered-falls w (returned (y ∷ ys)) x wants given bad clean =
      let e : min input_size (suc (length ys)) ≡ suc (min 1023 (length ys)) = omega arith in
      rw e (falls (suc (min 1023 (length ys))) (omega arith, omega arith))
    where
      front : y ∷ ys ≡ take input_size (content x.io_bufs)
      front = given (y ∷ ys) refl

      some_content : 0 < length (content x.io_bufs)
      some_content = omega (arith, ap length front, length-take input_size (content x.io_bufs))

      -- A write of `n` bytes or fewer.
      falls :
          (n : ℕ)
          → (0 < n) × (n < 2048)
          → let k = (c.bio_write (take (to_int n) (d.next input_size x.io_bufs)) w.tls).0 in
            length (content (d.consume (max_zero k) x.io_bufs)) + length (incoming x.strm)
            < length (content x.io_bufs) + length (incoming x.strm)
      falls n (pos, small) =
          let shown = take (to_int n) (d.next input_size x.io_bufs) in
          let k = (c.bio_write shown w.tls).0 in
          let full : length (d.next input_size x.io_bufs) ≡ suc (length ys) =
            ap length (dl.next_lem input_size x.io_bufs ∙ sym front) in
          let h : positive k ≡ true =
            pl.accepts shown w.tls wants
              (omega (arith, length-take (to_int n) (d.next input_size x.io_bufs), full)) in
          rw h (
            omega (
              arith,
              positive→lt k h,
              some_content,
              ap length (dl.content-consume k x.io_bufs),
              length-drop k (content x.io_bufs),
            ))

  -- The same for the whole input half of a flush.
  flush_input-falls :
      (w : TlsStream X B S)
      → c.ssl_want_read w.tls ≡ true
      → let r = flush_input (calls c d) (ports d sink write_fuel inner_read) (returned tt, w) in
        is_error (caught (calls c d) (ports d sink write_fuel inner_read) r).0 ≡ false
        → to_come (caught (calls c d) (ports d sink write_fuel inner_read) r).1 < to_come w
  unfolding flush_input do_next_input
  flush_input-falls w wants clean =
      let s = next-Serves dl il input_size (input w) in
      let x = (next d inner_read input_size (input w)).1 in
      let less =
        answered-falls w (next d inner_read input_size (input w)).0 x wants s.given
          (next-HasErrors errors d inner_read input_size (input w)) (rw wants at clean) in
      rw wants (
        omega (
          arith,
          less,
          ap length s.kept,
          length-append (content x.io_bufs) (incoming x.strm),
          length-append (content w.in_bufs) (incoming w.inner),
        ))

  -- The measure of the rounds: the peer's bytes first, and then what the SSL object owes.
  abbrev pub rounds_left : TlsStream X B S → ℕ
  rounds_left w = to_come w * limit + owes w.tls

  -- Fewer of the peer's bytes, or as many and less owed.
  rounds_left-falls :
      (w w' : TlsStream X B S)
      → (to_come w' < to_come w) ⊎ ((to_come w' ≡ to_come w) × (owes w'.tls < owes w.tls))
      → rounds_left w' < rounds_left w
  rounds_left-falls w w' (inl less) =
      omega (arith, pl.owes-limit w'.tls, mul-le-mul_right limit less, suc-mul (to_come w') limit)
  rounds_left-falls w w' (inr (same, less)) = omega (arith, less, ap (λ n. n * limit) same)

  -- What the flush of a round does, by how its output ended.
  flushed-falls :
      (w : TlsStream X B S) (out : Outcome (Unit {0}) × TlsStream X B S)
      → Fine (Still w) (λ x. is_error x ≡ true) out
      → let r = flush_input (calls c d) (ports d sink write_fuel inner_read) out in
        is_error (caught (calls c d) (ports d sink write_fuel inner_read) r).0 ≡ false
        → let w' = (caught (calls c d) (ports d sink write_fuel inner_read) r).1 in
          (to_come w' < to_come w)
          ⊎ ((c.ssl_want_read w.tls ≡ false)
              × (to_come w' ≡ to_come w)
              × (owes w'.tls ≡ owes w.tls))
  unfolding flush_input
  flushed-falls w (thrown x, v) (still, bad) clean = absurd (cc (bad x refl, clean))
  flushed-falls w (returned u, v) ((b, i, o, q), bad) clean =
      elim (Bool-cases (c.ssl_want_read v.tls)) [
        | inl h ↦ inl (
            omega (arith, flush_input-falls v h clean, ap (λ z. length (content z)) b, ap length i))
        | inr h ↦ rw h (inr (sym q ∙ h, rw (b, i) refl, o))
      ]

  -- A round that goes on and ends without an error brings the measure down.
  pub round-falls :
      {L : Type 0} (fn : L → TlsStream X B S → ℕ × L × TlsStream X B S)
      → ActsOnTls c owes fn
      → (fuel : ℕ) (ec : ErrorCode) (l : L) (w : TlsStream X B S)
      → (r : Outcome Errc × TlsStream X B S)
      → (one_step (calls c d) (ports d sink write_fuel inner_read) fn ec l w).0 ≡ ok
      → flush_io
          (calls c d)
          (ports d sink write_fuel inner_read)
          fuel
          (one_step (calls c d) (ports d sink write_fuel inner_read) fn ec l w).3
        ≡ some r
      → is_error (caught (calls c d) (ports d sink write_fuel inner_read) r).0 ≡ false
      → rounds_left (caught (calls c d) (ports d sink write_fuel inner_read) r).1 < rounds_left w
  unfolding one_step flush_io
  round-falls {L} fn act fuel ec l w r goes flush clean =
      let (out, e, same) = (Option.map-eq-some_iff _ _).0 flush in
      subst
        (λ z.
          is_error (caught (calls c d) (ports d sink write_fuel inner_read) z).0 ≡ false
          → rounds_left (caught (calls c d) (ports d sink write_fuel inner_read) z).1
            < rounds_left w)
        same (falls out (flush_output-Fine fuel w₂ out e)) clean
    where
      w₀ : TlsStream X B S
      w₀ = record w { tls = c.err_clear_error w.tls }

      w₁ : TlsStream X B S
      w₁ = (fn l w₀).2

      w₂ : TlsStream X B S
      w₂ = record w₁ { tls = (c.err_get_error w₁.tls).1 }

      unmoved : to_come w₂ ≡ to_come w
      unmoved = rw (act.fn-in_bufs l w₀, act.fn-inner l w₀) refl

      falls :
          (out : Outcome (Unit {0}) × TlsStream X B S)
          → Fine (Still w₂) (λ x. is_error x ≡ true) out
          → let z = flush_input (calls c d) (ports d sink write_fuel inner_read) out in
            is_error (caught (calls c d) (ports d sink write_fuel inner_read) z).0 ≡ false
            → rounds_left (caught (calls c d) (ports d sink write_fuel inner_read) z).1
              < rounds_left w
      falls out fine clean =
          rounds_left-falls w
            (caught (calls c d) (ports d sink write_fuel inner_read)
              (flush_input (calls c d) (ports d sink write_fuel inner_read) out)).1
            (elim (flushed-falls w₂ out fine clean) [
              | inl less ↦ inl (omega (arith, less, unmoved))
              | inr (idle, level, owed) ↦
                  elim (ok-wants (calls {S = S} c d) (c.ssl_get_error (fn l w₀).0 w₁.tls) _ w₂ ec
                    goes) [
                      | inl reads ↦
                          let wants : c.ssl_want_read w₂.tls ≡ true =
                            pl.wants-error w₁.tls ∙ pl.want_read_lem (fn l w₀).0 w₁.tls reads in
                          absurd (cc (wants, idle))
                      | inr writes ↦ inr (
                        level ∙ unmoved,
                        omega (
                          arith,
                          owed,
                          pl.owes-error w₁.tls,
                          act.fn-owes l w₀ writes,
                          pl.owes-clear w.tls,
                        ),
                      )
                    ]
            ])
