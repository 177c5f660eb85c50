-- ===== src/Ssl/Stream/Emptying.antt =====
-- What a flush of a TLS stream of src/neo/io/openssl/stream.hpp leaves behind if it ends without an
-- error.
use mathlib.Core.Option
use mathlib.Core.Path.{subst}
use neo_io.Prelude.{
  ℕ, suc, min, ◌+◌, ◌<◌, ◌/◌, ◌≡◌, ◌++◌, ◌∙◌, ap, refl, false, true, some, inl, inr, List, [], ◌∷◌,
  arith, int_mod, length, length-append, eq-nil_of_length, Bool-cases,
}
use neo_io.Transfer.{
  TransferResult, IsTransferResult, ErrorCode, is_error, Outcome, returned, thrown,
}
use neo_io.IoOp.Laws.{Spans}
use neo_io.Buffers.{DynbufIo, Sink, ReadSome, IoBuffers}
use neo_io.Buffers.Laws.{IsDynbufIo}
use neo_io.Buffers.Output.{IsSink}
use neo_io.Buffers.Input.{IsSource}
use neo_io.Ssl.Engine.{Errc, flush_io, flush_input, input_round, caught}
use neo_io.Ssl.Stream.{
  TlsCalls, TlsStream, calls, ports, input, input_size, next_size, do_next_input,
}
use neo_io.Ssl.Stream.Output.{IsBio}
use neo_io.Ssl.Stream.Input.{TakesInput}
use neo_io.Ssl.Stream.Duplex.{IsDuplex, stream_flush_io-moves}
use neo_io.Ssl.Stream.Proceeds.{Proceeds, HasErrors, next-HasErrors}
use neo_io.Ssl.Stream.Progress.{flush_output-Fine}

-- What a result's error is, if it was thrown.
abbrev ThrowsErrors : {A W : Type 0} → Outcome A × W → Type 0
ThrowsErrors out = (y : ErrorCode) → out.0 ≡ thrown y → is_error y ≡ true

module _ {X B S : Type 0} (content : B → List ℕ) (sent : S → List ℕ) (waiting : X → List ℕ) where
  -- `w'` holds nothing for the inner stream, which has been given what waited at `w`.
  abbrev pub Emptied : TlsStream X B S → TlsStream X B S → Type 0
  Emptied w w' =
      (content w'.out_bufs ≡ [])
      × (waiting w'.tls ≡ [])
      × (sent w'.inner ≡ sent w.inner ++ waiting w.tls)

module _ {R X B C P S : Type 0} ⦃t : TransferResult R⦄ {v : Spans C P} {c : TlsCalls X}
    {d : DynbufIo B} {content staged : B → List ℕ} {sent incoming : S → List ℕ}
    {waiting fed : X → List ℕ} {sink : Sink R C P S} {inner_read : ReadSome R S}
    {cap write_fuel limit : ℕ} {owes : X → ℕ} (rl : IsTransferResult t) (errors : HasErrors t)
    (dl : IsDynbufIo d content staged) (sl : IsSink v sent sink) (il : IsSource incoming inner_read)
    (bl : IsBio c waiting cap) (tl : TakesInput c fed)
    (du : IsDuplex c sink inner_read waiting fed sent incoming) (pl : Proceeds c owes limit)
    (small : cap < int_mod / 2) (enough : cap < write_fuel) where
  -- By what `next` did.
  answered-ThrowsErrors :
      (w : TlsStream X B S) (a : Outcome (List ℕ)) (x : IoBuffers B S)
      → ((y : ErrorCode) → a ≡ thrown y → is_error y ≡ true)
      → ThrowsErrors
          (input_round (calls c d) (ports d sink write_fuel inner_read) (next_size w (a, x)))
  unfolding input_round next_size
  answered-ThrowsErrors w (thrown z) x bad y e = bad y (ap thrown_error e)
    where
      thrown_error : Outcome Errc → Outcome (List ℕ)
      thrown_error (thrown z) = thrown z
      thrown_error (returned e) = returned []
  answered-ThrowsErrors w (returned []) x bad y e = absurd (cc e)
  answered-ThrowsErrors w (returned (z ∷ zs)) x bad y e =
      let q : min input_size (suc (length zs)) ≡ suc (min 1023 (length zs)) = omega arith in
      absurd (cc (rw q at e))

  input-ThrowsErrors :
      (out : Outcome (Unit {0}) × TlsStream X B S)
      → ThrowsErrors out
      → ThrowsErrors (flush_input (calls c d) (ports d sink write_fuel inner_read) out)
  unfolding flush_input do_next_input
  input-ThrowsErrors (thrown z, w) bad y e = bad y (cc e)
  input-ThrowsErrors (returned u, w) bad y e = elim (Bool-cases (c.ssl_want_read w.tls)) [
    | inl h ↦
        answered-ThrowsErrors w _ _ (next-HasErrors errors d inner_read input_size (input w)) y
          (rw h at e)
    | inr h ↦ absurd (cc (rw h at e))
  ]

  flush_io-ThrowsErrors :
      (fuel : ℕ) (w : TlsStream X B S) (r : Outcome Errc × TlsStream X B S)
      → flush_io (calls c d) (ports d sink write_fuel inner_read) fuel w ≡ some r
      → ThrowsErrors r
  unfolding flush_io
  flush_io-ThrowsErrors fuel w r e =
      let (out, e', same) = (Option.map-eq-some_iff _ _).0 e in
      subst ThrowsErrors same (
        input-ThrowsErrors out (flush_output-Fine write_fuel errors dl il tl du pl fuel w out e').1)

  -- A flush of a clear output without an error sends all that waits.
  flushed-all :
      (fuel : ℕ) (w : TlsStream X B S) (r : Outcome Errc × TlsStream X B S)
      → cap < fuel
      → ((n : ℕ) (b : B) → 0 < n → 0 < length (staged (d.prepare n b)))
      → content w.out_bufs ≡ []
      → flush_io (calls c d) (ports d sink write_fuel inner_read) fuel w ≡ some r
      → (e : Errc) → r.0 ≡ returned e
      → Emptied content sent waiting w r.1
  flushed-all fuel w r full rooms clear f e good =
      let (out, w', f', kept, _, all, _) =
        stream_flush_io-moves rl dl sl il bl tl du small enough fuel w full clear rooms in
      let q : (out, w') ≡ r = cc (f, f') in
      let whole : sent w'.inner ≡ sent w.inner ++ waiting w.tls = all e (ap (λ z. z.0) q ∙ good) in
      let none_left : length (content w'.out_bufs) + length (waiting w'.tls) ≡ 0 = omega (
        arith,
        ap length kept,
        ap length whole,
        length-append (sent w'.inner) (content w'.out_bufs ++ waiting w'.tls),
        length-append (content w'.out_bufs) (waiting w'.tls),
        length-append (sent w.inner) (waiting w.tls),
      ) in
      subst (λ z. Emptied content sent waiting w z.1) q
        (
          eq-nil_of_length (content w'.out_bufs) (omega (arith, none_left)),
          eq-nil_of_length (waiting w'.tls) (omega (arith, none_left)),
          whole,
        )

  -- The same, by how the flush ended.
  pub flushed-clean :
      (fuel : ℕ) (w : TlsStream X B S) (r : Outcome Errc × TlsStream X B S)
      → cap < fuel
      → ((n : ℕ) (b : B) → 0 < n → 0 < length (staged (d.prepare n b)))
      → content w.out_bufs ≡ []
      → flush_io (calls c d) (ports d sink write_fuel inner_read) fuel w ≡ some r
      → is_error (caught (calls c d) (ports d sink write_fuel inner_read) r).0 ≡ false
      → Emptied content sent waiting w (caught (calls c d) (ports d sink write_fuel inner_read) r).1
  flushed-clean fuel w (thrown y, w') full rooms clear f clean =
      absurd (cc (flush_io-ThrowsErrors fuel w (thrown y, w') f y refl, clean))
  flushed-clean fuel w (returned e, w') full rooms clear f clean =
      flushed-all fuel w (returned e, w') full rooms clear f e refl
