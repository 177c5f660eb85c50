-- ===== src/Ssl/Stream/Input.antt =====
-- The way in of src/neo/io/openssl/stream.hpp: from the inner stream through the buffers to the BIO
-- pair.
use neo_io.Prelude.{
  ℕ, suc, ◌≤◌, min, ◌≡◌, refl, sym, ap, ◌∙◌, inl, inr, true, false, List, [], ◌∷◌, ◌++◌, arith,
  Bool-cases, eq-nil_of_length, length, take, append_assoc, length-take, take-take,
  take-append-drop, to_int,
}
use neo_io.Transfer.{TransferResult, ErrorCode, Outcome, returned, thrown}
use neo_io.Buffers.{DynbufIo, Sink, ReadSome, IoBuffers}
use neo_io.Buffers.Laws.{IsDynbufIo}
use neo_io.Buffers.Input.{IsSource, Serves, next-Serves}
use neo_io.Ssl.Engine.{positive, max_zero, Errc, no_message, flush_input, input_round}
use neo_io.Ssl.Stream.{
  TlsCalls, TlsStream, calls, ports, input, input_size, next_size, do_next_input, do_consume_input,
}

-- The documented behaviour of `BIO_write`: `fed x` are the bytes that the pair has taken from the
-- peer, and a positive result is the number of leading bytes that it takes.
pub record TakesInput {X : Type 0} (c : TlsCalls X) (fed : X → List ℕ) : Type 0 where
  pub write-le :
      (bytes : List ℕ) (x : X)
      → positive (c.bio_write bytes x).0 ≡ true
      → (c.bio_write bytes x).0 ≤ length bytes
  pub fed-success :
      (bytes : List ℕ) (x : X)
      → positive (c.bio_write bytes x).0 ≡ true
      → fed (c.bio_write bytes x).1 ≡ fed x ++ take (c.bio_write bytes x).0 bytes
  pub fed-failure :
      (bytes : List ℕ) (x : X)
      → positive (c.bio_write bytes x).0 ≡ false
      → fed (c.bio_write bytes x).1 ≡ fed x

-- What one pass of input has done.
pub record Fed {X B S : Type 0} (fed : X → List ℕ) (content : B → List ℕ) (incoming : S → List ℕ)
    (w : TlsStream X B S) (out : Outcome Errc × TlsStream X B S) : Type 0 where
  pub kept :
      fed out.1.tls ++ (content out.1.in_bufs ++ incoming out.1.inner)
      ≡ fed w.tls ++ (content w.in_bufs ++ incoming w.inner)
  pub starved : out.0 ≡ returned no_message → content out.1.in_bufs ≡ []
  pub failed : (e : ErrorCode) → out.0 ≡ thrown e → content w.in_bufs ≡ []

module _ {R X B C P S : Type 0} ⦃t : TransferResult R⦄ {c : TlsCalls X} {d : DynbufIo B}
    {content staged : B → List ℕ} {incoming : S → List ℕ} {fed : X → List ℕ}
    {inner_read : ReadSome R S} (dl : IsDynbufIo d content staged)
    (sl : IsSource incoming inner_read) (tl : TakesInput c fed) (sink : Sink R C P S)
    (write_fuel : ℕ) where
  -- The bytes that the pair takes of those shown are gone from the buffer.
  took :
      (n : ℕ) (x : X) (b : B) (rest : List ℕ)
      → let (k, x') = c.bio_write (take n (d.next input_size b)) x in
        fed x' ++ (content (d.consume (max_zero k) b) ++ rest) ≡ fed x ++ (content b ++ rest)
  took n x b rest = elim (Bool-cases (positive k)) [
    | inl h ↦
        rw (h, tl.fed-success shown x h, dl.content-consume k b, front h, append_assoc)
          (ap (λ y. fed x ++ y)
            (sym (append_assoc _ _ rest) ∙ ap (λ y. y ++ rest) (take-append-drop k (content b))))
    | inr h ↦ rw (h, tl.fed-failure shown x h, dl.content-consume 0 b) refl
  ]
    where
      shown : List ℕ
      shown = take n (d.next input_size b)

      k : ℕ
      k = (c.bio_write shown x).0

      front : positive k ≡ true → take k shown ≡ take k (content b)
      front h =
          let le : k ≤ length shown = tl.write-le shown x h in
          let a : k ≤ n = omega (arith, le, length-take n (d.next input_size b)) in
          let e : length (d.next input_size b) ≡ min input_size (length (content b)) =
            ap length (dl.next_lem input_size b) ∙ length-take input_size (content b) in
          let m : k ≤ input_size = omega (arith, le, e, length-take n (d.next input_size b)) in
          take-take k n (d.next input_size b) a
          ∙ ap (take k) (dl.next_lem input_size b)
          ∙ take-take k input_size (content b) m

  -- A pass, by what `next` did.
  answered-Fed :
      (w : TlsStream X B S) (a : Outcome (List ℕ)) (x : IoBuffers B S)
      → Serves content incoming input_size (input w) a x
      → Fed fed content incoming w
          (input_round (calls c d) (ports d sink write_fuel inner_read) (next_size w (a, x)))
  unfolding input_round next_size do_consume_input
  answered-Fed w (thrown e) x s = record {
    kept = ap (λ y. fed w.tls ++ y) s.kept;
    starved = λ q. cc q;
    failed = λ y q. s.failed e refl;
  }
  answered-Fed w (returned []) x s = record {
    kept = ap (λ y. fed w.tls ++ y) s.kept;
    starved = λ q.
        let e : length (take input_size (content x.io_bufs)) ≡ 0 =
          sym (ap length (s.given [] refl)) in
        eq-nil_of_length (content x.io_bufs)
          (omega (arith, e, length-take input_size (content x.io_bufs)));
    failed = λ y q. cc q;
  }
  answered-Fed w (returned (y ∷ ys)) x s =
      let e : min input_size (suc (length ys)) ≡ suc (min 1023 (length ys)) = omega arith in
      rw e (record {
        kept =
            took (to_int (suc (min 1023 (length ys)))) w.tls x.io_bufs (incoming x.strm)
            ∙ ap (λ y. fed w.tls ++ y) s.kept;
        starved = λ q. cc q;
        failed = λ z q. cc q;
      })

  -- One pass of input of the TLS stream: what the BIO pair was fed, what the buffer holds and what
  -- the inner stream still brings stay, in order, the same bytes. It reports that there is no
  -- message only if nothing is left in the buffer, and throws only if nothing was.
  pub stream_input-Fed :
      (w : TlsStream X B S)
      → Fed fed content incoming w
          (flush_input (calls c d) (ports d sink write_fuel inner_read) (returned tt, w))
  unfolding flush_input do_next_input
  stream_input-Fed w = elim (Bool-cases (c.ssl_want_read w.tls)) [
    | inl h ↦ rw h (answered-Fed w _ _ (next-Serves dl sl input_size (input w)))
    | inr h ↦ rw h (record { kept = refl; starved = λ q. cc q; failed = λ e q. cc q })
  ]
