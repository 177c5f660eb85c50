-- ===== src/Ssl/Stream/Stable.antt =====
-- What the calls on an SSL object keep up, a flush of the engine over the buffers of
-- src/neo/io/openssl/stream.hpp keeps up.
use mathlib.Core.Option
use mathlib.Core.Path.{subst}
use neo_io.Prelude.{
  ℕ, suc, min, ◌≡◌, ◌∙◌, refl, some, inl, inr, List, [], ◌∷◌, Bool-cases, length, arith,
}
use neo_io.Transfer.{TransferResult, Outcome, returned, thrown}
use neo_io.Buffers.{DynbufIo, Sink, ReadSome, IoBuffers}
use neo_io.Ssl.Engine.{Errc, flush_io, flush_input, input_round}
use neo_io.Ssl.Engine.Keeps.{flush_output-keeps}
use neo_io.Ssl.Engine.OneShot.{IsStable}
use neo_io.Ssl.Stream.{
  TlsCalls, TlsStream, calls, ports, set_output, input_size, next_size, do_next_output,
  do_commit_output, do_next_input, do_consume_input,
}

-- A property that reading errors and moving bytes through the BIO pair leave alone.
pub record IsKept {X : Type 0} (c : TlsCalls X) (Q : X → Type 0) : Type 0 where
  pub kept-error : (x : X) → Q x → Q (c.err_get_error x).1
  pub kept-bio_read : (n : ℕ) (x : X) → Q x → Q (c.bio_read n x).2
  pub kept-bio_write : (bytes : List ℕ) (x : X) → Q x → Q (c.bio_write bytes x).1

-- A record of bytes that these calls do not change.
pub record LeavesLog {X : Type 0} (c : TlsCalls X) (log : X → List ℕ) : Type 0 where
  pub log-clear : (x : X) → log (c.err_clear_error x) ≡ log x
  pub log-error : (x : X) → log (c.err_get_error x).1 ≡ log x
  pub log-bio_read : (n : ℕ) (x : X) → log (c.bio_read n x).2 ≡ log x
  pub log-bio_write : (bytes : List ℕ) (x : X) → log (c.bio_write bytes x).1 ≡ log x

module _ {R X B C P S : Type 0} ⦃t : TransferResult R⦄ {c : TlsCalls X} (d : DynbufIo B)
    (sink : Sink R C P S) (inner_read : ReadSome R S) (write_fuel : ℕ) {Q : X → Type 0}
    (kept : IsKept c Q) where
  -- The property holds still after the input half of a flush, by what `next` did.
  answered-kept :
      (w : TlsStream X B S) (a : Outcome (List ℕ)) (x : IoBuffers B S)
      → Q w.tls
      → Q (input_round (calls c d) (ports d sink write_fuel inner_read) (next_size w (a, x))).1.tls
  unfolding input_round next_size do_consume_input
  answered-kept w (thrown e) x q = q
  answered-kept w (returned []) x q = q
  answered-kept w (returned (y ∷ ys)) x q =
      let e : min input_size (suc (length ys)) ≡ suc (min 1023 (length ys)) = omega arith in
      rw e (kept.kept-bio_write _ w.tls q)

  input-kept :
      (out : Outcome (Unit {0}) × TlsStream X B S)
      → Q out.1.tls
      → Q (flush_input (calls c d) (ports d sink write_fuel inner_read) out).1.tls
  unfolding flush_input do_next_input
  input-kept (thrown e, w) q = q
  input-kept (returned u, w) q = elim (Bool-cases (c.ssl_want_read w.tls)) [
    | inl h ↦ rw h (answered-kept w _ _ q)
    | inr h ↦ rw h q
  ]

  pub kept-IsStable :
      (flush_fuel : ℕ)
      → IsStable (calls c d) (ports d sink write_fuel inner_read) flush_fuel (λ w. Q w.tls)
  unfolding flush_io do_next_output do_commit_output
  kept-IsStable flush_fuel = record {
    stable-err_get_error = λ w q. kept.kept-error w.tls q;
    stable-flush_io = λ w r e q.
        let (out, e', same) = (Option.map-eq-some_iff _ _).0 e in
        subst (λ z. Q z.1.tls) same
          (input-kept out
            (flush_output-keeps (calls c d) (ports d sink write_fuel inner_read) (λ w. Q w.tls)
              (λ _. Unit {0}) (λ n v q. (q, λ _ _. tt)) (λ n v q. kept.kept-bio_read n v.tls q)
              (λ n v out f q.
                let (z, _, g) = (Option.map-eq-some_iff (λ r. (r.0, set_output v r.1)) _).0 f in
                (subst (λ z. Q z.1.tls) g q, λ _ _. tt))
              flush_fuel w out e' q).0);
  }

module _ {R X B C P S : Type 0} ⦃t : TransferResult R⦄ {c : TlsCalls X} (d : DynbufIo B)
    (sink : Sink R C P S) (inner_read : ReadSome R S) (write_fuel flush_fuel : ℕ) {log : X → List ℕ}
    (left : LeavesLog c log) where
  -- A flush does not change the record either.
  pub log-flush_io :
      (w : TlsStream X B S) (r : Outcome Errc × TlsStream X B S)
      → flush_io (calls c d) (ports d sink write_fuel inner_read) flush_fuel w ≡ some r
      → log r.1.tls ≡ log w.tls
  log-flush_io w r e =
      (kept-IsStable {c = c} d sink inner_read write_fuel {Q = λ x. log x ≡ log w.tls}
          (record {
            kept-error = λ x q. left.log-error x ∙ q;
            kept-bio_read = λ n x q. left.log-bio_read n x ∙ q;
            kept-bio_write = λ bytes x q. left.log-bio_write bytes x ∙ q;
          })
          flush_fuel).stable-flush_io
        w r e refl
