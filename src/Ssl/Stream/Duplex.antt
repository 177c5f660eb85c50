-- ===== src/Ssl/Stream/Duplex.antt =====
-- One flush of the TLS stream of src/neo/io/openssl/stream.hpp, with both of its ways.
use mathlib.Core.Option
use mathlib.Core.Path.{subst}
use neo_io.Prelude.{
  ℕ, suc, ◌<◌, ◌/◌, ◌≡◌, refl, ◌∙◌, inl, inr, some, List, [], ◌∷◌, ◌++◌, min, arith, int_mod,
  length, Bool-cases,
}
use neo_io.Transfer.{TransferResult, IsTransferResult, Outcome, returned, thrown}
use neo_io.IoOp.Laws.{Spans}
use neo_io.IoOp.Stability.{write_all-keeps}
use neo_io.Buffers.{DynbufIo, Sink, ReadSome, IoBuffers, commit_written, commit, fill, next}
use neo_io.Buffers.Laws.{IsDynbufIo}
use neo_io.Buffers.Output.{IsSink}
use neo_io.Buffers.Input.{IsSource}
use neo_io.Ssl.Engine.{Errc, no_message, flush_output, flush_input, input_round, flush_io}
use neo_io.Ssl.Engine.Keeps.{flush_output-keeps}
use neo_io.Ssl.Stream.{
  TlsCalls, TlsStream, calls, ports, output, set_output, input, input_size, next_size,
  do_next_output, do_commit_output, do_next_input, do_consume_input,
}
use neo_io.Ssl.Stream.Output.{IsBio, stream_flush-delivers}
use neo_io.Ssl.Stream.Input.{TakesInput, Fed, stream_input-Fed}

-- The two ways do not mix: in the BIO pair, and in the inner stream.
pub record IsDuplex {R X C P S : Type 0} (c : TlsCalls X) (sink : Sink R C P S)
    (inner_read : ReadSome R S) (waiting fed : X → List ℕ) (sent incoming : S → List ℕ)
    : Type 0 where
  pub fed-bio_read : (n : ℕ) (x : X) → fed (c.bio_read n x).2 ≡ fed x
  pub waiting-bio_write : (bytes : List ℕ) (x : X) → waiting (c.bio_write bytes x).1 ≡ waiting x
  pub incoming-write :
      (src : List ℕ) (part : P) (s : S)
      → incoming ((sink.stream src).some_part part s).1 ≡ incoming s
  pub sent-read : (n : ℕ) (s : S) → sent (inner_read n s).2 ≡ sent s

-- The way in, and the way out, untouched between two states.
abbrev SameIn :
    {X B S : Type 0} → (X → List ℕ) → (S → List ℕ) → TlsStream X B S → TlsStream X B S → Type 0
SameIn fed incoming w w' =
    (w'.in_bufs ≡ w.in_bufs) × (incoming w'.inner ≡ incoming w.inner) × (fed w'.tls ≡ fed w.tls)

abbrev SameOut :
    {X B S : Type 0} → (X → List ℕ) → (S → List ℕ) → TlsStream X B S → TlsStream X B S → Type 0
SameOut waiting sent w w' =
    (w'.out_bufs ≡ w.out_bufs) × (sent w'.inner ≡ sent w.inner) × (waiting w'.tls ≡ waiting w.tls)

module _ {R X B C P S : Type 0} ⦃t : TransferResult R⦄ {c : TlsCalls X} (d : DynbufIo B)
    {sink : Sink R C P S} {inner_read : ReadSome R S} {waiting fed : X → List ℕ}
    {sent incoming : S → List ℕ} (du : IsDuplex c sink inner_read waiting fed sent incoming)
    (write_fuel : ℕ) where
  pub commit-incoming :
      (size : ℕ) (x : IoBuffers B S) (out : Outcome (Unit {0}) × IoBuffers B S) (i : List ℕ)
      → commit d sink write_fuel size x ≡ some out
      → incoming x.strm ≡ i
      → incoming out.1.strm ≡ i
  unfolding commit commit_written
  commit-incoming size x out i e q =
      let bufs = d.commit size x.io_bufs in
      let src = d.next size bufs in
      let (r, e', same) = (Option.map-eq-some_iff (commit_written d bufs) _).0 e in
      subst (λ z. incoming z.1.strm ≡ i) same
        (write_all-keeps (λ s. incoming s ≡ i) (sink.stream src).some_part
          (λ part s q'. du.incoming-write src part s ∙ q') (sink.consumers src)
          (sink.stream src).vectored (sink.begins src) write_fuel x.strm r e' q)

  do_commit_output-SameIn :
      (v : TlsStream X B S) (n : ℕ) (w : TlsStream X B S)
      (out : Outcome (Unit {0}) × TlsStream X B S)
      → do_commit_output d sink write_fuel n w ≡ some out
      → SameIn fed incoming v w
      → SameIn fed incoming v out.1
  unfolding do_commit_output
  do_commit_output-SameIn v n w out e (b, i, f) =
      let (r, e', same) = (Option.map-eq-some_iff (λ r. (r.0, set_output w r.1)) _).0 e in
      subst (λ z. SameIn fed incoming v z.1) same
        (b, commit-incoming n (output w) r (incoming v.inner) e' i, f)

  flush_output-SameIn :
      (fuel : ℕ) (w : TlsStream X B S) (out : Outcome (Unit {0}) × TlsStream X B S)
      → flush_output (calls c d) (ports d sink write_fuel inner_read) fuel w ≡ some out
      → SameIn fed incoming w out.1
  unfolding do_next_output
  flush_output-SameIn fuel w out e =
      (flush_output-keeps (calls c d) (ports d sink write_fuel inner_read) (SameIn fed incoming w)
        (λ _. Unit {0}) (λ n v q. (q, λ _ _. tt))
        (λ n v q. (q.0, q.1, du.fed-bio_read n v.tls ∙ q.2))
        (λ n v out f q. (do_commit_output-SameIn w n v out f q, λ _ _. tt)) fuel w out e
        (refl, refl, refl)).0

  next-sent : (n : ℕ) (x : IoBuffers B S) → sent (next d inner_read n x).1.strm ≡ sent x.strm
  unfolding next fill
  next-sent n x = ground (arith, du.sent-read (d.prepared (d.prepare n x.io_bufs)) x.strm)

  answered-SameOut :
      (w : TlsStream X B S) (a : Outcome (List ℕ)) (x : IoBuffers B S)
      → sent x.strm ≡ sent w.inner
      → SameOut waiting sent w
          (input_round (calls c d) (ports d sink write_fuel inner_read) (next_size w (a, x))).1
  unfolding input_round next_size do_consume_input
  answered-SameOut w (thrown e) x q = (refl, q, refl)
  answered-SameOut w (returned []) x q = (refl, q, refl)
  answered-SameOut w (returned (y ∷ ys)) x q =
      let e : min input_size (suc (length ys)) ≡ suc (min 1023 (length ys)) = omega arith in
      rw e (refl, q, du.waiting-bio_write _ w.tls)

  flush_input-SameOut :
      (w : TlsStream X B S)
      → SameOut waiting sent w
          (flush_input (calls c d) (ports d sink write_fuel inner_read) (returned tt, w)).1
  unfolding flush_input do_next_input
  flush_input-SameOut w = elim (Bool-cases (c.ssl_want_read w.tls)) [
    | inl h ↦ rw h (answered-SameOut w _ _ (next-sent input_size (input w)))
    | inr h ↦ rw h (refl, refl, refl)
  ]

-- One flush of a TLS stream whose output holds nothing.
module _ {R X B C P S : Type 0} ⦃t : TransferResult R⦄ {v : Spans C P} {c : TlsCalls X}
    {d : DynbufIo B} {content staged : B → List ℕ} {sent incoming : S → List ℕ}
    {waiting fed : X → List ℕ} {sink : Sink R C P S} {inner_read : ReadSome R S}
    {cap write_fuel : ℕ} (rl : IsTransferResult t) (dl : IsDynbufIo d content staged)
    (sl : IsSink v sent sink) (il : IsSource incoming inner_read) (bl : IsBio c waiting cap)
    (tl : TakesInput c fed) (du : IsDuplex c sink inner_read waiting fed sent incoming)
    (small : cap < int_mod / 2) (enough : cap < write_fuel) where
  -- What a flush has done, by how its output ended.
  after_output :
      (fuel : ℕ) (w : TlsStream X B S) (out : Outcome (Unit {0})) (w' : TlsStream X B S)
      → flush_output (calls c d) (ports d sink write_fuel inner_read) fuel w ≡ some (out, w')
      → let (end, w'') = flush_input (calls c d) (ports d sink write_fuel inner_read) (out, w') in
        (fed w''.tls ++ (content w''.in_bufs ++ incoming w''.inner)
          ≡ fed w.tls ++ (content w.in_bufs ++ incoming w.inner))
        × (end ≡ returned no_message → content w''.in_bufs ≡ [])
        × ((x : Errc) → end ≡ returned x → out ≡ returned tt)
        × SameOut waiting sent w' w''
  unfolding flush_input
  after_output fuel w (thrown x) w' e =
      let (b, i, f) = flush_output-SameIn d du write_fuel fuel w (thrown x, w') e in
      (rw (b, i, f) refl, λ q. absurd (cc q), λ y q. absurd (cc q), (refl, refl, refl))
  after_output fuel w (returned u) w' e =
      let (b, i, f) = flush_output-SameIn d du write_fuel fuel w (returned u, w') e in
      let r : Fed fed content incoming w' _ = stream_input-Fed dl il tl sink write_fuel w' in
      (r.kept ∙ rw (b, i, f) refl, r.starved, λ y q. refl, flush_input-SameOut d du write_fuel w')

  -- One flush of a TLS stream over an inner stream that keeps its two ways apart and moves
  -- something or fails at each write, with OpenSSL as documented, with fuel for more bytes than
  -- the BIO pair holds, an output buffer that holds nothing and whose region is never empty: it
  -- returns. What the inner stream was given, what the output buffer holds and what waits in the
  -- pair stay, in order, the same bytes, and so do those that the pair was fed, that the input
  -- buffer holds and that the inner stream still brings; also if a transfer of the inner stream
  -- fails. If it throws nothing, all that waited was sent. If it reports that there is no
  -- message, the input buffer is empty.
  pub stream_flush_io-moves :
      (fuel : ℕ) (w : TlsStream X B S)
      → cap < fuel
      → content w.out_bufs ≡ []
      → ((n : ℕ) (b : B) → 0 < n → 0 < length (staged (d.prepare n b)))
      → (out : Outcome Errc) × (w' : TlsStream X B S) × (flush_io
            (calls c d)
            (ports d sink write_fuel inner_read)
            fuel
            w
          ≡ some (out, w'))
        × (sent w'.inner ++ (content w'.out_bufs ++ waiting w'.tls) ≡ sent w.inner ++ waiting w.tls)
        × (fed w'.tls ++ (content w'.in_bufs ++ incoming w'.inner)
            ≡ fed w.tls ++ (content w.in_bufs ++ incoming w.inner))
        × ((e : Errc) → out ≡ returned e → sent w'.inner ≡ sent w.inner ++ waiting w.tls)
        × (out ≡ returned no_message → content w'.in_bufs ≡ [])
  unfolding flush_io
  stream_flush_io-moves fuel w full empty rooms =
      let (out, w₁, e, order, all_sent) =
        stream_flush-delivers rl dl sl bl small enough inner_read fuel w full empty rooms in
      let (kept, starved, ended, (b, s, q)) = after_output fuel w out w₁ e in
      let (end, w₂) = flush_input (calls c d) (ports d sink write_fuel inner_read) (out, w₁) in
      (end, w₂, rw e, rw (b, s, q) order, kept, λ x f. s ∙ all_sent (ended x f), starved)
