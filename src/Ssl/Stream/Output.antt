-- ===== src/Ssl/Stream/Output.antt =====
-- The way out of src/neo/io/openssl/stream.hpp: from the BIO pair through the buffers to the inner
-- stream.
use neo_io.Prelude.{
  ℕ, zero, suc, ◌≤◌, ◌<◌, ◌/◌, min, ◌≡◌, refl, sym, ap, ◌∙◌, ◌⊎◌, inl, inr, true, some, List, [],
  ◌++◌, arith, int_mod, length, take, drop, append_assoc, append-nil, eq-nil_of_length, length-take,
  length-append, take-append_take,
}
use neo_io.Transfer.{TransferResult, IsTransferResult, Outcome, returned}
use neo_io.IoOp.Laws.{Spans}
use neo_io.Buffers.{DynbufIo, Sink, ReadSome, IoBuffers}
use neo_io.Buffers.Laws.{IsDynbufIo}
use neo_io.Buffers.Output.{IsSink, commit-keeps}
use neo_io.Ssl.Engine.{positive, flush_output}
use neo_io.Ssl.Engine.Flush.{Commits, IsOutput, NoRoom, flush_output-drains}
use neo_io.Ssl.Stream.{
  TlsCalls, TlsStream, calls, ports, output, set_output, do_next_output, do_commit_output,
}

-- The documented behaviour of a BIO pair whose buffer has `cap` bytes. `waiting x` are the bytes that
-- it holds for the peer, and a read of a pair that holds some gives the first of them.
pub record IsBio {X : Type 0} (c : TlsCalls X) (waiting : X → List ℕ) (cap : ℕ) : Type 0 where
  pub pending_lem : (x : X) → c.bio_ctrl_pending x ≡ length (waiting x)
  pub waiting-cap : (x : X) → length (waiting x) ≤ cap
  pub read-positive :
      (n : ℕ) (x : X)
      → 0 < n
      → n < int_mod / 2
      → 0 < length (waiting x)
      → positive (c.bio_read n x).0 ≡ true
  pub read-le : (n : ℕ) (x : X) → positive (c.bio_read n x).0 ≡ true → (c.bio_read n x).0 ≤ n
  pub read-bytes :
      (n : ℕ) (x : X)
      → positive (c.bio_read n x).0 ≡ true
      → (c.bio_read n x).1 ≡ take (c.bio_read n x).0 (waiting x)
  pub read-le-waiting :
      (n : ℕ) (x : X) → positive (c.bio_read n x).0 ≡ true → (c.bio_read n x).0 ≤ length (waiting x)
  pub read-waiting :
      (n : ℕ) (x : X)
      → positive (c.bio_read n x).0 ≡ true
      → waiting (c.bio_read n x).2 ≡ drop (c.bio_read n x).0 (waiting x)

-- What the inner stream was given, and then what the output's buffer holds.
abbrev pub out_sent : {X B S : Type 0} → (S → List ℕ) → (B → List ℕ) → TlsStream X B S → List ℕ
out_sent sent content w = sent w.inner ++ content w.out_bufs

module _ {R X B C P S : Type 0} ⦃t : TransferResult R⦄ {v : Spans C P} {c : TlsCalls X}
    {d : DynbufIo B} {content staged : B → List ℕ} {sent : S → List ℕ} {waiting : X → List ℕ}
    {sink : Sink R C P S} {cap write_fuel : ℕ} (rl : IsTransferResult t)
    (dl : IsDynbufIo d content staged) (sl : IsSink v sent sink) (bl : IsBio c waiting cap)
    (small : cap < int_mod / 2) (enough : cap < write_fuel) where
  -- The output's commit of the bytes that were read.
  commit-Commits :
      (n : ℕ) (w : TlsStream X B S)
      → n ≤ length (staged w.out_bufs)
      → positive (c.bio_read n w.tls).0 ≡ true
      → (out : Outcome (Unit {0}) × TlsStream X B S) × (do_commit_output d sink write_fuel
            (c.bio_read n w.tls).0
            ((calls c d).bio_read n w).1
          ≡ some out)
        × Commits
            (calls c d)
            (λ w. waiting w.tls)
            (out_sent sent content)
            (λ w. content w.out_bufs ≡ [])
            n
            w
            out
  unfolding do_commit_output
  commit-Commits n w fits h =
      let (out, x, e, keeps, settled) =
        commit-keeps rl dl sl write_fuel k after
          (omega (arith, ap length area, length-append part rest, len)) (omega (arith, k-le))
          (omega (arith, k-le)) in
      (
        (out, set_output w' x),
        rw e,
        record {
          kept-waiting = refl;
          grown-sent =
              keeps
              ∙ (rw (
                dl.content-store part w.out_bufs,
                area,
                all_of k (waiting w.tls) rest (bl.read-le-waiting n w.tls h)
                    (bl.read-bytes n w.tls h),
              ));
          still-Quiet = λ q z.
              eq-nil_of_length (content x.io_bufs)
                (settled q ∙ ap length (dl.content-store part w.out_bufs ∙ z));
        },
      )
    where
      k : ℕ
      k = (c.bio_read n w.tls).0

      part : List ℕ
      part = (c.bio_read n w.tls).1

      w' : TlsStream X B S
      w' = ((calls c d).bio_read n w).1

      after : IoBuffers B S
      after = output w'

      rest : List ℕ
      rest = drop (length part) (staged w.out_bufs)

      k-le : k ≤ cap
      k-le = omega (arith, bl.read-le-waiting n w.tls h, bl.waiting-cap w.tls)

      len : length part ≡ k
      len =
          ap length (bl.read-bytes n w.tls h)
          ∙ length-take k (waiting w.tls)
          ∙ omega (arith, bl.read-le-waiting n w.tls h)

      area : staged (d.store part w.out_bufs) ≡ part ++ rest
      area = dl.staged-store part w.out_bufs (omega (arith, len, fits, bl.read-le n w.tls h))

      all_of :
          (k : ℕ) (xs ys : List ℕ)
          → k ≤ length xs
          → part ≡ take k xs
          → take k (part ++ ys) ≡ take k xs
      all_of k xs ys le e = rw e (take-append_take k xs ys le)

  pub stream-IsOutput :
      (inner_read : ReadSome R S)
      → IsOutput
          (calls c d)
          (ports d sink write_fuel inner_read)
          (λ w. waiting w.tls)
          (out_sent sent content)
          (λ w. length (staged w.out_bufs))
          (λ w. content w.out_bufs ≡ [])
  unfolding do_next_output
  stream-IsOutput inner_read = record {
    pending_lem = λ w. bl.pending_lem w.tls;
    pair-small = λ w. omega (arith, bl.waiting-cap w.tls);
    next-waiting = λ n w. refl;
    next-sent = λ n w. ap (λ x. sent w.inner ++ x) (dl.content-prepare n w.out_bufs);
    next-Quiet = λ n w q. dl.content-prepare n w.out_bufs ∙ q;
    next-le = λ n k w v h. room_le n k w v h;
    read-positive = λ n w a b e. bl.read-positive n w.tls a b e;
    read-waiting = λ n w h. bl.read-waiting n w.tls h;
    commit-Commits = commit-Commits;
  }
    where
      room_le :
          (n k : ℕ) (w v : TlsStream X B S)
          → do_next_output d n w ≡ (returned k, v)
          → (k ≤ n) × (k ≤ length (staged v.out_bufs))
      room_le n k w v h =
          let a : min n (d.prepared (d.prepare n w.out_bufs)) ≡ k = cc in
          let b : length (staged (d.prepare n w.out_bufs)) ≡ length (staged v.out_bufs) =
            ap (λ x. length (staged x.1.out_bufs)) h in
          (omega (arith, a), omega (arith, a, b, dl.prepared_lem (d.prepare n w.out_bufs)))

  -- A flush of the TLS stream returns, if OpenSSL and the buffers behave as documented and the inner
  -- stream moves something or fails at each call, with more fuel than the BIO pair has bytes.
  -- Started with an empty output buffer it keeps what goes to the peer in order, on the inner
  -- stream, in the buffer and in the pair, also if it throws; and if it does not throw, the inner
  -- stream was given all of it.
  pub stream_flush-delivers :
      (inner_read : ReadSome R S) (fuel : ℕ) (w : TlsStream X B S)
      → cap < fuel
      → content w.out_bufs ≡ []
      → ((n : ℕ) (b : B) → 0 < n → 0 < length (staged (d.prepare n b)))
      → (out : Outcome (Unit {0})) × (w' : TlsStream X B S) × (flush_output
            (calls c d)
            (ports d sink write_fuel inner_read)
            fuel
            w
          ≡ some (out, w'))
        × (sent w'.inner ++ (content w'.out_bufs ++ waiting w'.tls) ≡ sent w.inner ++ waiting w.tls)
        × (out ≡ returned tt → sent w'.inner ≡ sent w.inner ++ waiting w.tls)
  unfolding do_next_output
  stream_flush-delivers inner_read fuel w enough empty rooms =
      let (out, w', e, kept, settled) =
        flush_output-drains (stream-IsOutput inner_read) fuel w
          (omega (arith, bl.waiting-cap w.tls)) in
      let order : sent w'.inner ++ (content w'.out_bufs ++ waiting w'.tls)
          ≡ sent w.inner ++ waiting w.tls =
        sym (append_assoc (sent w'.inner) (content w'.out_bufs) (waiting w'.tls))
        ∙ kept
        ∙ ap (λ x. (sent w.inner ++ x) ++ waiting w.tls) empty
        ∙ ap (λ x. x ++ waiting w.tls) (append-nil (sent w.inner)) in
      (out, w', e, order, λ q. done w' order ((settled q).1 empty) ((settled q).0))
    where
      nothing_pending : (n : ℕ) (b : B) → min n (d.prepared (d.prepare n b)) ≡ 0 → n ≡ 0
      nothing_pending zero b h = refl
      nothing_pending (suc n) b h =
          let room = rooms (suc n) b (omega arith) in
          absurd (omega (arith, h, room, dl.prepared_lem (d.prepare (suc n) b)))

      none_left :
          (w' : TlsStream X B S)
          → (waiting w'.tls ≡ []) ⊎ NoRoom (calls c d) (ports d sink write_fuel inner_read) w'
          → waiting w'.tls ≡ []
      none_left w' (inl e) = e
      none_left w' (inr (v, e)) =
          let n : ℕ = c.bio_ctrl_pending v.tls in
          let zero_room : min n (d.prepared (d.prepare n v.out_bufs)) ≡ 0 = cc in
          let same : waiting v.tls ≡ waiting w'.tls = ap (λ x. waiting x.1.tls) e in
          let none : n ≡ 0 = nothing_pending n v.out_bufs zero_room in
          eq-nil_of_length (waiting w'.tls)
            (omega (arith, none, ap length same, bl.pending_lem v.tls))

      done :
          (w' : TlsStream X B S)
          → sent w'.inner ++ (content w'.out_bufs ++ waiting w'.tls) ≡ sent w.inner ++ waiting w.tls
          → content w'.out_bufs ≡ []
          → (waiting w'.tls ≡ []) ⊎ NoRoom (calls c d) (ports d sink write_fuel inner_read) w'
          → sent w'.inner ≡ sent w.inner ++ waiting w.tls
      done w' order quiet end =
          sym (append-nil (sent w'.inner))
          ∙ sym (ap (λ x. sent w'.inner ++ x) (rw (quiet, none_left w' end) refl))
          ∙ order
