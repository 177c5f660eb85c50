-- ===== src/Tests/Engines.antt =====
-- The TLS engine over toy connections.
use neo_io.Prelude.{
  ℕ, ◌≤◌, min, ◌≡◌, refl, ap, ◌⊎◌, false, some, List, [], ◌∷◌, ◌++◌, arith, length, take, drop,
  length-take, length-drop, take-take, take-eq_of_le,
}
use neo_io.Transfer.{Outcome, returned}
use neo_io.Ssl.Engine.{OpenSsl, Ports, error_none, flush_output}
use neo_io.Ssl.Engine.Flush.{IsOutput, Kept, NoRoom, flush_output-drains}

-- What the engine has for the peer, what was read out of it last, and what was sent.
record Outbox : Type 0 where
  raw : List ℕ
  last_out : List ℕ
  gone : List ℕ

-- The pair holds sixteen bytes at most.
abbrev in_pair : Outbox → List ℕ
in_pair w = take 16 w.raw

abbrev out_ssl : OpenSsl Outbox
out_ssl = record {
  err_clear_error = λ w. w;
  ssl_get_error = λ ret w. error_none;
  err_get_error = λ w. (0, w);
  last_error = λ w. 4;
  ssl_connect = λ w. (1, w);
  ssl_shutdown = λ w. (1, w);
  ssl_read = λ n w. (0, [], w);
  ssl_write = λ bs n w. (n, w);
  ssl_want_read = λ w. false;
  bio_ctrl_pending = λ w. length (in_pair w);
  bio_read = λ n w. (
    min n (length (in_pair w)),
    record w {
      raw = drop (min n (length (in_pair w))) (in_pair w);
      last_out = take (min n (length (in_pair w))) (in_pair w);
    },
  );
  bio_write = λ n w. (0, w);
}

-- Three bytes at a time.
abbrev out_ports : Ports Outbox
out_ports = record {
  do_next_output = λ n w. (returned (min n 3), w);
  do_commit_output = λ n w. some (returned tt, record w { gone = w.gone ++ take n w.last_out });
  do_next_input = λ w. (returned 0, w);
  do_consume_input = λ n w. w;
}

out-next-le :
    (n k : ℕ) (w v : Outbox) → out_ports.do_next_output n w ≡ (returned k, v) → (k ≤ n) × (k ≤ 3)
out-next-le n k w v h = let e : min n 3 ≡ k = cc in (omega (arith, e), omega (arith, e))

out-IsOutput : IsOutput out_ssl out_ports in_pair (λ w. w.gone) (λ w. 3) (λ w. Unit {0})
out-IsOutput = record {
  pending_lem = λ w. refl;
  pair-small = λ w. omega (arith, length-take 16 w.raw);
  next-waiting = λ n w. refl;
  next-sent = λ n w. refl;
  next-Quiet = λ n w q. q;
  next-le = out-next-le;
  read-positive = λ n w a b c. ground arith;
  read-waiting = λ n w _.
      take-eq_of_le 16 _
        (omega (arith, length-take 16 w.raw, length-drop (min n (length (in_pair w))) (in_pair w)));
  commit-Commits = λ n w h k. (
    _,
    refl,
    record {
      kept-waiting = refl;
      grown-sent =
          ap (λ t. w.gone ++ t)
            (take-take (min n (length (in_pair w))) _ (in_pair w) (omega arith));
      still-Quiet = λ _ q. q;
    },
  );
}

abbrev unsent : Outbox
unsent = record { raw = 1 ∷ 2 ∷ 3 ∷ 4 ∷ 5 ∷ []; last_out = []; gone = 9 ∷ [] }

flush_output-drains_example :
    (out : Outcome (Unit {0})) × (w' : Outbox) × (flush_output out_ssl out_ports 6 unsent
      ≡ some (out, w'))
    × Kept in_pair (λ w. w.gone) unsent w'
    × (out ≡ returned tt
        → ((in_pair w' ≡ []) ⊎ NoRoom out_ssl out_ports w') × (Unit {0} → Unit {0}))
flush_output-drains_example = flush_output-drains out-IsOutput 6 unsent (omega arith)
