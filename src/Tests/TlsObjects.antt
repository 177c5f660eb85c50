-- ===== src/Tests/TlsObjects.antt =====
-- A toy OpenSSL that allocates and frees, and what the theorems on contexts and engines give for it.
use neo_io.Prelude.{ℕ, ◌+◌, ◌≡◌, refl, true, tally, List, [], ◌∷◌, arith, get_or}
use neo_io.Ssl.Context.{ContextCalls, Config, tls_any, both}
use neo_io.Ssl.Ownership.{
  EngineCalls, Take, Op, make_context, make_engine, move_engine, adopt_engine, destroy_engine,
  move_context, destroy_context, Objects, null_pointers, run,
}
use neo_io.Ssl.Ownership.Ledger.{
  Resource, ssl_at, bio_at, as_context, as_ssl, as_bio, owns, IsLedger,
}
use neo_io.Ssl.Ownership.Held.{held, acquired_all, objects_held-run, assign_engine-frees_twice}

-- The next address, and what was freed.
pub record Heap : Type 0 where
  pub next : ℕ
  pub contexts : List ℕ
  pub ssls : List ℕ
  pub bios : List ℕ

abbrev freed_in : Resource → Heap → ℕ
freed_in r w = tally (as_context r) w.contexts + tally (as_ssl r) w.ssls + tally (as_bio r) w.bios

abbrev pub allocate : Heap → Heap
allocate w = record w { next = w.next + 1 }

abbrev pub context_calls : ContextCalls Heap
context_calls = record {
  ctx_new = λ p s w. (w.next, allocate w);
  set_min_proto_version = λ x v w. w;
  set_max_proto_version = λ x v w. w;
  set_no_ssl_options = λ x w. w;
  ctx_free = λ x w. record w { contexts = x ∷ w.contexts };
  err_get_error = λ w. (0, w);
}

abbrev pub engine_calls : EngineCalls Heap
engine_calls = record {
  ssl_new = λ x w. (w.next, allocate w);
  set_mode = λ x m w. w;
  bio_new_bio_pair = λ w. ((w.next, w.next + 1), allocate (allocate w));
  set_bio = λ x i o w. w;
  bio_free = λ x w. record w { bios = x ∷ w.bios };
  ssl_free = λ x w. record w { ssls = x ∷ w.ssls };
}

abbrev heap-IsLedger : IsLedger context_calls engine_calls freed_in
heap-IsLedger = record {
  ctx_free-counts = λ r x w. omega arith;
  ssl_free-counts = λ r x w. omega arith;
  bio_free-counts = λ r x w. omega arith;
  ctx_new-frees = λ r p s w. refl;
  min_version-frees = λ r x v w. refl;
  max_version-frees = λ r x v w. refl;
  options-frees = λ r x w. refl;
  error-frees = λ r w. refl;
  ssl_new-frees = λ r x w. refl;
  mode-frees = λ r x m w. refl;
  pair-frees = λ r w. refl;
  set_bio-frees = λ r x i o w. refl;
}

abbrev pub taken : Take
taken x = (x, 0)

abbrev pub modern : Config
modern = record {
  at_least_1_1_0 = true;
  at_least_1_1_1 = true;
  no_ssl2 = true;
  no_ssl3 = true;
  txt_tlsv1 = true;
  txt_tlsv1_1 = true;
  txt_tlsv1_2 = true;
}

-- Two engines of one context: the second is assigned to the first, a third made from it.
abbrev life : List Op
life =
    make_context tls_any both
    ∷ make_engine 0
    ∷ make_engine 0
    ∷ move_engine 0 1
    ∷ adopt_engine 0
    ∷ destroy_engine 0
    ∷ move_context 0 0
    ∷ destroy_context 0
    ∷ []

abbrev none_made : Objects Heap
none_made = record {
  contexts = [];
  engines = [];
  system = record { next = 1; contexts = []; ssls = []; bios = [] };
}

abbrev held_of : Objects Heap → ℕ
held_of =
    held context_calls engine_calls taken modern freed_in heap-IsLedger (ssl_at 2) (λ x. refl)
      (λ z. omega arith)

abbrev acquired_of : List Op → Objects Heap → ℕ
acquired_of =
    acquired_all context_calls engine_calls taken modern freed_in heap-IsLedger (ssl_at 2)
      (λ x. refl) (λ z. omega arith)

objects_held-run_example :
    held_of (run context_calls engine_calls taken modern life none_made)
    ≡ held_of none_made + acquired_of life none_made
objects_held-run_example =
    objects_held-run context_calls engine_calls taken modern freed_in heap-IsLedger (ssl_at 2)
      (λ x. refl) (λ z. omega arith) life none_made refl

-- One engine.
abbrev one_made : Objects Heap
one_made = record {
  contexts = 1 ∷ [];
  engines = record { ssl = 2; bio = 4 } ∷ [];
  system = record { next = 5; contexts = []; ssls = []; bios = [] };
}

assign_engine-frees_twice_example :
    freed_in
      (bio_at 4)
      (run context_calls engine_calls taken modern
        (move_engine 0 0 ∷ destroy_engine 0 ∷ [])
        one_made).system
    ≡ owns (bio_at 4) (get_or one_made.engines 0 null_pointers)
      + (owns (bio_at 4) (get_or one_made.engines 0 null_pointers)
          + freed_in (bio_at 4) one_made.system)
assign_engine-frees_twice_example =
    assign_engine-frees_twice context_calls engine_calls taken modern freed_in heap-IsLedger
      (bio_at 4) (λ x. refl) (λ z. omega arith) 0 one_made (omega arith)
