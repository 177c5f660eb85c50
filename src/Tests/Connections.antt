-- ===== src/Tests/Connections.antt =====
-- Sockets and TLS contexts at concrete inputs.
use neo_io.Prelude.{
  ℕ, ◌<◌, ◌≤◌, assert_failed, ◌≡◌, ◌≢◌, ◌⊎◌, refl, true, some, none, List, [], ◌∷◌, arith, passed,
  Option, ◌==◌, if◌then◌else◌,
}
use neo_io.Transfer.{ErrorCode, no_error, getaddrinfo_category, Outcome, returned, thrown}
use neo_io.Socket.{
  stream, Numbers, Address, Calls, minus_one, system_error, get_family, af_of, open_connected,
}
use neo_io.Socket.Open.{open_connected-clean, open_connected-stale}
use neo_io.Throwing.{value, throws, Throws}
use neo_io.Socket.Throwing.{resolve_or_throw, resolve_or_throw-total}
use neo_io.Ssl.Context.{tls_v1_2, client, Config, Version, tls1_2_version, ContextCalls, construct}
use neo_io.Ssl.Context.Versions.{BoundsVersions, construct-pins}

-- Linux's numbers.
abbrev linux : Numbers
linux = record {
  af_inet = 2;
  af_inet6 = 10;
  af_unix = 1;
  af_unspec = 0;
  sock_stream = 1;
  sock_dgram = 2;
}

-- Two peers: one accepts, and the other refuses.
abbrev accepting : Address
accepting = record { ss_family = 2; storage = 2 ∷ 80 ∷ []; size = 2 }

abbrev refusing : Address
refusing = record { ss_family = 2; storage = 2 ∷ []; size = 1 }

-- A system that logs the sockets that it closes.
abbrev toy_calls : Calls (List ℕ)
toy_calls = record {
  getaddrinfo =
      λ host service w. (0, record { sa_family = 2; ai_addr = 2 ∷ 80 ∷ []; ai_addrlen = 2 }, w);
  freeaddrinfo = λ w. w;
  open_socket = λ af typ w. (7, 0, w);
  connect_socket = λ fd addr w. if addr.size == 2 then (0, 0, w) else (minus_one, 111, w);
  shutdown_socket = λ fd w. w;
  close_socket = λ fd w. fd ∷ w;
}

open_connected-clean_example :
    ((7 ≡ minus_one)
      × (open_connected linux toy_calls refusing stream no_error []
          ≡ passed (none, system_error 0, [])))
    ⊎ ((7 ≢ minus_one)
        × (minus_one ≢ 0)
        × (open_connected linux toy_calls refusing stream no_error []
            ≡ passed (none, system_error 111, 7 ∷ [])))
    ⊎ ((7 ≢ minus_one)
        × (minus_one ≡ 0)
        × (open_connected linux toy_calls refusing stream no_error []
            ≡ passed (some 7, no_error, [])))
unfolding af_of get_family
open_connected-clean_example =
    open_connected-clean linux toy_calls refusing stream no_error [] 2 refl refl
      (λ _ z. omega arith)

abbrev stale : ErrorCode
stale = system_error 4

open_connected-stale_example :
    open_connected linux toy_calls accepting stream stale [] ≡ passed (none, stale, 7 ∷ [])
unfolding af_of get_family
open_connected-stale_example =
    open_connected-stale linux toy_calls accepting stream stale [] 2 refl refl (λ e. omega arith)
      refl

-- A thrower that throws what it holds.
abbrev pub throw_held : ErrorCode → Outcome (Unit {0})
throw_held ec = if ec.value == 0 then returned tt else thrown ec

pub held-Throws : Throws throw_held
held-Throws = record { throws-error = λ ec e. ground arith; returns-clean = λ ec e. ground arith }

-- What `getaddrinfo` reports for a name that it finds.
abbrev found : ℕ
found = 0

resolve_or_throw-total_example :
    ((found ≡ 0)
      × (128 < 2)
      × (resolve_or_throw throw_held linux toy_calls [] [] [] ≡ assert_failed))
    ⊎ ((found ≢ 0)
        × (resolve_or_throw throw_held linux toy_calls [] [] []
            ≡ passed (throws (record { value = found; category = getaddrinfo_category }), [])))
    ⊎ ((found ≡ 0)
        × (2 ≤ 128)
        × (resolve_or_throw throw_held linux toy_calls [] [] [] ≡ passed (value accepting, [])))
resolve_or_throw-total_example =
    resolve_or_throw-total throw_held linux toy_calls [] [] [] held-Throws

-- OpenSSL 1.1.1.
abbrev current : Config
current = record {
  at_least_1_1_0 = true;
  at_least_1_1_1 = true;
  no_ssl2 = true;
  no_ssl3 = true;
  txt_tlsv1 = true;
  txt_tlsv1_1 = true;
  txt_tlsv1_2 = true;
}

-- An OpenSSL with one context, at 5, which offers all versions; its state is the context's bounds.
abbrev Bounds : Type 0
Bounds = Option Version × Option Version

abbrev one_context : ContextCalls Bounds
one_context = record {
  ctx_new = λ prefix suffix w. (5, (none, none));
  set_min_proto_version = λ ptr v w. (some v, w.1);
  set_max_proto_version = λ ptr v w. (w.0, some v);
  set_no_ssl_options = λ ptr w. w;
  ctx_free = λ ptr w. w;
  err_get_error = λ w. (0, w);
}

one_context-BoundsVersions :
    BoundsVersions one_context (λ ptr w. ptr ≡ 5) (λ v. Unit {0}) (λ ptr w. w)
one_context-BoundsVersions = record {
  new-general = λ s w h. refl;
  min-general = λ ptr v w h. h;
  bounds-min = λ ptr v w h o. refl;
  bounds-max = λ ptr v w h o. refl;
}

construct-pins_example :
    ((construct one_context current tls_v1_2 client (none, none)).0 ≡ returned 5)
    × ((construct one_context current tls_v1_2 client (none, none)).1
        ≡ (some tls1_2_version, some tls1_2_version))
construct-pins_example =
    construct-pins one_context one_context-BoundsVersions current tls_v1_2 client tls1_2_version
      (none, none) refl refl (λ e. absurd (cc e)) refl tt (λ z. omega arith)
