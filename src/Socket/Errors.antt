-- ===== src/Socket/Errors.antt =====
-- The error category of `getaddrinfo` in src/neo/io/stream/socket.cpp.
use neo_io.Prelude.{ℕ, ◌≡◌, ◌≢◌, refl, Option, none, some, List, passed, arith}
use neo_io.Transfer.{ErrorCode, getaddrinfo_category}
use neo_io.Socket.{Calls, resolve}

-- `getaddrinfo_category_t::message`, by `::gai_strerror` and the system category.
pub message : (ℕ → Option (List ℕ)) → (ℕ → List ℕ) → ℕ → List ℕ
message gai_strerror system_message rc = elim (gai_strerror rc) [
  | some e_str ↦ e_str
  | none ↦ system_message rc
]

-- If `getaddrinfo` fails, `resolve` stores an error whose message is that of the status, or the
-- system's if it has none.
resolve-message :
    {W : Type 0} (c : Calls W) (gai_strerror : ℕ → Option (List ℕ)) (system_message : ℕ → List ℕ)
    (host service : List ℕ) (ec : ErrorCode) (w : W)
    → (c.getaddrinfo host service w).0 ≢ 0
    → (err : ErrorCode) × (w' : W) × (resolve c host service ec w ≡ passed (none, err, w'))
      × (err.category ≡ getaddrinfo_category)
      × ((text : List ℕ)
          → gai_strerror (c.getaddrinfo host service w).0 ≡ some text
          → message gai_strerror system_message err.value ≡ text)
      × (gai_strerror (c.getaddrinfo host service w).0 ≡ none
          → message gai_strerror system_message err.value
            ≡ system_message (c.getaddrinfo host service w).0)
unfolding resolve message
resolve-message c gai_strerror system_message host service ec w failed =
    let (rc, res, w') = c.getaddrinfo host service w in
    (
      record { value = rc; category = getaddrinfo_category },
      w',
      ground arith,
      refl,
      λ text h. rw (h, message) refl,
      λ h. rw (h, message) refl,
    )
