-- ===== src/Socket/Throwing.antt =====
-- The overloads of src/neo/io/stream/socket.hpp that throw: `address::resolve(host, service)`,
-- `socket::create(fam, typ)` and `socket::open_connected(addr, typ)`.
use native.Mathlib.Decide.{ℕ_discrete, dec_le}
use neo_io.Prelude.{
  ℕ, ◌<◌, ◌≤◌, ◌≡◌, ◌≢◌, ◌⊎◌, inl, inr, List, take, refl, arith, Checked, passed, assert_failed,
  ◌>>=◌,
}
use neo_io.Transfer.{ErrorCode, getaddrinfo_category, no_error, Outcome}
use neo_io.Throwing.{Result, value, throws, Throws, check_then_get, get_then_check}
use neo_io.Socket.{Family, SocketType, Numbers, Address, Calls, resolve, create, open_connected}

module _ {W : Type 0} (throw_if : ErrorCode → Outcome (Unit {0})) (k : Numbers) (c : Calls W) where
  -- `address::resolve(host, service)`.
  pub resolve_or_throw : List ℕ → List ℕ → W → Checked (Result Address × W)
  resolve_or_throw host service w =
      resolve c host service no_error w >>= λ r. passed (check_then_get throw_if r)

  -- `socket::create(fam, typ)`.
  pub create_or_throw : Family → SocketType → W → Checked (Result ℕ × W)
  create_or_throw fam typ w =
      create k c fam typ no_error w >>= λ r. passed (get_then_check throw_if r)

  -- `socket::open_connected(addr, typ)`.
  pub open_connected_or_throw : Address → SocketType → W → Checked (Result ℕ × W)
  open_connected_or_throw addr typ w =
      open_connected k c addr typ no_error w >>= λ r. passed (get_then_check throw_if r)

  -- `resolve(host, service)` reads no optional that is empty: it fails the assertion exactly if an
  -- address is larger than 128 bytes, and otherwise throws the error of `getaddrinfo` exactly if
  -- that reports one, and returns the address that it found. This needs that the thrower throws
  -- just the errors.
  pub resolve_or_throw-total :
      (host service : List ℕ) (w : W)
      → Throws throw_if
      → let (rc, res, w₁) = c.getaddrinfo host service w in
        ((rc ≡ 0) × (128 < res.ai_addrlen) × (resolve_or_throw host service w ≡ assert_failed))
        ⊎ ((rc ≢ 0)
            × (resolve_or_throw host service w
                ≡ passed (throws (record { value = rc; category = getaddrinfo_category }), w₁)))
        ⊎ ((rc ≡ 0)
            × (res.ai_addrlen ≤ 128)
            × (resolve_or_throw host service w
                ≡ passed (
                  value (record {
                    ss_family = res.sa_family;
                    storage = take res.ai_addrlen res.ai_addr;
                    size = res.ai_addrlen;
                  }),
                  c.freeaddrinfo w₁,
                )))
  unfolding resolve_or_throw resolve
  resolve_or_throw-total host service w t =
      let (rc, res, w₁) = c.getaddrinfo host service w in
      let clean = t.returns-clean no_error refl in
      elim (ℕ_discrete rc 0) [
        | no r ↦
            let failed =
              t.throws-error (record { value = rc; category = getaddrinfo_category })
                (ground arith) in
            inr (inl (r, ground arith))
        | yes z ↦ elim (dec_le res.ai_addrlen 128) [
          | yes fits ↦ inr (inr (z, fits, ground arith))
          | no big ↦ inl (z, omega arith, ground arith)
        ]
      ]
