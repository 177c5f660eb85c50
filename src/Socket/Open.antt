-- ===== src/Socket/Open.antt =====
-- What `open_connected` of src/neo/io/stream/socket.hpp returns.
use native.Mathlib.Decide.{ℕ_discrete}
use neo_io.Prelude.{
  ◌>>=◌, ℕ, ◌≡◌, ◌≢◌, ◌↔◌, refl, ap, ◌∙◌, true, false, ◌==◌, if◌then◌else◌, none, some, arith, inl,
  inr, passed, ◌⊎◌,
}
use neo_io.Transfer.{ErrorCode, is_error}
use neo_io.Socket.{
  Family, unknown, unspecified, inet, inet6, unixdom, SocketType, Numbers, Address, Calls,
  minus_one, system_error, get_family, af_of, sock_of, connect_created, open_connected,
}

-- The platform gives its address families different numbers.
pub record AreDistinct (k : Numbers) : Type 0 where
  pub inet_inet6 : k.af_inet ≢ k.af_inet6
  pub inet_unix : k.af_inet ≢ k.af_unix
  pub inet_unspec : k.af_inet ≢ k.af_unspec
  pub inet6_unix : k.af_inet6 ≢ k.af_unix
  pub inet6_unspec : k.af_inet6 ≢ k.af_unspec
  pub unix_unspec : k.af_unix ≢ k.af_unspec

-- If `create` finds a number for the family of an address, it is the number that the address
-- carries.
af_of-get_family :
    (k : Numbers) (a : Address) (n : ℕ) → af_of k (get_family k a) ≡ passed n → a.ss_family ≡ n
unfolding af_of get_family
af_of-get_family k a n h = ground arith

-- If the four family numbers of the platform are different, an address that carries the number which
-- `create` finds for a family is of that family.
get_family-af_of :
    (k : Numbers) (f : Family) (a : Address)
    → AreDistinct k
    → af_of k f ≡ passed a.ss_family
    → get_family k a ≡ f
unfolding af_of get_family
get_family-af_of k inet a d h = ground arith
get_family-af_of k inet6 a d h = ground arith
get_family-af_of k unixdom a d h = ground arith
get_family-af_of k unspecified a d h = ground arith
get_family-af_of k unknown a d h = ground arith

-- If the four family numbers of the platform are different: an address is of a known family exactly
-- if it carries the number that `create` finds for that family.
pub get_family_iff :
    (k : Numbers) (f : Family) (a : Address)
    → AreDistinct k
    → f ≢ unknown
    → (af_of k f ≡ passed a.ss_family) ↔ (get_family k a ≡ f)
unfolding af_of get_family
get_family_iff k f a d known = (get_family-af_of k f a d, numbered f a known)
  where
    numbered :
        (f : Family) (a : Address)
        → f ≢ unknown
        → get_family k a ≡ f
        → af_of k f ≡ passed a.ss_family
    numbered inet a n h = ground arith
    numbered inet6 a n h = ground arith
    numbered unixdom a n h = ground arith
    numbered unspecified a n h = ground arith
    numbered unknown a n h = absurd (n refl)

module _ {W : Type 0} (k : Numbers) (c : Calls W) where
  -- The socket that `create` opens for an address of family number `n`, and its connection, before
  -- which the end of what `create` moved it from shuts down the handle -1.
  abbrev pub opened : ℕ → SocketType → W → ℕ × ℕ × W
  opened n typ w = c.open_socket n (sock_of k typ) w

  abbrev pub connected : ℕ → Address → SocketType → W → ℕ × ℕ × W
  connected n addr typ w =
      c.connect_socket (opened n typ w).0 addr (c.shutdown_socket minus_one (opened n typ w).2)

  create_lem :
      (addr : Address) (typ : SocketType) (ec : ErrorCode) (w : W) (n : ℕ)
      → af_of k (get_family k addr) ≡ passed n
      → open_connected k c addr typ ec w
        ≡ passed (
            connect_created k c addr (
              if (opened n typ w).0 == minus_one
              then (none, system_error (opened n typ w).1, (opened n typ w).2)
              else (some (opened n typ w).0, ec, c.shutdown_socket minus_one (opened n typ w).2)))
  unfolding open_connected
  create_lem addr typ ec w n h =
      ap
        (λ f.
          (f >>= λ af_fam.
          let (sockfd, errno, w') = c.open_socket af_fam (sock_of k typ) w in
          passed (
            if sockfd == minus_one
            then (none, system_error errno, w')
            else (some sockfd, ec, c.shutdown_socket minus_one w')))
          >>= λ made. passed (connect_created k c addr made))
        h

  -- Called with an error code that holds no error, for an address of a known family, and provided
  -- the system gives an error number when a connection fails, `open_connected` returns a connected
  -- socket, with the error code as it was, exactly if both system calls succeed. If there is no
  -- socket it reports the system's error, and if there is one and it does not connect it reports
  -- that error and has shut it down and closed it.
  pub open_connected-clean :
      (addr : Address) (typ : SocketType) (ec : ErrorCode) (w : W) (n : ℕ)
      → af_of k (get_family k addr) ≡ passed n
      → is_error ec ≡ false
      → ((connected n addr typ w).0 ≢ 0 → (connected n addr typ w).1 ≢ 0)
      → let (fd, errno, w₁) = opened n typ w in
        let (rc, errno₂, w₂) = connected n addr typ w in
        ((fd ≡ minus_one)
          × (open_connected k c addr typ ec w ≡ passed (none, system_error errno, w₁)))
        ⊎ ((fd ≢ minus_one)
            × (rc ≢ 0)
            × (open_connected k c addr typ ec w
                ≡ passed (none, system_error errno₂, c.close_socket fd (c.shutdown_socket fd w₂))))
        ⊎ ((fd ≢ minus_one)
            × (rc ≡ 0)
            × (open_connected k c addr typ ec w ≡ passed (some fd, ec, w₂)))
  unfolding connect_created
  open_connected-clean addr typ ec w n h clean nz =
      rw (create_lem addr typ ec w n h) (elim (ℕ_discrete (opened n typ w).0 minus_one) [
        | yes bad ↦ inl (bad, ground arith)
        | no fine ↦ elim (ℕ_discrete (connected n addr typ w).0 0) [
          | yes z ↦ inr (inr (fine, z, ground arith))
          | no r ↦ let e = nz r in inr (inl (fine, r, ground arith))
        ]
      ])

  -- Called with an error code that already holds an error, and for an address of a known family,
  -- `open_connected` returns no socket even if both system calls succeed: the socket that it has
  -- connected is shut down and closed again, and the old error stays.
  pub open_connected-stale :
      (addr : Address) (typ : SocketType) (ec : ErrorCode) (w : W) (n : ℕ)
      → af_of k (get_family k addr) ≡ passed n
      → is_error ec ≡ true
      → (opened n typ w).0 ≢ minus_one
      → (connected n addr typ w).0 ≡ 0
      → let fd = (opened n typ w).0 in
        open_connected k c addr typ ec w
        ≡ passed (none, ec, c.close_socket fd (c.shutdown_socket fd (connected n addr typ w).2))
  unfolding connect_created
  open_connected-stale addr typ ec w n h stale fd rc = create_lem addr typ ec w n h ∙ ground arith
