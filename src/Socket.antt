-- ===== src/Socket.antt =====
-- src/neo/io/stream/socket.hpp and src/neo/io/stream/socket.cpp on a Unix system: addresses and
-- sockets. The system calls are parameters, with one state `W` of the system. A socket is its
-- handle. Moves that the compiler may leave out are left out.
pub mod Open
pub mod Throwing
pub mod Errors
pub mod Wsa
pub mod WsaStream
pub mod WsaOverloads
use neo_io.Prelude.{
  ℕ, ◌-◌, ◌==◌, ltb, if◌then◌else◌, Option, none, some, List, take, int_mod, Checked, passed,
  assert_failed, ◌>>=◌,
}
use neo_io.Transfer.{
  ErrorCode, system_category, getaddrinfo_category, no_error, is_error, Outcome, returned, thrown,
}

-- `address::family`, and `socket::type`.
pub data Family : Type 0 where
  unknown unspecified inet inet6 unixdom : Family

pub data SocketType : Type 0 where
  stream datagram : SocketType

-- The platform's numbers.
pub record Numbers : Type 0 where
  pub af_inet : ℕ
  pub af_inet6 : ℕ
  pub af_unix : ℕ
  pub af_unspec : ℕ
  pub sock_stream : ℕ
  pub sock_dgram : ℕ

-- `address`: the bytes of its storage in use, and the `ss_family` that they begin with.
pub record Address : Type 0 where
  pub ss_family : ℕ
  pub storage : List ℕ
  pub size : ℕ

-- What `getaddrinfo` found first: the family that its address begins with, the address, its size.
pub record AddrInfo : Type 0 where
  pub sa_family : ℕ
  pub ai_addr : List ℕ
  pub ai_addrlen : ℕ

-- The calls; a status is a bit pattern of an `int`, -1 or not 0 for a failure, with the error number.
pub record Calls (W : Type 0) : Type 0 where
  pub getaddrinfo : List ℕ → List ℕ → W → ℕ × AddrInfo × W
  pub freeaddrinfo : W → W
  pub open_socket : ℕ → ℕ → W → ℕ × ℕ × W
  pub connect_socket : ℕ → Address → W → ℕ × ℕ × W
  pub shutdown_socket : ℕ → W → W
  pub close_socket : ℕ → W → W

abbrev pub minus_one : ℕ
minus_one = int_mod - 1

abbrev pub system_error : ℕ → ErrorCode
system_error errno = record { value = errno; category = system_category }

module _ (k : Numbers) where
  -- `address::get_family`.
  unfoldable pub get_family : Address → Family
  get_family a =
      if a.ss_family == k.af_inet
      then inet
      else if a.ss_family == k.af_inet6
      then inet6
      else if a.ss_family == k.af_unix
      then unixdom
      else if a.ss_family == k.af_unspec
      then unspecified
      else unknown

  -- The two lambdas of `socket::create`.
  unfoldable pub af_of : Family → Checked ℕ
  af_of inet = passed k.af_inet
  af_of inet6 = passed k.af_inet6
  af_of unixdom = passed k.af_unix
  af_of unspecified = passed k.af_unspec
  af_of unknown = assert_failed

  pub sock_of : SocketType → ℕ
  sock_of stream = k.sock_stream
  sock_of datagram = k.sock_dgram

module _ {W : Type 0} (c : Calls W) where
  -- `address::resolve(host, service, ec)`.
  pub resolve : List ℕ → List ℕ → ErrorCode → W → Checked (Option Address × ErrorCode × W)
  resolve host service ec w =
      let (rc, res, w') = c.getaddrinfo host service w in
      if rc == 0
      then (if ltb 128 res.ai_addrlen
          then assert_failed
          else passed (
            some (record {
              ss_family = res.sa_family;
              storage = take res.ai_addrlen res.ai_addr;
              size = res.ai_addrlen;
            }),
            ec,
            c.freeaddrinfo w',
          ))
      else passed (none, record { value = rc; category = getaddrinfo_category }, w')

  -- The end of a socket: `~socket` shuts it down, and the native stream closes a valid handle.
  pub destroy : ℕ → W → W
  destroy handle w =
      let w' = c.shutdown_socket handle w in
      if handle == minus_one then w' else c.close_socket handle w'

  -- `socket::connect(addr, ec)`.
  pub connect : ℕ → Address → ErrorCode → W → ErrorCode × W
  connect handle addr ec w =
      let (rc, errno, w') = c.connect_socket handle addr w in
      (if rc == 0 then ec else system_error errno, w')

module _ {W : Type 0} (k : Numbers) (c : Calls W) where
  -- `socket::create(fam, typ, ec)`: the handle of the new socket, which is moved into the result. The
  -- end of what it was moved from shuts down the handle -1.
  pub create : Family → SocketType → ErrorCode → W → Checked (Option ℕ × ErrorCode × W)
  unfolding af_of sock_of destroy
  create fam typ ec w = af_of k fam >>= λ af_fam.
      let (sockfd, errno, w') = c.open_socket af_fam (sock_of k typ) w in
      passed (
        if sockfd == minus_one
        then (none, system_error errno, w')
        else (some sockfd, ec, destroy c minus_one w'))

  -- `open_connected` after its call of `create`.
  pub connect_created : Address → Option ℕ × ErrorCode × W → Option ℕ × ErrorCode × W
  unfolding connect destroy
  connect_created addr (none, ec, w) = (none, ec, w)
  connect_created addr (some s, ec, w) =
      let (ec', w') = connect c s addr ec w in
      if is_error ec' then (none, ec', destroy c s w') else (some s, ec', w')

  -- `socket::open_connected(addr, typ, ec)`.
  pub open_connected : Address → SocketType → ErrorCode → W → Checked (Option ℕ × ErrorCode × W)
  unfolding create get_family connect_created
  open_connected addr typ ec w =
      create (get_family k addr) typ ec w >>= λ made. passed (connect_created addr made)
