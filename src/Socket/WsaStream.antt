-- ===== src/Socket/WsaStream.antt =====
-- `wsa_socket_stream` of src/neo/io/stream/socket.hpp and src/neo/io/stream/socket.win.cpp, the Windows
-- socket: its handle, and transfers of one buffer. The calls of Winsock are parameters, with one state
-- `W` of the system.
use neo_io.Prelude.{ℕ, ◌-◌, ◌≡◌, ◌==◌, if◌then◌else◌, size_mod, arith}
use neo_io.Transfer.{NativeTransferResult}
use neo_io.Posix.{Buffer}
use neo_io.Socket.Wsa.{WsaBuf, wsabuf_of}

-- `::WSASend` and `::WSARecv` of one buffer store the count of bytes.
pub record Winsock (W : Type 0) : Type 0 where
  pub shutdown_both : ℕ → W → W
  pub set_last_error : ℕ → W → W
  pub wsa_last_error : W → ℕ
  pub wsa_send : ℕ → WsaBuf → W → ℕ × W
  pub wsa_recv : ℕ → WsaBuf → W → ℕ × W

-- `invalid_native_handle_value`: all ones in 64 bits.
abbrev pub invalid_socket : ℕ
invalid_socket = size_mod - 1

-- A stream is its `_native_handle`.
module _ {W : Type 0} (c : Winsock W) where
  -- `shutdown()`, and the destructor. The handle stays as it is.
  unfoldable pub shutdown : ℕ → W → W
  shutdown handle w = if handle == invalid_socket then w else c.shutdown_both handle w

  -- `reset(sock)`: the stream, and the system. The argument keeps its value.
  unfoldable pub reset : ℕ → ℕ → W → ℕ × W
  unfolding shutdown
  reset handle sock w = (sock, shutdown handle w)

  -- The move constructor: the stream, and what it leaves in the other.
  pub move_construct : ℕ → ℕ × ℕ
  move_construct other = (other, invalid_socket)

  -- The move assignment from another stream: the stream, the other, and the system.
  pub move_assign : ℕ → ℕ → W → ℕ × ℕ × W
  unfolding reset
  move_assign this other w = let (handle, w') = reset this other w in (handle, invalid_socket, w')

  -- The move assignment of a stream to itself, whose handle is exchanged before the reset.
  unfoldable pub self_assign : ℕ → W → ℕ × W
  unfolding reset
  self_assign this w = reset invalid_socket this w

  -- `_do_write_some` and `_do_read_some` of one buffer.
  pub do_write_some : ℕ → Buffer → W → NativeTransferResult × W
  do_write_some handle cbuf w =
      let (nsent, w') = c.wsa_send handle (wsabuf_of cbuf) (c.set_last_error 0 w) in
      (record { bytes_transferred = nsent; errn = c.wsa_last_error w' }, w')

  pub do_read_some : ℕ → Buffer → W → NativeTransferResult × W
  do_read_some handle mbuf w =
      let (nread, w') = c.wsa_recv handle (wsabuf_of mbuf) (c.set_last_error 0 w) in
      (record { bytes_transferred = nread; errn = c.wsa_last_error w' }, w')

  -- Assigned to itself a stream keeps its handle, which is not shut down.
  self_assign-keeps : (this : ℕ) (w : W) → self_assign this w ≡ (this, w)
  unfolding self_assign shutdown
  self_assign-keeps this w = ground arith
