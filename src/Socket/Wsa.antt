-- ===== src/Socket/Wsa.antt =====
-- `wsa_socket_stream` of src/neo/io/stream/socket.hpp, the Windows socket: how it prepares a vectored
-- transfer.
use neo_io.Prelude.{ℕ, ◌%◌, ◌^◌, ◌≡◌, refl, List, [], ◌∷◌}
use neo_io.Posix.{Buffer}

-- `wsabuf`; the length is a `std::uint32_t`.
pub record WsaBuf : Type 0 where
  pub len : ℕ
  pub buf : ℕ

abbrev pub wsabuf_of : Buffer → WsaBuf
wsabuf_of b = record { len = b.size % 2 ^ 32; buf = b.address }

-- The loop of `_prep_wsabufs_arr`, with `n_bufs`, which it returns beside the array.
pub prep_from : List WsaBuf → List Buffer → ℕ → List WsaBuf × ℕ
prep_from arr [] n_bufs = (arr, n_bufs)
prep_from [] (b ∷ bufs) n_bufs = ([], n_bufs)
prep_from (v ∷ arr) (b ∷ bufs) n_bufs =
    let (rest, n) = prep_from arr bufs n_bufs in (wsabuf_of b ∷ rest, n)

pub prep_wsabufs_arr : List WsaBuf → List Buffer → List WsaBuf × ℕ
unfolding prep_from
prep_wsabufs_arr arr bufs = prep_from arr bufs 0

-- The loop counts nothing: whatever the buffers, a vectored transfer is started over no buffer.
pub prep_wsabufs_arr-count :
    (arr : List WsaBuf) (bufs : List Buffer) → (prep_wsabufs_arr arr bufs).1 ≡ 0
unfolding prep_wsabufs_arr
prep_wsabufs_arr-count arr bufs = counted arr bufs
  where
    counted : (arr : List WsaBuf) (bufs : List Buffer) → (prep_from arr bufs 0).1 ≡ 0
    counted arr [] = refl
    counted [] (b ∷ bufs) = refl
    counted (v ∷ arr) (b ∷ bufs) = counted arr bufs
