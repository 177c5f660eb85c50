-- ===== src/Tests/WindowsSockets.antt =====
-- Transfers of a Windows socket.
use neo_io.Prelude.{ℕ, ◌+◌, ◌≡◌, some, none, List, [], ◌∷◌}
use neo_io.Posix.{Buffer}
use neo_io.Posix.Overloads.{const_buffer, mutable_buffer, buffers, mutable_area, areas}
use neo_io.Socket.Wsa.{WsaBuf, prep_wsabufs_arr}
use neo_io.Socket.WsaStream.{Winsock, do_write_some, do_read_some}
use neo_io.Socket.WsaOverloads.{DoArray, write_some, read_some, transfers_lem}

-- A system that moves all bytes; its state is their number.
abbrev toy_winsock : Winsock ℕ
toy_winsock = record {
  shutdown_both = λ h w. w;
  set_last_error = λ e w. w;
  wsa_last_error = λ w. 0;
  wsa_send = λ h buf w. (buf.len, w + buf.len);
  wsa_recv = λ h buf w. (buf.len, w + buf.len);
}

-- A call for `n` buffers.
abbrev toy_array : DoArray ℕ
toy_array arr n w = (record { bytes_transferred = n; errn = 0 }, w)

abbrev entries : List WsaBuf
entries = record { len = 0; buf = 0 } ∷ []

abbrev area : Buffer
area = record { address = 16; size = 3 }

transfers_lem_example :
    let arr' = (prep_wsabufs_arr entries (area ∷ [])).0 in
    (write_some toy_winsock 4 toy_array 9 (const_buffer area) entries 7
      ≡ some (do_write_some toy_winsock 4 area 7))
    × (read_some toy_winsock 4 toy_array (mutable_area area) entries 7
        ≡ do_read_some toy_winsock 4 area 7)
    × (write_some toy_winsock 4 toy_array 9 (mutable_buffer area) entries 7 ≡ none)
    × (write_some toy_winsock 4 toy_array 9 (buffers (area ∷ [])) entries 7
        ≡ some (toy_array arr' 0 7))
    × (read_some toy_winsock 4 toy_array (areas (area ∷ [])) entries 7 ≡ toy_array arr' 0 7)
transfers_lem_example = transfers_lem toy_winsock 4 toy_array toy_array 9 area (area ∷ []) entries 7
