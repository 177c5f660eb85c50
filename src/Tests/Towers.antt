-- ===== src/Tests/Towers.antt =====
-- A TLS stream over a buffered stream over a socket.
use neo_io.Prelude.{ℕ, ◌≡◌, false}
use neo_io.Layers.{
  StreamType, plain, layered_over, is_layered, Object, bottom, over, lowest_layer_t, lowest_layer,
  Reaches, Typed, lowest_layer_lem,
}

abbrev tls_type : StreamType
tls_type = layered_over (layered_over (plain 0))

abbrev tls : Object tls_type
tls = over 7 (over 8 (bottom 9))

lowest_layer_lem_example :
    (is_layered (lowest_layer_t tls_type) ≡ false)
    × Reaches (lowest_layer tls) tls_type tls
    × ((n : ℕ) (p : Object (plain n))
        → Reaches p tls_type tls
        → Path Typed (plain n, p) (lowest_layer_t tls_type, lowest_layer tls))
lowest_layer_lem_example = lowest_layer_lem tls_type tls
