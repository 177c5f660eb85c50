-- ===== src/Ssl/Context.antt =====
-- src/neo/io/openssl/context.hpp and src/neo/io/openssl/context.cpp: how a context is made for a
-- protocol and a role. OpenSSL's calls are parameters, and so is what the preprocessor decides.
pub mod Versions
use neo_io.Prelude.{ℕ, Bool, ◌==◌, if◌then◌else◌, to_int}
use neo_io.Transfer.{ErrorCode, generic_category, ssl_category, Outcome, returned, thrown}

pub data Protocol : Type 0 where
  ssl_v2 ssl_v3 tls_v1 tls_v1_1 tls_v1_2 tls_v1_3 ssl_any tls_any : Protocol

pub data Role : Type 0 where
  both client server : Role

-- What the `#if` lines ask of the OpenSSL in use.
pub record Config : Type 0 where
  pub at_least_1_1_0 : Bool
  pub at_least_1_1_1 : Bool
  pub no_ssl2 : Bool
  pub no_ssl3 : Bool
  pub txt_tlsv1 : Bool
  pub txt_tlsv1_1 : Bool
  pub txt_tlsv1_2 : Bool

-- The prefix of a method function, and its suffix.
pub data Prefix : Type 0 where
  sslv2_method sslv3_method tlsv1_method tlsv1_1_method tlsv1_2_method tls_method : Prefix
  sslv23_method : Prefix

pub data Suffix : Type 0 where
  generic_method client_method server_method : Suffix

-- The protocol versions by their OpenSSL names.
pub data Version : Type 0 where
  ssl3_version tls1_version tls1_1_version tls1_2_version tls1_3_version : Version

-- What is done with a context that was made: nothing, both bounds set to a version, the lower bound
-- set, or the options that switch the SSL protocols off.
pub data Pin : Type 0 where
  unpinned : Pin
  exactly : Version → Pin
  at_least : Version → Pin
  no_ssl : Pin

pub data Plan : Type 0 where
  unsupported : Plan
  load : Prefix → Pin → Plan

-- The suffix that `LOAD_METHOD` appends.
pub suffix_of : Role → Suffix
suffix_of server = server_method
suffix_of client = client_method
suffix_of both = generic_method

-- The `switch` of the constructor.
unfoldable pub plan : Config → Protocol → Plan
plan g ssl_v2 =
    if g.at_least_1_1_0
    then unsupported
    else if g.no_ssl2
    then unsupported
    else load sslv2_method unpinned
plan g ssl_v3 =
    if g.at_least_1_1_0
    then load tls_method (exactly ssl3_version)
    else if g.no_ssl3
    then unsupported
    else load sslv3_method unpinned
plan g tls_v1 =
    if g.at_least_1_1_0
    then load tls_method (exactly tls1_version)
    else if g.txt_tlsv1
    then load tlsv1_method unpinned
    else unsupported
plan g tls_v1_1 =
    if g.at_least_1_1_0
    then load tlsv1_method (exactly tls1_1_version)
    else if g.txt_tlsv1_1
    then load tlsv1_1_method unpinned
    else unsupported
plan g tls_v1_2 =
    if g.at_least_1_1_0
    then load tls_method (exactly tls1_2_version)
    else if g.txt_tlsv1_2
    then load tlsv1_2_method unpinned
    else unsupported
plan g tls_v1_3 = if g.at_least_1_1_1 then load tls_method (exactly tls1_3_version) else unsupported
plan g ssl_any = load sslv23_method unpinned
plan g tls_any =
    if g.at_least_1_1_0 then load tls_method (at_least tls1_version) else load sslv23_method no_ssl

-- The calls; a pointer is a number, 0 for a null pointer.
pub record ContextCalls (W : Type 0) : Type 0 where
  pub ctx_new : Prefix → Suffix → W → ℕ × W
  pub set_min_proto_version : ℕ → Version → W → W
  pub set_max_proto_version : ℕ → Version → W → W
  pub set_no_ssl_options : ℕ → W → W
  pub ctx_free : ℕ → W → W
  pub err_get_error : W → ℕ × W

-- `std::errc::protocol_not_supported`, with Linux's number.
abbrev pub protocol_not_supported : ErrorCode
protocol_not_supported = record { value = 93; category = generic_category }

module _ {W : Type 0} (c : ContextCalls W) where
  -- What follows LOAD_METHOD, on a context that is not null.
  unfoldable pub pin : Pin → ℕ → W → W
  pin unpinned ptr w = w
  pin (exactly v) ptr w = c.set_max_proto_version ptr v (c.set_min_proto_version ptr v w)
  pin (at_least v) ptr w = c.set_min_proto_version ptr v w
  pin no_ssl ptr w = c.set_no_ssl_options ptr w

  unfoldable pub execute : Plan → Role → W → Outcome ℕ × W
  unfolding pin suffix_of
  execute unsupported rl w = (thrown protocol_not_supported, w)
  execute (load prefix p) rl w =
      let (ptr, w₁) = c.ctx_new prefix (suffix_of rl) w in
      let (code, w₂) = c.err_get_error w₁ in
      if ptr == 0
      then (thrown (record { value = to_int code; category = ssl_category }), w₂)
      else (returned ptr, pin p ptr w₁)

  -- The constructor `context(pr, rl)`: the pointer of the new context, or what it throws.
  unfoldable pub construct : Config → Protocol → Role → W → Outcome ℕ × W
  unfolding execute plan
  construct g pr rl w = execute (plan g pr) rl w

  -- `_close()`: the pointer afterwards.
  unfoldable pub close : ℕ → W → ℕ × W
  close ptr w = if ptr == 0 then (0, w) else (0, c.ctx_free ptr w)
