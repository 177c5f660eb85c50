-- ===== src/Ssl/Context/Versions.antt =====
-- Which protocol versions a context of src/neo/io/openssl/context.cpp is made for.
use neo_io.Prelude.{ℕ, ◌≡◌, ◌≢◌, ◌↔◌, ◌∙◌, ap, ◌==◌, refl, true, false, arith, Option, none, some}
use neo_io.Transfer.{returned}
use neo_io.Ssl.Context.{
  Protocol, ssl_v2, ssl_v3, tls_v1, tls_v1_1, tls_v1_2, tls_v1_3, ssl_any, tls_any, Role, Config,
  tlsv1_method, tls_method, Version, ssl3_version, tls1_version, tls1_1_version, tls1_2_version,
  tls1_3_version, exactly, Plan, unsupported, load, plan, ContextCalls, execute, construct, pin,
  Suffix, suffix_of,
}

-- The one version that a protocol names.
abbrev pub version_of : Protocol → Option Version
version_of ssl_v3 = some ssl3_version
version_of tls_v1 = some tls1_version
version_of tls_v1_1 = some tls1_1_version
version_of tls_v1_2 = some tls1_2_version
version_of tls_v1_3 = some tls1_3_version
version_of ssl_v2 = none
version_of ssl_any = none
version_of tls_any = none

-- The plan for one version, but TLS 1.1: the method that negotiates all versions, and both bounds.
plan-exactly :
    (g : Config) (pr : Protocol) (v : Version)
    → g.at_least_1_1_0 ≡ true
    → g.at_least_1_1_1 ≡ true
    → pr ≢ tls_v1_1
    → version_of pr ≡ some v
    → plan g pr ≡ load tls_method (exactly v)
unfolding plan
plan-exactly g ssl_v2 v a b ne e = cc
plan-exactly g ssl_v3 v a b ne e = ground arith
plan-exactly g tls_v1 v a b ne e = ground arith
plan-exactly g tls_v1_1 v a b ne e = absurd (ne refl)
plan-exactly g tls_v1_2 v a b ne e = ground arith
plan-exactly g tls_v1_3 v a b ne e = ground arith
plan-exactly g ssl_any v a b ne e = cc
plan-exactly g tls_any v a b ne e = cc

-- The documented behaviour of the calls that bound the version. `IsGeneral ptr w`: the context was made
-- by the method that negotiates all versions. For such a context a call that names an offered
-- version sets its bound and leaves the other as it is. `bounds ptr w` are the lower and the upper
-- bound.
pub record BoundsVersions {W : Type 0} (c : ContextCalls W) (IsGeneral : ℕ → W → Type 0)
    (IsOffered : Version → Type 0) (bounds : ℕ → W → Option Version × Option Version) : Type 0 where
  pub new-general :
      (s : Suffix) (w : W)
      → (c.ctx_new tls_method s w).0 ≢ 0
      → IsGeneral (c.ctx_new tls_method s w).0 (c.ctx_new tls_method s w).1
  pub min-general :
      (ptr : ℕ) (v : Version) (w : W)
      → IsGeneral ptr w
      → IsGeneral ptr (c.set_min_proto_version ptr v w)
  pub bounds-min :
      (ptr : ℕ) (v : Version) (w : W)
      → IsGeneral ptr w
      → IsOffered v
      → bounds ptr (c.set_min_proto_version ptr v w) ≡ (some v, (bounds ptr w).1)
  pub bounds-max :
      (ptr : ℕ) (v : Version) (w : W)
      → IsGeneral ptr w
      → IsOffered v
      → bounds ptr (c.set_max_proto_version ptr v w) ≡ ((bounds ptr w).0, some v)

module _ {W : Type 0} (c : ContextCalls W) {IsGeneral : ℕ → W → Type 0}
    {IsOffered : Version → Type 0} {bounds : ℕ → W → Option Version × Option Version}
    (bl : BoundsVersions c IsGeneral IsOffered bounds) where
  pin-bounds :
      (v : Version) (ptr : ℕ) (w : W)
      → IsGeneral ptr w
      → IsOffered v
      → bounds ptr (pin c (exactly v) ptr w) ≡ (some v, some v)
  unfolding pin
  pin-bounds v ptr w general offered =
      bl.bounds-max ptr v (c.set_min_proto_version ptr v w) (bl.min-general ptr v w general) offered
      ∙ ap (λ b. (b.0, some v)) (bl.bounds-min ptr v w general offered)

  -- With OpenSSL 1.1.1 or later, if it bounds versions as documented: for a protocol that names one
  -- version, but TLS 1.1, which OpenSSL offers, the constructor of either role returns the context
  -- that `SSL_CTX_new` made, unless that is null, and its lower and its upper bound are both the
  -- version that the protocol names.
  pub construct-pins :
      (g : Config) (pr : Protocol) (rl : Role) (v : Version) (w : W)
      → g.at_least_1_1_0 ≡ true
      → g.at_least_1_1_1 ≡ true
      → pr ≢ tls_v1_1
      → version_of pr ≡ some v
      → IsOffered v
      → (c.ctx_new tls_method (suffix_of rl) w).0 ≢ 0
      → let ptr = (c.ctx_new tls_method (suffix_of rl) w).0 in
        ((construct c g pr rl w).0 ≡ returned ptr)
        × (bounds ptr (construct c g pr rl w).1 ≡ (some v, some v))
  unfolding construct execute
  construct-pins g pr rl v w a b ne e offered made =
      let not_null : ((c.ctx_new tls_method (suffix_of rl) w).0 == 0) ≡ false = ground arith in
      rw (plan-exactly g pr v a b ne e, not_null)
        (refl, pin-bounds v _ _ (bl.new-general (suffix_of rl) w made) offered)

-- TLS 1.1 alone is made with the method for TLS 1.0 only and pinned to a version: on OpenSSL 1.1.0
-- or later a plan pins a version on the TLS 1.0 method exactly for `tls_v1_1`, and that version is
-- TLS 1.1.
pub plan-tls_v1_1 :
    (g : Config) (pr : Protocol) (v : Version)
    → g.at_least_1_1_0 ≡ true
    → (plan g pr ≡ load tlsv1_method (exactly v)) ↔ (pr ≡ tls_v1_1) × (v ≡ tls1_1_version)
unfolding plan
plan-tls_v1_1 g pr v a = (only g pr v a, λ (e, f). rw (e, f) (this g a))
  where
    only :
        (g : Config) (pr : Protocol) (v : Version)
        → g.at_least_1_1_0 ≡ true
        → plan g pr ≡ load tlsv1_method (exactly v)
        → (pr ≡ tls_v1_1) × (v ≡ tls1_1_version)
    only g ssl_v2 v a e = ground arith
    only g ssl_v3 v a e = ground arith
    only g tls_v1 v a e = ground arith
    only g tls_v1_1 v a e = ground arith
    only g tls_v1_2 v a e = ground arith
    only g tls_v1_3 v a e = ground arith
    only g ssl_any v a e = ground arith
    only g tls_any v a e = ground arith

    this :
        (g : Config)
        → g.at_least_1_1_0 ≡ true
        → plan g tls_v1_1 ≡ load tlsv1_method (exactly tls1_1_version)
    this g a = rw a

module _ {W : Type 0} (c : ContextCalls W) where
  -- The constructor throws or returns a context that is not null, for every protocol and role.
  pub construct-ne-null :
      (g : Config) (pr : Protocol) (rl : Role) (w : W) (ptr : ℕ)
      → (construct c g pr rl w).0 ≡ returned ptr
      → ptr ≢ 0
  unfolding construct
  construct-ne-null g pr rl w ptr h = made (plan g pr) h
    where
      made : (q : Plan) → (execute c q rl w).0 ≡ returned ptr → ptr ≢ 0
      made unsupported h z = cc
      made (load prefix p) h z = ground arith
