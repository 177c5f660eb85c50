-- ===== src/Ssl/Ownership/Ledger.antt =====
-- What the pointers of src/neo/io/openssl/engine.hpp and context.hpp own, and how OpenSSL's calls free
-- it.
use neo_io.Prelude.{ℕ, ◌+◌, ◌≡◌, ◌≢◌, refl, one_if, arith}
use neo_io.Transfer.{Outcome, returned, thrown}
use neo_io.Ssl.Context.{ContextCalls, Prefix, Suffix, Version}
use neo_io.Ssl.Ownership.{Mode, Pointers, EngineCalls}

-- What a pointer may own: a context, an SSL object with its inner BIO, or an outer BIO.
pub data Resource : Type 0 where
  context_at ssl_at bio_at : ℕ → Resource

abbrev pub address : Resource → ℕ
address (context_at h) = h
address (ssl_at h) = h
address (bio_at h) = h

-- How often a pointer to a context, an SSL object or a BIO is one to the resource.
abbrev pub as_context : Resource → ℕ → ℕ
as_context (context_at h) x = one_if h x
as_context (ssl_at h) x = 0
as_context (bio_at h) x = 0

abbrev pub as_ssl : Resource → ℕ → ℕ
as_ssl (context_at h) x = 0
as_ssl (ssl_at h) x = one_if h x
as_ssl (bio_at h) x = 0

abbrev pub as_bio : Resource → ℕ → ℕ
as_bio (context_at h) x = 0
as_bio (ssl_at h) x = 0
as_bio (bio_at h) x = one_if h x

abbrev pub owns : Resource → Pointers → ℕ
owns r this = as_ssl r this.ssl + as_bio r this.bio

-- How often a constructor acquired the resource.
abbrev pub new_context : {W : Type 0} → Resource → Outcome ℕ × W → ℕ
new_context r (returned ptr, w) = as_context r ptr
new_context r (thrown err, w) = 0

abbrev pub new_engine : {W : Type 0} → Resource → Outcome Pointers × W → ℕ
new_engine r (returned this, w) = owns r this
new_engine r (thrown err, w) = 0

-- The calls that free count what they free; the others free nothing.
pub record IsLedger {W : Type 0} (c : ContextCalls W) (e : EngineCalls W) (freed : Resource → W → ℕ)
    : Type 0 where
  pub ctx_free-counts :
      (r : Resource) (x : ℕ) (w : W) → freed r (c.ctx_free x w) ≡ as_context r x + freed r w
  pub ssl_free-counts :
      (r : Resource) (x : ℕ) (w : W) → freed r (e.ssl_free x w) ≡ as_ssl r x + freed r w
  pub bio_free-counts :
      (r : Resource) (x : ℕ) (w : W) → freed r (e.bio_free x w) ≡ as_bio r x + freed r w
  pub ctx_new-frees :
      (r : Resource) (p : Prefix) (s : Suffix) (w : W) → freed r (c.ctx_new p s w).1 ≡ freed r w
  pub min_version-frees :
      (r : Resource) (x : ℕ) (v : Version) (w : W)
      → freed r (c.set_min_proto_version x v w) ≡ freed r w
  pub max_version-frees :
      (r : Resource) (x : ℕ) (v : Version) (w : W)
      → freed r (c.set_max_proto_version x v w) ≡ freed r w
  pub options-frees :
      (r : Resource) (x : ℕ) (w : W) → freed r (c.set_no_ssl_options x w) ≡ freed r w
  pub error-frees : (r : Resource) (w : W) → freed r (c.err_get_error w).1 ≡ freed r w
  pub ssl_new-frees : (r : Resource) (x : ℕ) (w : W) → freed r (e.ssl_new x w).1 ≡ freed r w
  pub mode-frees :
      (r : Resource) (x : ℕ) (m : Mode) (w : W) → freed r (e.set_mode x m w) ≡ freed r w
  pub pair-frees : (r : Resource) (w : W) → freed r (e.bio_new_bio_pair w).1 ≡ freed r w
  pub set_bio-frees : (r : Resource) (x i o : ℕ) (w : W) → freed r (e.set_bio x i o w) ≡ freed r w

-- A null pointer owns nothing.
pub as_context-null : (r : Resource) → address r ≢ 0 → as_context r 0 ≡ 0
as_context-null (context_at h) n = ground arith
as_context-null (ssl_at h) n = refl
as_context-null (bio_at h) n = refl

pub as_ssl-null : (r : Resource) → address r ≢ 0 → as_ssl r 0 ≡ 0
as_ssl-null (context_at h) n = refl
as_ssl-null (ssl_at h) n = ground arith
as_ssl-null (bio_at h) n = refl

pub as_bio-null : (r : Resource) → address r ≢ 0 → as_bio r 0 ≡ 0
as_bio-null (context_at h) n = refl
as_bio-null (ssl_at h) n = refl
as_bio-null (bio_at h) n = ground arith
