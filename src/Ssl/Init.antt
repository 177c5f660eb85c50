-- ===== src/Ssl/Init.antt =====
-- `openssl_app_init` of src/neo/io/openssl/init.hpp and src/neo/io/openssl/init.cpp. OpenSSL's calls are
-- parameters, with one state `W` of the library.
use neo_io.Prelude.{
  ℕ, ◌+◌, ◌-◌, ◌<◌, ◌≡◌, refl, ◌∙◌, Bool, true, false, ◌&&◌, ltb, List, [], ◌∷◌, arith,
}

pub record InitCalls (W : Type 0) : Type 0 where
  pub ssl_library_init : W → W
  pub ssl_load_error_strings : W → W
  pub openssl_add_all_algorithms : W → W
  pub evp_cleanup : W → W
  pub crypto_cleanup_all_ex_data : W → W
  pub err_free_strings : W → W

-- The objects of a program that live, by their number, and the library.
pub record App (W : Type 0) : Type 0 where
  pub alive : ℕ
  pub system : W

-- A program makes an object, or one that lives ends.
pub data Op : Type 0 where
  starts ends : Op

module _ {W : Type 0} (c : InitCalls W) where
  -- The constructor, and the destructor.
  unfoldable pub construct : W → W
  construct w = c.openssl_add_all_algorithms (c.ssl_load_error_strings (c.ssl_library_init w))

  unfoldable pub destroy : W → W
  destroy w = c.err_free_strings (c.crypto_cleanup_all_ex_data (c.evp_cleanup w))

  unfoldable pub step : Op → App W → App W
  unfolding construct destroy
  step starts s = record { alive = s.alive + 1; system = construct s.system }
  step ends s = record { alive = s.alive - 1; system = destroy s.system }

  pub run : List Op → App W → App W
  run [] s = s
  run (o ∷ os) s = run os (step o s)

-- What each call is documented to add or to free, of the algorithms and of the error strings.
pub record Loads {W : Type 0} (c : InitCalls W) (strings algorithms : W → Bool) : Type 0 where
  pub algorithms-add : (w : W) → algorithms (c.openssl_add_all_algorithms w) ≡ true
  pub strings-load : (w : W) → strings (c.ssl_load_error_strings w) ≡ true
  pub strings-add : (w : W) → strings (c.openssl_add_all_algorithms w) ≡ strings w
  pub strings-free : (w : W) → strings (c.err_free_strings w) ≡ false

module _ {W : Type 0} {c : InitCalls W} {strings algorithms : W → Bool}
    (l : Loads c strings algorithms) where
  -- The error strings and the algorithms are there.
  abbrev pub ready : W → Bool
  ready w = strings w && algorithms w

  construct-ready : (w : W) → ready (construct c w) ≡ true
  unfolding construct
  construct-ready w =
      let w' : W = c.ssl_load_error_strings (c.ssl_library_init w) in
      rw (l.strings-add w', l.strings-load (c.ssl_library_init w), l.algorithms-add w') refl

  destroy-ready : (w : W) → ready (destroy c w) ≡ false
  unfolding destroy
  destroy-ready w = rw (l.strings-free (c.crypto_cleanup_all_ex_data (c.evp_cleanup w))) refl

  -- A program in which an object is made only if none lives, and ends only if it is the only one.
  abbrev pub Apart : List Op → App W → Type 0
  Apart [] s = Unit {0}
  Apart (starts ∷ os) s = (s.alive ≡ 0) × Apart os (step c starts s)
  Apart (ends ∷ os) s = (s.alive ≡ 1) × Apart os (step c ends s)

  -- With the calls as documented, OpenSSL has its strings and algorithms exactly while an object
  -- lives, over any program whose objects live one after the other, if so at its beginning.
  pub run-ready :
      (os : List Op) (s : App W)
      → Apart os s
      → ready s.system ≡ ltb 0 s.alive
      → ready (run c os s).system ≡ ltb 0 (run c os s).alive
  unfolding run step
  run-ready [] s apart r = r
  run-ready (starts ∷ os) s (none, apart) r =
      run-ready os (step c starts s) apart (construct-ready s.system ∙ (rw none refl))
  run-ready (ends ∷ os) s (one, apart) r =
      run-ready os (step c ends s) apart (destroy-ready s.system ∙ (rw one refl))

  -- Where two objects live at once, the end of one takes the strings and the algorithms from the
  -- other.
  step-not_ready :
      (s : App W)
      → 1 < s.alive
      → (0 < (step c ends s).alive) × (ready (step c ends s).system ≡ false)
  unfolding step
  step-not_ready s two = (omega (arith, two), destroy-ready s.system)
