-- ===== src/File/Table.antt =====
-- Statements about every set of flags, checked by evaluation on the 256 sets.
use neo_io.Prelude.{ℕ, zero, suc, ◌≡◌, refl, ap, Bool, true, false, not, ◌&&◌, arith}
use neo_io.File.{OpenMode, Checked, passed, assert_failed}

-- A test of `n` flags, and `n` flags.
abbrev Test : ℕ → Type 0
Test zero = Bool
Test (suc n) = Bool → Test n

abbrev Flags : ℕ → Type 0
Flags zero = Unit {0}
Flags (suc n) = Bool × Flags n

abbrev apply : (n : ℕ) → Test n → Flags n → Bool
apply zero t f = t
apply (suc n) t (b, f) = apply n (t b) f

all_flags : (n : ℕ) → Test n → Bool
all_flags zero t = t
all_flags (suc n) t = all_flags n (t true) && all_flags n (t false)

all_flags_sound : (n : ℕ) (t : Test n) → all_flags n t ≡ true → (f : Flags n) → apply n t f ≡ true
unfolding all_flags
all_flags_sound zero t h f = h
all_flags_sound (suc n) t h (true, f) = all_flags_sound n (t true) (ground arith) f
all_flags_sound (suc n) t h (false, f) = all_flags_sound n (t false) (ground arith) f

abbrev test_of : (OpenMode → Bool) → Test 8
test_of p a b c d e f g h = p (record {
  read = a;
  write = b;
  append = c;
  create = d;
  create_exclusive = e;
  no_create = f;
  no_trunc = g;
  trunc = h;
})

unfoldable pub all_modes : (OpenMode → Bool) → Bool
unfolding all_flags
all_modes p = all_flags 8 (test_of p)

-- A test that passes on the 256 sets passes on each.
pub all_modes_sound : (p : OpenMode → Bool) → all_modes p ≡ true → (m : OpenMode) → p m ≡ true
unfolding all_modes
all_modes_sound p t m = all_flags_sound 8 (test_of p) t (
  m.read,
  (
    m.write,
    (m.append, (m.create, (m.create_exclusive, (m.no_create, (m.no_trunc, (m.trunc, tt)))))),
  ),
)

-- Equality of flags, and of the results of `default_open_flags`.
abbrev pub same : Bool → Bool → Bool
same true b = b
same false b = not b

pub same→eq : (a b : Bool) → same a b ≡ true → a ≡ b
same→eq true b h = ground arith
same→eq false b h = ground arith

pub same_mode : OpenMode → OpenMode → Bool
same_mode m n =
    same m.read n.read
    && (same m.write n.write
        && (same m.append n.append
            && (same m.create n.create
                && (same m.create_exclusive n.create_exclusive
                    && (same m.no_create n.no_create
                        && (same m.no_trunc n.no_trunc && same m.trunc n.trunc))))))

unfoldable pub same_checked : Checked OpenMode → Checked OpenMode → Bool
unfolding same_mode
same_checked (passed m) (passed n) = same_mode m n
same_checked assert_failed assert_failed = true
same_checked _ _ = false

pub same_mode→eq : (m n : OpenMode) → same_mode m n ≡ true → m ≡ n
unfolding same_mode
same_mode→eq m n h = ground arith

pub same_checked→eq : (a b : Checked OpenMode) → same_checked a b ≡ true → a ≡ b
unfolding same_checked
same_checked→eq (passed m) (passed n) h = ap passed (same_mode→eq m n h)
same_checked→eq assert_failed assert_failed h = refl
same_checked→eq (passed m) assert_failed h = cc
same_checked→eq assert_failed (passed n) h = cc
