-- ===== src/Native.antt =====
-- src/neo/io/stream/native.hpp over its two bases, src/neo/io/stream/posix.cpp and
-- src/neo/io/stream/win32.cpp: the handle that a native stream owns.
pub mod Ownership
pub mod Standard
use neo_io.Prelude.{
  ℕ, ◌-◌, ◌^◌, Bool, ◌==◌, ltb, if◌then◌else◌, List, [], ◌∷◌, length, get_or, set, int_mod,
  size_mod,
}

-- What a base provides: the value of a handle that is none, and the system's call to close one. A
-- handle is its bit pattern; `W` is the system's state.
pub record Base (W : Type 0) : Type 0 where
  pub invalid : ℕ
  pub sys_close : ℕ → W → W

-- `invalid_native_handle_value` of `posix_fd_stream_base`, -1 as an `int`, and of
-- `win32_handle_stream_base`, all ones as a pointer.
abbrev pub posix_invalid : ℕ
posix_invalid = int_mod - 1

abbrev pub win32_invalid : ℕ
win32_invalid = size_mod - 1

-- A native stream is its `_native_handle`. An object that is passed by reference is returned.
module _ {W : Type 0} (b : Base W) where
  abbrev pub default_stream : ℕ
  default_stream = b.invalid

  -- `close()`, and the destructor.
  unfoldable pub close : ℕ → W → ℕ × W
  close handle w = if handle == b.invalid then (handle, w) else (b.invalid, b.sys_close handle w)

  -- The constructor from a handle: the stream, and what it leaves in the argument.
  pub from_handle : ℕ → ℕ × ℕ
  from_handle handle = (handle, b.invalid)

  -- The move constructor, likewise.
  pub move_construct : ℕ → ℕ × ℕ
  unfolding from_handle
  move_construct other = from_handle other

  -- `release()`: the handle for the caller, and the stream.
  unfoldable pub release : ℕ → ℕ × ℕ
  release handle = (handle, b.invalid)

  -- `reset(hndl)`: the stream, what it leaves in the argument, and the system.
  unfoldable pub reset : ℕ → ℕ → W → ℕ × ℕ × W
  unfolding close
  reset handle hndl w = let (_, w') = close handle w in (hndl, b.invalid, w')

  pub from_native_handle : ℕ → W → ℕ × ℕ × W
  unfolding reset
  from_native_handle hndl w = reset default_stream hndl w

-- A program's streams, in slots, and the handles that `release` has given back to it.
pub record Streams (W : Type 0) : Type 0 where
  pub slots : List ℕ
  pub released : List ℕ
  pub system : W

-- What a program does with its streams: it makes one, resets one to a handle of its own, moves one
-- onto another or onto itself, releases one, or closes or destroys one.
pub data Op : Type 0 where
  make : Op
  resets : ℕ → ℕ → Op
  moves : ℕ → ℕ → Op
  releases : ℕ → Op
  closes : ℕ → Op

module _ {W : Type 0} (b : Base W) where
  -- `slots[i] = std::move(slots[j])`: `reset(other.release())`, in that order, also where both are
  -- one object.
  pub move_assign : ℕ → ℕ → Streams W → Streams W
  unfolding release reset
  move_assign i j s =
      let (handle, other) = release b (get_or s.slots j b.invalid) in
      let after_release = set s.slots j other in
      let (this, _, w) = reset b (get_or after_release i b.invalid) handle s.system in
      record s { slots = set after_release i this; system = w }

  pub reset_slot : ℕ → ℕ → Streams W → Streams W
  unfolding reset
  reset_slot i handle s =
      let (this, _, w) = reset b (get_or s.slots i b.invalid) handle s.system in
      record s { slots = set s.slots i this; system = w }

  pub release_slot : ℕ → Streams W → Streams W
  unfolding release
  release_slot i s =
      let (handle, this) = release b (get_or s.slots i b.invalid) in
      record s { slots = set s.slots i this; released = handle ∷ s.released }

  pub close_slot : ℕ → Streams W → Streams W
  unfolding close
  close_slot i s =
      let (this, w) = close b (get_or s.slots i b.invalid) s.system in
      record s { slots = set s.slots i this; system = w }

  -- One operation; one on a stream that does not exist is none.
  pub step : Op → Streams W → Streams W
  unfolding move_assign reset_slot release_slot close_slot
  step make s = record s { slots = default_stream b ∷ s.slots }
  step (resets i handle) s = if ltb i (length s.slots) then reset_slot i handle s else s
  step (moves i j) s =
      if ltb i (length s.slots)
      then (if ltb j (length s.slots) then move_assign i j s else s)
      else s
  step (releases i) s = if ltb i (length s.slots) then release_slot i s else s
  step (closes i) s = if ltb i (length s.slots) then close_slot i s else s

  pub run : List Op → Streams W → Streams W
  run [] s = s
  run (o ∷ os) s = run os (step o s)
