-- ===== src/Audio.antt =====
-- src/audio.rs: the order of the packet numbers (`u32`), which wrap around; the children have the engine
-- (`Engine`) and its threads (`Mixer`).
pub mod Engine
pub mod Mixer
use opencord.Base.{ℕ, ◌+◌, ◌-◌, ◌^◌, ◌<◌, ◌≡◌, Bool, true, false, not, ◌&&◌, ◌==◌, ltb, arith}
use Prim.Native.Nat.{◌%◌}

-- `u32::wrapping_sub`
abbrev pub wrapping_sub : ℕ → ℕ → ℕ
wrapping_sub a b = (a + 2 ^ 32 - b) % 2 ^ 32

-- `sequence_is_newer`; u32::MAX / 2 is 2 ^ 31 - 1.
unfoldable pub sequence_is_newer : ℕ → ℕ → Bool
sequence_is_newer sequence previous =
    let difference = wrapping_sub sequence previous in
    not (difference == 0) && ltb difference (2 ^ 31 - 1)

-- A packet up to 2 ^ 31 - 2 steps ahead of another is newer, and the other is not newer than it,
-- also where the number wraps around.
pub sequence_is_newer-add :
    (previous steps : ℕ)
    → previous < 2 ^ 32
    → 0 < steps
    → steps < 2 ^ 31 - 1
    → (sequence_is_newer ((previous + steps) % 2 ^ 32) previous ≡ true)
      × (sequence_is_newer previous ((previous + steps) % 2 ^ 32) ≡ false)
unfolding sequence_is_newer
sequence_is_newer-add previous steps h k l = (ground arith, ground arith)
