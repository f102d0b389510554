-- ===== src/SplashScreen/Buffers.antt =====
-- The buffers of the two screens (src/main.cpp, `SplashScreen`).
use custom_rpxloader.Base.{
  ℕ, ◌+◌, ◌^◌, ◌<◌, ◌≡◌, ◌≢◌, Bool, true, false, ◌&&◌, ◌||◌, Option, none, some, List, [], ◌∷◌, leb,
  ◌==◌, arith, nonzero,
}
use custom_rpxloader.Machine.{add32}
use custom_rpxloader.Reader.{Text}
use custom_rpxloader.SplashScreen.{
  Screen, screen_tv, screen_drc, ScreenCall, os_screen_init, allocate, set_buffer, enable,
  clear_buffer, put_font, flip_buffers, sleep_ticks, release, splash_screen,
}

-- What the system knows: the block that is allocated, and of each screen its buffer and whether it
-- is on.
pub record Display : Type 0 where
  pub block : Option (ℕ × ℕ)
  pub tv : Option ℕ
  pub drc : Option ℕ
  pub tv_on : Bool
  pub drc_on : Bool

abbrev pub dark : Display
dark = record { block = none; tv = none; drc = none; tv_on = false; drc_on = false }

-- A buffer of `size` bytes lies in the block.
abbrev in_block : Option (ℕ × ℕ) → ℕ → ℕ → Bool
in_block none address size = false
in_block (some (start, length)) address size =
    leb start address && leb (address + size) (start + length)

-- The two buffers have no byte in common.
abbrev is_apart : Option ℕ → ℕ → ℕ → ℕ → Bool
is_apart none other_size address size = true
is_apart (some other) other_size address size =
    leb (other + other_size) address || leb (address + size) other

abbrev has_buffer : Option ℕ → Bool
has_buffer none = false
has_buffer (some address) = true

abbrev is_ready : Screen → Display → Bool
is_ready screen_tv d = d.tv_on && has_buffer d.tv
is_ready screen_drc d = d.drc_on && has_buffer d.drc

abbrev only_if : Bool → Display → Option Display
only_if true d = some d
only_if false d = none

-- One call; `none` is a buffer outside the block or over the other one, a screen that is drawn on
-- without a buffer or while it is off, or the release of another block.
abbrev pub accept : (Screen → ℕ) → ScreenCall → Display → Option Display
accept buffer_size os_screen_init d = some d
accept buffer_size (allocate alignment size address) d =
    only_if (nonzero address) (record d { block = some (address, size) })
accept buffer_size (set_buffer screen_tv address) d =
    only_if
      (in_block d.block address (buffer_size screen_tv)
        && is_apart d.drc (buffer_size screen_drc) address (buffer_size screen_tv))
      (record d { tv = some address })
accept buffer_size (set_buffer screen_drc address) d =
    only_if
      (in_block d.block address (buffer_size screen_drc)
        && is_apart d.tv (buffer_size screen_tv) address (buffer_size screen_drc))
      (record d { drc = some address })
accept buffer_size (enable screen_tv on) d = some (record d { tv_on = nonzero on })
accept buffer_size (enable screen_drc on) d = some (record d { drc_on = nonzero on })
accept buffer_size (clear_buffer screen color) d = only_if (is_ready screen d) d
accept buffer_size (put_font screen row column text) d = only_if (is_ready screen d) d
accept buffer_size (flip_buffers screen) d = only_if (is_ready screen d) d
accept buffer_size (sleep_ticks ticks) d = some d
accept buffer_size (release address) d = elim d.block [
  | none ↦ none
  | some (start, length) ↦ only_if (address == start) (record d { block = none })
]

abbrev pub accept_all : (Screen → ℕ) → List ScreenCall → Display → Option Display
accept_all buffer_size [] d = some d
accept_all buffer_size (call ∷ calls) d = elim (accept buffer_size call d) [
  | none ↦ none
  | some d' ↦ accept_all buffer_size calls d'
]

-- If the two buffers take less than 2^32 bytes and there is a block of that size that ends below
-- 2^32, the splash screen puts both buffers into the block, one beside the other, draws only on
-- screens that are on, and releases the block; the screens stay on, with their buffers in it.
pub splash_screen-accepted :
    (buffer_size : Screen → ℕ) (memalign : ℕ → ℕ → ℕ) (ticks : ℕ → ℕ) (message : Text)
    (duration : ℕ)
    → buffer_size screen_tv + buffer_size screen_drc < 2 ^ 32
    → memalign 0x100 (buffer_size screen_tv + buffer_size screen_drc) ≢ 0
    → memalign 0x100 (buffer_size screen_tv + buffer_size screen_drc)
        + (buffer_size screen_tv + buffer_size screen_drc)
      < 2 ^ 32
    → accept_all buffer_size (splash_screen buffer_size memalign ticks message duration) dark
      ≡ some (record {
        block = none;
        tv = some (memalign 0x100 (buffer_size screen_tv + buffer_size screen_drc));
        drc = some (
            memalign 0x100 (buffer_size screen_tv + buffer_size screen_drc)
            + buffer_size screen_tv);
        tv_on = true;
        drc_on = true;
      })
unfolding splash_screen
splash_screen-accepted buffer_size memalign ticks message duration fits room below =
    let s0 = buffer_size screen_tv in
    let s1 = buffer_size screen_drc in
    let a = memalign 0x100 (s0 + s1) in
    let size : add32 s0 s1 ≡ s0 + s1 = omega arith in
    let second : add32 a s0 ≡ a + s0 = omega arith in ground (arith, size, second)
