-- ===== src/SplashScreen.antt =====
-- `SplashScreen` (src/main.cpp): the calls that draw a message on the two screens. The sizes of the
-- buffers, the allocator and the length of a tick are parameters.
pub mod Buffers
mod Tests
use custom_rpxloader.Base.{ℕ, ◌+◌, ◌%◌, ◌^◌, List, [], ◌∷◌}
use custom_rpxloader.Machine.{u32, add32}
use custom_rpxloader.Reader.{Text}

-- SCREEN_TV, SCREEN_DRC
pub data Screen : Type 0 where
  screen_tv : Screen
  screen_drc : Screen

pub data ScreenCall : Type 0 where
  os_screen_init : ScreenCall
  allocate : (alignment size address : ℕ) → ScreenCall
  set_buffer : Screen → ℕ → ScreenCall
  enable : Screen → ℕ → ScreenCall
  clear_buffer : Screen → ℕ → ScreenCall
  put_font : Screen → (row column : ℕ) → Text → ScreenCall
  flip_buffers : Screen → ScreenCall
  sleep_ticks : ℕ → ScreenCall
  release : ℕ → ScreenCall

-- `SplashScreen`: `buffer_size` is OSScreenGetBufferSizeEx, `memalign` gives an address, and
-- `ticks` is OSMillisecondsToTicks.
unfoldable pub splash_screen :
    (buffer_size : Screen → ℕ) (memalign : ℕ → ℕ → ℕ) (ticks : ℕ → ℕ)
    → (message : Text) → (duration_in_ms : ℕ) → List ScreenCall
splash_screen buffer_size memalign ticks message duration_in_ms =
    let screen_buf0_size = buffer_size screen_tv in
    let screen_buf1_size = buffer_size screen_drc in
    let size = add32 screen_buf0_size screen_buf1_size in
    let screen_buffer = memalign 0x100 size in
    os_screen_init
    ∷ allocate 0x100 size screen_buffer
    ∷ set_buffer screen_tv screen_buffer
    ∷ set_buffer screen_drc (add32 screen_buffer screen_buf0_size)
    ∷ enable screen_tv 1
    ∷ enable screen_drc 1
    ∷ clear_buffer screen_tv 0
    ∷ clear_buffer screen_drc 0
    ∷ put_font screen_tv 0 0 message
    ∷ put_font screen_drc 0 0 message
    ∷ flip_buffers screen_tv
    ∷ flip_buffers screen_drc
    ∷ sleep_ticks (ticks duration_in_ms)
    ∷ release screen_buffer
    ∷ []
