-- ===== src/SplashScreen/Tests.antt =====
-- The splash screen with the console's two buffers (src/main.cpp).
use custom_rpxloader.Base.{ℕ, ◌*◌, ◌≡◌, refl, true, none, some, arith}
use custom_rpxloader.ImportRplInformation.{codes}
use custom_rpxloader.SplashScreen.{Screen, screen_tv, screen_drc, splash_screen}
use custom_rpxloader.SplashScreen.Buffers.{dark, accept_all, splash_screen-accepted}

abbrev sizes : Screen → ℕ
sizes screen_tv = 0x1c2000
sizes screen_drc = 0xd2000

splash_screen-accepted_example :
    accept_all sizes
      (splash_screen sizes (λ alignment size. 0x10000000) (λ ms. ms * 62156) (codes "Failed") 3000)
      dark
    ≡ some (record {
      block = none;
      tv = some 0x10000000;
      drc = some 0x101c2000;
      tv_on = true;
      drc_on = true;
    })
splash_screen-accepted_example =
    splash_screen-accepted sizes (λ alignment size. 0x10000000) (λ ms. ms * 62156) (codes "Failed")
      3000 (omega arith) (omega arith) (omega arith)

-- The allocator's result is not looked at: without memory the first buffer is at the address 0.
no_memory_test :
    accept_all sizes
      (splash_screen sizes (λ alignment size. 0) (λ ms. ms * 62156) (codes "Failed") 3000)
      dark
    ≡ none
unfolding splash_screen
no_memory_test = refl
