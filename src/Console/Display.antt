-- ===== src/Console/Display.antt =====
-- The text screen: 24 lines of 80 cells.
use rain_os.Common.{ℕ, ◌*◌, ◌%◌, ◌≤◌, ◌<◌, ◌≡◌, arith, refl, List, [], ◌∷◌, ◌∙◌}
use rain_os.Console.{Screen, cgaputc, consolewrite}

abbrev pub screen_size : ℕ
screen_size = 24 * 80

-- From a cursor on the screen, `cgaputc` leaves the cursor there and writes no cell behind it.
pub cgaputc_lem :
    (c : ℕ) (s : Screen)
    → s.pos < screen_size
    → ((cgaputc c s).pos < screen_size)
      × ((a : ℕ) → screen_size ≤ a → (cgaputc c s).crt a ≡ s.crt a)
unfolding cgaputc
cgaputc_lem c s h = (ground arith, λ a le. ground arith)

-- A whole `consolewrite` keeps the cursor on the screen, and changes no memory behind the screen's
-- 24 lines.
pub consolewrite_lem :
    (xs : List ℕ) (s : Screen)
    → s.pos < screen_size
    → ((consolewrite xs s).pos < screen_size)
      × ((a : ℕ) → screen_size ≤ a → (consolewrite xs s).crt a ≡ s.crt a)
unfolding consolewrite
consolewrite_lem [] s h = (h, λ a le. refl)
consolewrite_lem (x ∷ xs) s h =
    let (p, q) = cgaputc_lem (x % 256) s h in
    let (p', q') = consolewrite_lem xs (cgaputc (x % 256) s) p in (p', λ a le. q' a le ∙ q a le)
