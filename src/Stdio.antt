-- ===== src/Stdio.antt =====
-- src/astdio.c: standard output on the first port.
use ee459spring.Base.{ℕ, List, [], ◌∷◌, ◌==◌, if◌then◌else◌}

-- what the port is given for a character
unfoldable pub stdio_putchar : ℕ → List ℕ
stdio_putchar c = if c == 10 then 13 ∷ c ∷ [] else c ∷ []
