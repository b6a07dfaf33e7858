-- ===== src/Elm/Start.antt =====
-- The three commands that start the ELM327 (src/elm.c, `initialize_elm`).
use ee459spring.Base.{ℕ, refl, ◌≡◌, ◌<◌, List, ◌∷◌, ◌++◌, length, some, true, codes}
use ee459spring.Elm.{elm_write, elm_command, initialize_elm}
use ee459spring.Elm.Read.{is_plain, elm_read_lem}

-- Where the ELM327 answers each of the three commands by a text of at most 31 bytes without a NUL and
-- the prompt after it, initialize_elm has sent ATZ, ATE0 and ATSP0, each with a carriage return, and
-- leaves the bytes after the third prompt.
pub initialize_elm-answers :
    (sent a1 a2 a3 rest : List ℕ)
    → is_plain a1 ≡ true
    → is_plain a2 ≡ true
    → is_plain a3 ≡ true
    → length a1 < 32
    → length a2 < 32
    → length a3 < 32
    → initialize_elm sent (a1 ++ 62 ∷ (a2 ++ 62 ∷ (a3 ++ 62 ∷ rest)))
      ≡ (((sent ++ codes "ATZ\r") ++ codes "ATE0\r") ++ codes "ATSP0\r", some rest)
unfolding initialize_elm elm_command elm_write
initialize_elm-answers sent a1 a2 a3 rest p1 p2 p3 h1 h2 h3 =
    rw
      (
        elm_read_lem 32 a1 (a2 ++ 62 ∷ (a3 ++ 62 ∷ rest)) p1 h1,
        elm_read_lem 32 a2 (a3 ++ 62 ∷ rest) p2 h2,
        elm_read_lem 32 a3 rest p3 h3,
      )
      refl
