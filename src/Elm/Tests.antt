-- ===== src/Elm/Tests.antt =====
-- The theorems about src/elm.c at concrete inputs.
use ee459spring.Base.{
  ℕ, refl, ◌≡◌, List, [], ◌∷◌, ◌++◌, length, replicate, some, true, arith, codes, u8, ◌+◌, ◌-◌, leb,
}
use ee459spring.Elm.{elm_read, initialize_elm}
use ee459spring.Elm.Start.{initialize_elm-answers}
use ee459spring.Elm.Read.{elm_read_lem, elm_read-overrun}

abbrev reply : List ℕ
reply = codes "41 0C 1A F8" ++ 13 ∷ []

elm_read_lem_example :
    elm_read 64 (reply ++ 62 ∷ 52 ∷ [])
    ≡ some (record {
      ret = u8 (length reply + 1);
      buf = reply ++ 62 ∷ replicate (64 - (length reply + 1)) 0;
      overrun = leb 64 (length reply + 1);
      rest = 52 ∷ [];
    })
elm_read_lem_example = elm_read_lem 64 reply (52 ∷ []) refl (omega arith)

full_array :
    elm_read (length reply) (reply ++ 52 ∷ [])
    ≡ some (record { ret = u8 (length reply); buf = reply; overrun = true; rest = 52 ∷ [] })
full_array = elm_read-overrun reply (52 ∷ []) refl (omega arith)

abbrev version : List ℕ
version = codes "\r\rELM327 v1.5\r\r"

abbrev ok : List ℕ
ok = codes "OK\r\r"

initialize_elm-answers_example :
    initialize_elm [] (version ++ 62 ∷ (ok ++ 62 ∷ (ok ++ 62 ∷ (7 ∷ []))))
    ≡ ((([] ++ codes "ATZ\r") ++ codes "ATE0\r") ++ codes "ATSP0\r", some (7 ∷ []))
initialize_elm-answers_example =
    initialize_elm-answers [] version ok ok (7 ∷ []) refl refl refl (omega arith) (omega arith)
      (omega arith)
