-- ===== src/Utils/Tests.antt =====
-- Runs of src/utils.c, and the theorem about it at concrete inputs.
use ee459spring.Base.{refl, ◌≡◌, [], ◌∷◌, arith, ◌+◌, ◌*◌, ◌^◌, codes, ◌++◌}
use ee459spring.Utils.{bind_args, byte_in_arr, dump_nbytes}
use ee459spring.Utils.Words.{bind_args_lem}
use ee459spring.Sd.{frame}

bind_args_run :
    (bind_args 0 0 1 0xaa ≡ 0 * 2 ^ 24 + 0 * 2 ^ 16 + 1 * 2 ^ 8 + 0xaa)
    × (frame 0x48 (bind_args 0 0 1 0xaa) 0x87 ≡ 0x48 ∷ 0 ∷ 0 ∷ 1 ∷ 0xaa ∷ 0x87 ∷ [])
bind_args_run =
    bind_args_lem 0x48 0x87 0 0 1 0xaa (omega arith) (omega arith) (omega arith) (omega arith)

finds_the_second : byte_in_arr 7 (3 ∷ 7 ∷ 7 ∷ []) ≡ 1
unfolding byte_in_arr
finds_the_second = refl

dumps : dump_nbytes (0x1f ∷ []) ≡ codes "0x1F " ++ (10 ∷ 13 ∷ [])
unfolding dump_nbytes
dumps = refl
