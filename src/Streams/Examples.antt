-- ===== src/Streams/Examples.antt =====
-- Streams at concrete bytes.
use ot_tibia_teste.Common.{◌≡◌, refl, [], ◌∷◌, none}
use ot_tibia_teste.Streams.{read, write}

write_four : write 4 0x01020304 ≡ 4 ∷ 3 ∷ 2 ∷ 1 ∷ []
unfolding write
write_four = refl

read_short : read 4 (1 ∷ 2 ∷ []) ≡ none
unfolding read
read_short = refl
