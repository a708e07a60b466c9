-- ===== src/Blake2s/Tests.antt =====
-- Published test vectors of BLAKE2s, and tests of its theorems.
use awg2_webui.Base.{◌≡◌, refl, [], ◌∷◌, codes, take}
use awg2_webui.Blake2s.{Blake2sState, blake2s_256}

blake2s_abc :
    take 8 (blake2s_256 (codes "abc")) ≡ 0x50 ∷ 0x8c ∷ 0x5e ∷ 0x8c ∷ 0x32 ∷ 0x7c ∷ 0x14 ∷ 0xe2 ∷ []
unfolding blake2s_256
blake2s_abc = refl

abbrev fresh : Blake2sState
fresh = record { h = 1 ∷ []; t0 = 0; t1 = 0; buf = 7 ∷ 8 ∷ [] }
