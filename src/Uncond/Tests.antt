-- ===== src/Uncond/Tests.antt =====
-- Words of each class, and an address.
use cdj2000_emulator.Prelude.{◌≡◌, refl}
use cdj2000_emulator.Uncond.{addaw, arm_table, none, unimplemented, classify, adda_long}

-- ADDAW .D1X B14, 4, A5
addaw_word : classify 0x1280047c ≡ addaw
unfolding classify
addaw_word = refl

addaw_result : (adda_long addaw 0x1280047c 0x1000 0).result ≡ 0x1010
unfolding adda_long
addaw_result = refl

conditional_word : classify 0x2280047c ≡ none
unfolding classify
conditional_word = refl

swe_word : classify 0x10000000 ≡ unimplemented
unfolding classify
swe_word = refl

cmpy_word : classify 0x100002b0 ≡ arm_table
unfolding classify
cmpy_word = refl
