-- ===== src/Dht/Tests.antt =====
-- The checksum of a packet at concrete bytes.
use hk_rtos.Base.{◌≡◌, refl}
use hk_rtos.Samples.{zeros, with_byte}
use hk_rtos.Dht.{checksum}

-- 250 and 7 wrap around.
wrapped : checksum (with_byte 1 250 (with_byte 2 7 zeros)) ≡ 1
unfolding checksum
wrapped = refl
