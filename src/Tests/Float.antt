-- ===== src/Tests/Float.antt =====
-- Conversions of integers to floats.
use msgpack.Prelude.{◌≡◌, refl, ◌+◌, ◌^◌}
use msgpack.Prelude.Int.{pos, negsuc}
use msgpack.Float.{float32_of_int, float64_of_int}

three : float64_of_int (pos 3) ≡ 0x4008000000000000
unfolding float64_of_int
three = refl

minus_one : float32_of_int (negsuc 0) ≡ 0xbf800000
unfolding float32_of_int
minus_one = refl

-- 2^53 + 1 and 2^53 + 3 lie halfway between two floats.
ties :
    (float64_of_int (pos (2 ^ 53 + 1)) ≡ 0x4340000000000000)
    × (float64_of_int (pos (2 ^ 53 + 3)) ≡ 0x4340000000000002)
unfolding float64_of_int
ties = (refl, refl)

carried : float32_of_int (pos 0x7fffffffffffffff) ≡ 0x5f000000
unfolding float32_of_int
carried = refl
