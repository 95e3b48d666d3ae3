-- ===== src/Decoder/Limit.antt =====
-- pkg/msgpack/decode.go: the guards against headers that claim more than the input can hold.
use msgpack.Prelude.{ℕ, ◌/◌, ◌^◌, ◌-◌, Option, none, some, length, ltb, ◌==◌, ◌||◌, if◌then◌else◌}
use msgpack.Outcome.{Error, ok, err, pure, fail}
use msgpack.Decoder.{
  Decoder, Decoding, has_flag, disable_alloc_limit_flag, slice_alloc_limit, max_map_size,
}

unfoldable pub remaining_readable : Decoder → Option ℕ
remaining_readable d = if d.sized then some (length d.unread) else none

-- The argument `kind` of the source, which is "array" or "map" at every call.
pub data Kind : Type 0 where
  array map : Kind

abbrev pub container_limit : Kind → ℕ
container_limit array = slice_alloc_limit
container_limit map = max_map_size

abbrev pub reject_by_input : ℕ → ℕ → Kind → Option ℕ → Decoding (Unit {0})
reject_by_input n min_bytes_per_elem kind (some remain) d =
    if ltb (remain / min_bytes_per_elem) n
    then err (Error.container_exceeds_input n remain) d
    else ok tt d
reject_by_input n min_bytes_per_elem kind none d =
    if has_flag d.flags disable_alloc_limit_flag
    then ok tt d
    else if ltb (container_limit kind) n
    then err (Error.container_exceeds_limit n) d
    else ok tt d

unfoldable pub reject_oversized_container : ℕ → ℕ → Kind → Decoding (Unit {0})
unfolding remaining_readable
reject_oversized_container n min_bytes_per_elem kind d =
    if n == 0 || min_bytes_per_elem == 0
    then ok tt d
    else reject_by_input n min_bytes_per_elem kind (remaining_readable d) d

abbrev pub reject_bytes_by_input : ℕ → Option ℕ → Decoding (Unit {0})
reject_bytes_by_input n none = pure tt
reject_bytes_by_input n (some remain) =
    if ltb remain n then fail (Error.bytes_exceed_input n remain) else pure tt

unfoldable pub reject_oversized_bytes : ℕ → Decoding (Unit {0})
unfolding remaining_readable
reject_oversized_bytes n d =
    if n == 0 then ok tt d else reject_bytes_by_input n (remaining_readable d) d

-- The largest `int` of a 64-bit platform.
abbrev pub max_int : ℕ
max_int = 2 ^ 63 - 1

unfoldable pub uint32_to_int : ℕ → Decoding ℕ
uint32_to_int n = if ltb max_int n then fail (Error.overflows_int n) else pure n
