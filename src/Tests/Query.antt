-- ===== src/Tests/Query.antt =====
-- Queries at concrete inputs.
use msgpack.Prelude.{◌≡◌, refl, [], ◌∷◌, arith}
use msgpack.Prelude.Int.{pos}
use msgpack.Outcome.{Error, ok, err}
use msgpack.Dynamic.{Value}
use msgpack.Encoder.Value.{bits8}
use msgpack.Wire.Code.{is_fixed_map, is_fixed_array, is_fixed_num, is_fixed_string, is_ext}
use msgpack.Outcome.{times}
use msgpack.Decoder.{Decoder, Bytes, enter_depth, leave_depth}
use msgpack.Decoder.Read.{peek_code, read_code}
use msgpack.Decoder.Limit.{reject_oversized_container, remaining_readable}
use msgpack.Decoder.Length.{array_len, decode_array_len}
use msgpack.Decoder.Skip.{skip, skip_fuel, skip_after}
use msgpack.Decoder.Dynamic.{decode_interface_cond, interface_fuel, interface_after}
use msgpack.Decoder.Query.{
  query, query_fuel, next_key, query_by_code, query_array_index, query_each, find_index, skip_next,
}
use msgpack.Decoder.Settles.{Settles}
use msgpack.Decoder.Settles.Query.{query-Settles}
use msgpack.Tests.{reading}
use msgpack.Tests.Dynamic.{raw_setup, raw_ext-Settles, map_header-Settles}

abbrev shallow_reading : Bytes → Decoder
shallow_reading bs = record (reading bs) { max_depth = 5 }

-- [[1, 2], [3, 4]]
abbrev pairs : Decoder
pairs = shallow_reading (0x92 ∷ 0x92 ∷ 1 ∷ 2 ∷ 0x92 ∷ 3 ∷ 4 ∷ [])

-- "*.0"
first_of_each :
    query raw_setup (42 ∷ 46 ∷ 48 ∷ []) pairs
    ≡ ok (Value.int bits8 (pos 1) ∷ Value.int bits8 (pos 3) ∷ []) (shallow_reading [])
unfolding query query_fuel next_key peek_code query_by_code is_fixed_map is_fixed_array
    query_array_index decode_array_len read_code array_len reject_oversized_container query_each
    find_index decode_interface_cond interface_fuel enter_depth leave_depth interface_after
    is_fixed_num skip_next skip skip_fuel skip_after times remaining_readable is_fixed_string is_ext
first_of_each = refl

-- [[[1, 2], 9], [[3, 4], 8]]
abbrev nested_pairs : Decoder
nested_pairs = shallow_reading (0x92 ∷ 0x92 ∷ 0x92 ∷ 1 ∷ 2 ∷ 9 ∷ 0x92 ∷ 0x92 ∷ 3 ∷ 4 ∷ 8 ∷ [])

-- "*.0.*": the inner `*` clears the mark of the outer one, so the 9 is not passed over.
two_asterisks :
    query raw_setup (42 ∷ 46 ∷ 48 ∷ 46 ∷ 42 ∷ []) nested_pairs
    ≡ err (Error.unsupported_query 9 (48 ∷ [])) (shallow_reading (9 ∷ 0x92 ∷ 0x92 ∷ 3 ∷ 4 ∷ 8 ∷ []))
unfolding query query_fuel next_key peek_code query_by_code is_fixed_map is_fixed_array
    query_array_index decode_array_len read_code array_len reject_oversized_container query_each
    find_index decode_interface_cond interface_fuel enter_depth leave_depth interface_after
    is_fixed_num skip_next skip skip_fuel skip_after times remaining_readable is_fixed_string is_ext
two_asterisks = refl

query-Settles_example :
    Settles nested_pairs (query raw_setup (42 ∷ 46 ∷ 48 ∷ 46 ∷ 42 ∷ []) nested_pairs)
query-Settles_example =
    query-Settles raw_setup raw_ext-Settles map_header-Settles (42 ∷ 46 ∷ 48 ∷ 46 ∷ 42 ∷ [])
      nested_pairs (omega arith)
