-- ===== src/RoundTrip/Container.antt =====
-- The headers of arrays and maps are read back where the input can hold the elements.
use msgpack.Prelude.{ℕ, ◌+◌, ◌*◌, ◌^◌, ◌<◌, ◌≤◌, ◌≡◌, [], true, leb, ltb, arith, length, if_cases}
use msgpack.Prelude.Int.{pos}
use msgpack.Bits.{bit_and_15}
use msgpack.Outcome.{switch, ◌>>=◌}
use msgpack.Wire.Code.{is_ext, array16_code, array32_code, map16_code, map32_code}
use msgpack.Decoder.{Decoder}
use msgpack.Decoder.Read.{read_code}
use msgpack.Decoder.Limit.{Kind, reject_oversized_container, remaining_readable}
use msgpack.Decoder.Length.{checked_container, array_len, map_len, decode_array_len}
use msgpack.Decoder.Ext.{map_len_after, decode_map_len}
use msgpack.Encoder.{Encoder}
use msgpack.Encoder.Length.{encode_array_len, encode_map_len}
use msgpack.RoundTrip.Runs.{ReadsAt, ReadsAt-code, ReadsAt-guard, Exchanged}
use msgpack.RoundTrip.Header.{
  array_form, map_form, Writes-encode_array_len, Writes-encode_map_len, read16, read32,
}

module _ (d : Decoder) (attached : d.attached ≡ true) (sized : d.sized ≡ true) (l : ℕ) where
  -- The guards pass where each element has its least number of bytes.
  array_passes : l ≤ length d.unread → ReadsAt d (checked_container 1 Kind.array l) [] (pos l)
  unfolding reject_oversized_container remaining_readable
  array_passes room = ReadsAt-guard d (checked_container 1 Kind.array l) (pos l) λ r. ground arith

  map_passes : 2 * l ≤ length d.unread → ReadsAt d (checked_container 2 Kind.map l) [] (pos l)
  unfolding reject_oversized_container remaining_readable
  map_passes room = ReadsAt-guard d (checked_container 2 Kind.map l) (pos l) λ r. ground arith

  fixed_array : l ≤ length d.unread → l < 16 → ReadsAt d (array_len (144 + l)) [] (pos l)
  unfolding array_len
  fixed_array room h r = ground (arith, bit_and_15 (144 + l), array_passes room r)

  fixed_map : 2 * l ≤ length d.unread → l < 16 → ReadsAt d (map_len_after (128 + l)) [] (pos l)
  unfolding map_len is_ext
  fixed_map room h r = ground (arith, bit_and_15 (128 + l), map_passes room r)

  pub read_array_form :
      l ≤ length d.unread → l < 2 ^ 32 → ReadsAt d (read_code >>= array_len) (array_form l) (pos l)
  unfolding array_len switch array_form
  read_array_form room h =
      let after = ReadsAt-code d array_len in
      let passes = array_passes room in
      if_cases (λ bs. ReadsAt d (read_code >>= array_len) bs (pos l)) (ltb l 16)
        (λ t. after (144 + l) [] (pos l) attached (fixed_array room (ground arith)))
        λ _.
          if_cases (λ bs. ReadsAt d (read_code >>= array_len) bs (pos l)) (leb l 65535)
            (λ t.
              after array16_code _ (pos l) attached
                (read16 d attached (checked_container 1 Kind.array) l passes (ground arith)))
            λ _.
              after array32_code _ (pos l) attached
                (read32 d attached (checked_container 1 Kind.array) l passes h)

  pub read_map_form :
      2 * l ≤ length d.unread
      → l < 2 ^ 32
      → ReadsAt d (read_code >>= map_len_after) (map_form l) (pos l)
  unfolding map_len map_form is_ext
  read_map_form room h =
      let after = ReadsAt-code d map_len_after in
      let passes = map_passes room in
      if_cases (λ bs. ReadsAt d (read_code >>= map_len_after) bs (pos l)) (ltb l 16)
        (λ t. after (128 + l) [] (pos l) attached (fixed_map room (ground arith)))
        λ _.
          if_cases (λ bs. ReadsAt d (read_code >>= map_len_after) bs (pos l)) (leb l 65535)
            (λ t.
              after map16_code _ (pos l) attached
                (read16 d attached (checked_container 2 Kind.map) l passes (ground arith)))
            λ _.
              after map32_code _ (pos l) attached
                (read32 d attached (checked_container 2 Kind.map) l passes h)

-- An array length below 2^32 that EncodeArrayLen writes is read back by DecodeArrayLen, where the
-- decoder has a reader with a Len method and at least one byte per element follows.
pub decode_array_len-encode_array_len :
    (l : ℕ) (e : Encoder) (d : Decoder)
    → l < 2 ^ 32
    → d.attached ≡ true
    → d.sized ≡ true
    → l ≤ length d.unread
    → Exchanged (encode_array_len l) decode_array_len e d (pos l)
unfolding decode_array_len
decode_array_len-encode_array_len l e d h a sized room =
    (array_form l, Writes-encode_array_len l h e, read_array_form d a sized l room h d.recording)

-- A map length below 2^32 that EncodeMapLen writes is read back by DecodeMapLen, where the
-- decoder has a reader with a Len method and at least two bytes per entry follow.
pub decode_map_len-encode_map_len :
    (l : ℕ) (e : Encoder) (d : Decoder)
    → l < 2 ^ 32
    → d.attached ≡ true
    → d.sized ≡ true
    → 2 * l ≤ length d.unread
    → Exchanged (encode_map_len l) decode_map_len e d (pos l)
unfolding decode_map_len
decode_map_len-encode_map_len l e d h a sized room =
    (map_form l, Writes-encode_map_len l h e, read_map_form d a sized l room h d.recording)
