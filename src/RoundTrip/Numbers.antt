-- ===== src/RoundTrip/Numbers.antt =====
-- Integer round trips through the public methods, for every encoder and decoder state.
use msgpack.Prelude.{ℕ, ◌^◌, ◌<◌, ◌≡◌, true, ◌++◌}
use msgpack.Prelude.Int.{ℤ, IsInt64}
use msgpack.Outcome.{ok}
use msgpack.Float.{Platform}
use msgpack.Decoder.{Decoder}
use msgpack.Decoder.Number.{decode_uint64, decode_int64}
use msgpack.Encoder.{Encoder}
use msgpack.Encoder.Number.{encode_uint, encode_int}
use msgpack.RoundTrip.Runs.{feed, taken}
use msgpack.RoundTrip.Integer.{
  uint_form, int_form, Writes-encode_uint, Writes-encode_int, Reads-uint_form, Reads-int_form,
}

-- For every int64, EncodeInt appends its shortest wire form whatever the encoder's state, and
-- DecodeInt64 reads the number back from that form, before any further input, and takes no more;
-- the decoder has a reader.
pub decode_int64-encode_int :
    (cpu : Platform) (z : ℤ) (e : Encoder) (d : Decoder)
    → IsInt64 z
    → d.attached ≡ true
    → (encode_int z e ≡ ok tt (record e { out = e.out ++ int_form z }))
      × (decode_int64 cpu (feed (int_form z) d) ≡ ok z (taken (int_form z) d))
decode_int64-encode_int cpu z e d h a = (Writes-encode_int z h e, Reads-int_form cpu z h d a)

-- For every uint64, EncodeUint appends its shortest wire form whatever the encoder's state, and
-- DecodeUint64 reads the number back from that form, before any further input, and takes no more;
-- the decoder has a reader.
pub decode_uint64-encode_uint :
    (cpu : Platform) (n : ℕ) (e : Encoder) (d : Decoder)
    → n < 2 ^ 64
    → d.attached ≡ true
    → (encode_uint n e ≡ ok tt (record e { out = e.out ++ uint_form n }))
      × (decode_uint64 cpu (feed (uint_form n) d) ≡ ok n (taken (uint_form n) d))
decode_uint64-encode_uint cpu n e d h a = (Writes-encode_uint n h e, Reads-uint_form cpu n h d a)
