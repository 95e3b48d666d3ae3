-- ===== src/Encoder/Time.antt =====
-- pkg/msgpack/time.go: times, as an extension of 4, 8 or 12 bytes.
use msgpack.Prelude.{ℕ, ◌*◌, ◌/◌, ◌%◌, ◌^◌, ◌++◌, ◌==◌, length, if◌then◌else◌, bit_and, bit_or}
use msgpack.Prelude.Int.{wrap}
use msgpack.Outcome.{◌>>◌}
use msgpack.Decoder.{Bytes}
use msgpack.Encoder.{Encoding, write, write_code}
use msgpack.Encoder.Number.{bytes32, bytes64}
use msgpack.Encoder.Length.{encode_ext_len}
use msgpack.Time.{Time, time_ext_id}

-- `data`, from the nanoseconds and the seconds.
abbrev pub packed : ℕ → ℕ → ℕ
packed nsec secs = bit_or (nsec * 2 ^ 34 % 2 ^ 64) secs

abbrev pub packed_bytes : ℕ → Bytes
packed_bytes word =
    if bit_and word 0xffff_ffff_0000_0000 == 0 then bytes32 (word % 2 ^ 32) else bytes64 word

-- `encodeTime`, with the seconds as a uint64.
abbrev pub seconds_bytes : ℕ → ℕ → Bytes
seconds_bytes nsec secs =
    if secs / 2 ^ 34 == 0
    then packed_bytes (packed nsec secs)
    else bytes32 (nsec % 2 ^ 32) ++ bytes64 secs

unfoldable pub time_bytes : Time → Bytes
time_bytes tm = seconds_bytes tm.nanosecond (wrap 64 tm.unix)

unfoldable pub encode_time : Time → Encoding (Unit {0})
encode_time tm = do
  encode_ext_len (length (time_bytes tm))
  write_code (wrap 8 time_ext_id)
  write (time_bytes tm)
