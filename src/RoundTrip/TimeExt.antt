-- ===== src/RoundTrip/TimeExt.antt =====
-- The extension of a time: the header that is written for each length is read back, then the body.
use msgpack.Prelude.{
  ℕ, ◌<◌, ◌≤◌, ◌≡◌, ◌∙◌, refl, sym, ap, ◌∷◌, [], true, arith, length, length-append, append_assoc,
  Option,
}
use msgpack.Prelude.Int.{IsInt64}
use msgpack.Outcome.{ok, switch, ◌>>=◌, ◌>>◌}
use msgpack.Float.{Platform}
use msgpack.Wire.Code.{is_string, is_fixed_string, fix_ext4_code, fix_ext8_code, ext8_code}
use msgpack.Decoder.{Decoder, Bytes}
use msgpack.Decoder.Read.{read_code, read_n}
use msgpack.Decoder.Limit.{reject_oversized_bytes, remaining_readable}
use msgpack.Decoder.Ext.{ext_header, parse_ext_len}
use msgpack.Decoder.Time.{time_of_bytes, time_block, time_after, decode_time}
use msgpack.Encoder.{Encoder, Encoding, write, write_code}
use msgpack.Encoder.Number.{write1}
use msgpack.Encoder.Length.{encode_ext_len}
use msgpack.Encoder.Time.{time_bytes, encode_time}
use msgpack.RoundTrip.Runs.{
  Writes, Reads, feed, taken, note_twice, Reads-read_code, Reads-read_n, Reads-code, Exchanged,
}
use msgpack.RoundTrip.Word.{Reads-uint8}
use msgpack.RoundTrip.Time.{Says, Carried, four, eight, twelve, Carried-time_bytes}
use msgpack.Time.{Time}

-- Twelve bytes fit what follows the length.
passes12 : (d : Decoder) → 12 ≤ length d.unread → reject_oversized_bytes 12 d ≡ ok tt d
unfolding reject_oversized_bytes remaining_readable
passes12 d h = ground arith

module _ (tm : Time) (b : Bytes) (says : Says tm b) where
  block_read : (n : ℕ) → length b ≡ n → Reads (time_block n) b tm
  unfolding time_block
  block_read n l d h =
      ap (λ t. (read_n t >>= time_of_bytes) (feed b d)) (sym l)
      ∙ rw (Reads-read_n b d h) (says (taken b d))

  module _ (platform : Platform) (parse : Bytes → Option Time) where
    abbrev ReadsTime : Bytes → Type 0
    ReadsTime bs = Reads (read_code >>= time_after platform parse) bs tm

    read4 : length b ≡ 4 → ReadsTime (fix_ext4_code ∷ 255 ∷ b)
    unfolding is_string is_fixed_string ext_header parse_ext_len switch
    read4 l = Reads-code (time_after platform parse) fix_ext4_code (255 ∷ b) tm λ d h.
        rw
          (
            Reads-read_code 255 (feed b d) h,
            block_read 4 l (taken (255 ∷ []) d) h,
            note_twice (255 ∷ []) b d.recording,
          )
          refl

    read8 : length b ≡ 8 → ReadsTime (fix_ext8_code ∷ 255 ∷ b)
    unfolding is_string is_fixed_string ext_header parse_ext_len switch
    read8 l = Reads-code (time_after platform parse) fix_ext8_code (255 ∷ b) tm λ d h.
        rw
          (
            Reads-read_code 255 (feed b d) h,
            block_read 8 l (taken (255 ∷ []) d) h,
            note_twice (255 ∷ []) b d.recording,
          )
          refl

    read12 : length b ≡ 12 → ReadsTime (ext8_code ∷ 12 ∷ 255 ∷ b)
    unfolding is_string is_fixed_string ext_header parse_ext_len switch
    read12 l = Reads-code (time_after platform parse) ext8_code (12 ∷ 255 ∷ b) tm λ d h.
        let d1 = taken (12 ∷ []) d in
        rw
          (
            Reads-uint8 12 (feed (255 ∷ b) d) h,
            passes12 (feed (255 ∷ b) d1) (omega (arith, l, length-append {0} b d.unread)),
            Reads-read_code 255 (feed b d1) h,
            block_read 12 l (taken (255 ∷ []) d1) h,
            note_twice (12 ∷ []) (255 ∷ []) d.recording,
            note_twice (12 ∷ 255 ∷ []) b d.recording,
          )
          refl

-- What is written around the body.
abbrev Framed : Bytes → Encoding (Unit {0})
Framed b = do encode_ext_len (length b); write_code 255; write b

frame4 : (b : Bytes) → length b ≡ 4 → Writes (Framed b) (fix_ext4_code ∷ 255 ∷ b)
unfolding encode_ext_len write_code write switch
frame4 b l e = rw (l, append_assoc, append_assoc) refl

frame8 : (b : Bytes) → length b ≡ 8 → Writes (Framed b) (fix_ext8_code ∷ 255 ∷ b)
unfolding encode_ext_len write_code write switch
frame8 b l e = rw (l, append_assoc, append_assoc) refl

frame12 : (b : Bytes) → length b ≡ 12 → Writes (Framed b) (ext8_code ∷ 12 ∷ 255 ∷ b)
unfolding encode_ext_len write_code write switch write1
frame12 b l e = rw (l, append_assoc, append_assoc) refl

exchange :
    (platform : Platform) (parse : Bytes → Option Time) (tm : Time) (b : Bytes) (e : Encoder)
    (d : Decoder)
    → d.attached ≡ true
    → Carried tm b
    → Exchanged (Framed b) (read_code >>= time_after platform parse) e d tm
exchange platform parse tm b e d h (four l says) =
    (fix_ext4_code ∷ 255 ∷ b, frame4 b l e, read4 tm b says platform parse l d h)
exchange platform parse tm b e d h (eight l says) =
    (fix_ext8_code ∷ 255 ∷ b, frame8 b l e, read8 tm b says platform parse l d h)
exchange platform parse tm b e d h (twelve l says) =
    (ext8_code ∷ 12 ∷ 255 ∷ b, frame12 b l e, read12 tm b says platform parse l d h)

-- A time of 64-bit Unix seconds and less than a second of nanoseconds that EncodeTime writes is
-- read back by DecodeTime, before any further input, where the decoder has a reader.
pub decode_time-encode_time :
    (platform : Platform) (parse : Bytes → Option Time) (tm : Time) (e : Encoder) (d : Decoder)
    → IsInt64 tm.unix
    → tm.nanosecond < 1_000_000_000
    → d.attached ≡ true
    → Exchanged (encode_time tm) (decode_time platform parse) e d tm
unfolding encode_time decode_time
decode_time-encode_time platform parse tm e d hz hn h =
    exchange platform parse tm (time_bytes tm) e d h
      (Carried-time_bytes tm.nanosecond hn tm.unix hz)
