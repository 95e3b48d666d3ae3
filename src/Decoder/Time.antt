-- ===== src/Decoder/Time.antt =====
-- pkg/msgpack/time.go: times, from an extension, from the old array form or from text.
use msgpack.Prelude.{
  ℕ, ◌/◌, ◌^◌, ◌&&◌, ◌||◌, ◌==◌, Bool, [], ◌∷◌, drop, length, if◌then◌else◌, bit_and, bit_or,
  Option, none, some,
}
use msgpack.Prelude.Int.{ℤ, pos, leb_ℤ, signed}
use msgpack.Outcome.{Error, switch, ◌>>=◌, pure, fail}
use msgpack.Float.{Platform}
use msgpack.Wire.Code.{fixed_array_low, is_string}
use msgpack.Decoder.{Decoding, Bytes}
use msgpack.Decoder.Read.{read_code, read_n}
use msgpack.Decoder.Word.{word32, word64}
use msgpack.Decoder.Number.{decode_int64}
use msgpack.Decoder.Text.{string}
use msgpack.Decoder.Ext.{ext_header}
use msgpack.Time.{Time, time_unix, time_ext_id}

-- The three layouts, by the number of bytes.
abbrev pub time_of_bytes : Bytes → Decoding Time
time_of_bytes b =
    switch (length b)
      ((4 ∷ [], pure (time_unix (pos (word32 b)) (pos 0)))
        ∷ (
          8 ∷ [],
          pure (time_unix (pos (bit_and (word64 b) 0x3_ffff_ffff)) (pos (word64 b / 2 ^ 34))),
        )
        ∷ (12 ∷ [], pure (time_unix (signed 63 (word64 (drop 4 b))) (pos (word32 b))))
        ∷ [])
      (fail (Error.invalid_time_ext_len (length b)))

-- `decodeTime`
unfoldable pub time_block : ℕ → Decoding Time
time_block ext_len = do b ← read_n ext_len; time_of_bytes b

abbrev pub equal_ids : ℤ → ℤ → Bool
equal_ids a b = leb_ℤ a b && leb_ℤ b a

-- The id 13 is what a NodeJS library writes.
abbrev pub time_of_ext : ℤ × ℕ → Decoding Time
time_of_ext (ext_id, ext_len) =
    if equal_ids ext_id time_ext_id || equal_ids ext_id (pos 13)
    then time_block ext_len
    else fail (Error.invalid_time_ext_id ext_id)

abbrev pub parsed : Option Time → Decoding Time
parsed none = fail Error.invalid_time_text
parsed (some tm) = pure tm

-- `parse` is time.Parse on the layout RFC3339Nano.
module _ (platform : Platform) (parse : Bytes → Option Time) where
  abbrev pub legacy_time : Decoding Time
  legacy_time = do
    sec ← decode_int64 platform
    nsec ← decode_int64 platform
    pure (time_unix sec nsec)

  abbrev pub time_after : ℕ → Decoding Time
  time_after c =
      if c == bit_or fixed_array_low 2
      then legacy_time
      else if is_string c
      then (do s ← string c; parsed (parse s))
      else (do h ← ext_header c; time_of_ext h)

  unfoldable pub decode_time : Decoding Time
  decode_time = do c ← read_code; time_after c
