-- ===== src/Decoder/Dynamic.antt =====
-- pkg/msgpack/decode.go, decode_slice.go, decode_map.go, ext.go: DecodeInterface and the decoders
-- of slices and maps that it uses.
use msgpack.Prelude.{
  ℕ, zero, suc, Bool, true, false, [], ◌∷◌, Option, none, some, ◌==◌, if◌then◌else◌,
}
use msgpack.Prelude.Int.{ℤ, pos, negsuc, signed}
use msgpack.Outcome.{Error, stuck, switch, continue, ◌>>=◌, pure, fail}
use msgpack.Float.{Platform, widen}
use msgpack.Wire.Code.{
  is_fixed_num, is_fixed_map, is_fixed_array, is_fixed_string, nil_code, false_code, true_code,
  uint8_code, int8_code, uint16_code, int16_code, uint32_code, int32_code, float_code, uint64_code,
  int64_code, double_code, bin8_code, bin16_code, bin32_code, str8_code, str16_code, str32_code,
  array16_code, array32_code, map16_code, map32_code, fix_ext1_code, fix_ext2_code, fix_ext4_code,
  fix_ext8_code, fix_ext16_code, ext8_code, ext16_code, ext32_code,
}
use msgpack.Dynamic.{Value, Items, Entries, no_items, item, no_entries, assign}
use msgpack.Encoder.Value.{bits8, bits16, bits32, bits64}
use msgpack.Decoder.{
  Decoder, Decoding, enter_depth, depth_limit, has_flag, loose_interface_decoding_flag,
}
use msgpack.Decoder.Read.{read_code}
use msgpack.Decoder.Word.{uint8, uint16, uint32, uint64, int8, int16, int32, int64}
use msgpack.Decoder.Number.{uint, int}
use msgpack.Decoder.Length.{array_len}
use msgpack.Decoder.Text.{string, bytes}
use msgpack.Decoder.Ext.{ext_header, decode_map_len}
use msgpack.Decoder.Intern.{decode_string}
use msgpack.Decoder.Skip.{leaving}

-- What stands outside the decoder. `ext_types` is the table extTypes as it is when the decoder runs,
-- by id, with decoders that take the length of the body: what RegisterExt has put there, and the
-- entries that the package registers itself, -1 by time.go and -128 by intern.go. `map_decoders` are
-- the functions that a caller may give to SetMapDecoder, by number.
pub record Setup : Type 0 where
  pub platform : Platform
  pub ext_types : ℤ → Option (ℕ → Decoding Value)
  pub map_decoders : ℕ → Decoding Value

-- The method `bool`, after the leading byte.
unfoldable pub bool : ℕ → Decoding Bool
bool c =
    if c == nil_code
    then pure false
    else if c == false_code
    then pure false
    else if c == true_code
    then pure true
    else fail (Error.invalid_code c)

unfoldable pub decode_bool : Decoding Bool
decode_bool = do c ← read_code; bool c

-- `d.s.UnreadByte()` after the byte `c` was read.
abbrev pub unread_byte : ℕ → Decoder → Decoder
unread_byte c d = record d { unread = c ∷ d.unread }

-- The loops of `decodeSlice` and DecodeMap. A call of decodeInterfaceCond is the argument `one`.
unfoldable pub decode_items : ℕ → Decoding Value → Decoding Items
decode_items zero one = pure no_items
decode_items (suc n) one = do v ← one; vs ← decode_items n one; pure (item v vs)

unfoldable pub decode_entries : ℕ → Decoding Value → Entries → Decoding Entries
unfolding assign
decode_entries zero one m = pure m
decode_entries (suc n) one m = do
  mk ← decode_string
  mv ← one
  decode_entries n one (assign mk mv m)

abbrev pub slice_with_len : Decoding Value → ℤ → Decoding Value
slice_with_len one (negsuc n) = pure Value.nil_slice
slice_with_len one (pos n) = do vs ← decode_items n one; pure (Value.slice vs)

unfoldable pub decode_slice : Decoding Value → ℕ → Decoding Value
decode_slice one c = do n ← array_len c; slice_with_len one n

abbrev pub map_with_len : Decoding Value → ℤ → Decoding Value
map_with_len one (negsuc n) = pure Value.nil_map
map_with_len one (pos n) = do es ← decode_entries n one no_entries; pure (Value.map es)

unfoldable pub decode_map : Decoding Value → Decoding Value
decode_map one = do n ← decode_map_len; map_with_len one n

abbrev pub map_by : (ℕ → Decoding Value) → Option ℕ → Decoding Value → Decoding Value
map_by decoders (some fn) one = decoders fn
map_by decoders none one = decode_map one

-- `decodeMapDefault`.
abbrev pub map_default : (ℕ → Decoding Value) → Decoding Value → Decoding Value
map_default decoders one d = map_by decoders d.map_decoder one d

abbrev pub ext_body : ℤ → Option (ℕ → Decoding Value) → ℕ → Decoding Value
ext_body ext_id none ext_len = fail (Error.unknown_ext ext_id)
ext_body ext_id (some decoder) ext_len = decoder ext_len

module _ (setup : Setup) where
  unfoldable pub decode_interface_ext : ℕ → Decoding Value
  decode_interface_ext c = do
    (ext_id, ext_len) ← ext_header c
    ext_body ext_id (setup.ext_types ext_id) ext_len

  -- The code is put back before a map is decoded.
  abbrev pub map_again : Decoding Value → ℕ → Decoding Value
  map_again one c d = map_default setup.map_decoders one (unread_byte c d)

  -- DecodeInterface after the leading byte.
  unfoldable pub interface_after : Decoding Value → ℕ → Decoding Value
  interface_after one c =
      if is_fixed_num c
      then pure (Value.int bits8 (signed 7 c))
      else if is_fixed_map c
      then map_again one c
      else if is_fixed_array c
      then decode_slice one c
      else if is_fixed_string c
      then (do s ← string c; pure (Value.text s))
      else switch c
          ((nil_code ∷ [], pure Value.nil)
            ∷ (false_code ∷ true_code ∷ [], (do b ← bool c; pure (Value.bool b)))
            ∷ (float_code ∷ [], (do n ← uint32; pure (Value.float32 n)))
            ∷ (double_code ∷ [], (do n ← uint64; pure (Value.float64 n)))
            ∷ (uint8_code ∷ [], (do n ← uint8; pure (Value.uint bits8 n)))
            ∷ (uint16_code ∷ [], (do n ← uint16; pure (Value.uint bits16 n)))
            ∷ (uint32_code ∷ [], (do n ← uint32; pure (Value.uint bits32 n)))
            ∷ (uint64_code ∷ [], (do n ← uint64; pure (Value.uint bits64 n)))
            ∷ (int8_code ∷ [], (do n ← int8; pure (Value.int bits8 n)))
            ∷ (int16_code ∷ [], (do n ← int16; pure (Value.int bits16 n)))
            ∷ (int32_code ∷ [], (do n ← int32; pure (Value.int bits32 n)))
            ∷ (int64_code ∷ [], (do n ← int64; pure (Value.int bits64 n)))
            ∷ (bin8_code ∷ bin16_code ∷ bin32_code ∷ [], (do b ← bytes c; pure (Value.bytes b)))
            ∷ (str8_code ∷ str16_code ∷ str32_code ∷ [], (do s ← string c; pure (Value.text s)))
            ∷ (array16_code ∷ array32_code ∷ [], decode_slice one c)
            ∷ (map16_code ∷ map32_code ∷ [], map_again one c)
            ∷ (
              fix_ext1_code ∷ fix_ext2_code ∷ fix_ext4_code ∷ fix_ext8_code ∷ fix_ext16_code
                  ∷ ext8_code ∷ ext16_code ∷ ext32_code ∷ [],
              decode_interface_ext c,
            )
            ∷ [])
          (fail (Error.unknown_code c))

  -- DecodeInterfaceLoose after the leading byte.
  unfoldable pub loose_after : Decoding Value → ℕ → Decoding Value
  loose_after one c =
      if is_fixed_num c
      then pure (Value.int bits64 (signed 7 c))
      else if is_fixed_map c
      then map_again one c
      else if is_fixed_array c
      then decode_slice one c
      else if is_fixed_string c
      then (do s ← string c; pure (Value.text s))
      else switch c
          ((nil_code ∷ [], pure Value.nil)
            ∷ (false_code ∷ true_code ∷ [], (do b ← bool c; pure (Value.bool b)))
            ∷ (float_code ∷ [], (do n ← uint32; pure (Value.float64 (widen n))))
            ∷ (double_code ∷ [], (do n ← uint64; pure (Value.float64 n)))
            ∷ (
              uint8_code ∷ uint16_code ∷ uint32_code ∷ uint64_code ∷ [],
              (do n ← uint setup.platform c; pure (Value.uint bits64 n)),
            )
            ∷ (
              int8_code ∷ int16_code ∷ int32_code ∷ int64_code ∷ [],
              (do n ← int setup.platform c; pure (Value.int bits64 n)),
            )
            ∷ (
              str8_code ∷ str16_code ∷ str32_code ∷ bin8_code ∷ bin16_code ∷ bin32_code ∷ [],
              (do s ← string c; pure (Value.text s)),
            )
            ∷ (array16_code ∷ array32_code ∷ [], decode_slice one c)
            ∷ (map16_code ∷ map32_code ∷ [], map_again one c)
            ∷ (
              fix_ext1_code ∷ fix_ext2_code ∷ fix_ext4_code ∷ fix_ext8_code ∷ fix_ext16_code
                  ∷ ext8_code ∷ ext16_code ∷ ext32_code ∷ [],
              decode_interface_ext c,
            )
            ∷ [])
          (fail (Error.unknown_code c))

  abbrev pub interface_by_option : Decoding Value → Decoding Value
  interface_by_option one d =
      if has_flag d.flags loose_interface_decoding_flag
      then (read_code >>= loose_after one) d
      else (read_code >>= interface_after one) d

  -- `decodeInterfaceCond`; each nested call takes one unit of fuel.
  unfoldable pub interface_fuel : ℕ → Decoding Value
  interface_fuel zero d = stuck
  interface_fuel (suc fuel) d =
      continue (enter_depth d) λ _ d'. leaving (interface_by_option (interface_fuel fuel) d')

  -- A call at a depth above the limit fails, so a fuel of one more than the limit is enough.
  unfoldable pub decode_interface_cond : Decoding Value
  decode_interface_cond d = interface_fuel (suc (depth_limit d)) d

  unfoldable pub decode_interface : Decoding Value
  unfolding decode_interface_cond
  decode_interface = do c ← read_code; interface_after decode_interface_cond c

  unfoldable pub decode_interface_loose : Decoding Value
  unfolding decode_interface_cond
  decode_interface_loose = do c ← read_code; loose_after decode_interface_cond c
