-- ===== src/Decoder/Skip.antt =====
-- pkg/msgpack/decode.go, decode_slice.go, decode_map.go: Skip and DecodeRaw.
use msgpack.Prelude.{ℕ, zero, suc, [], ◌∷◌, Option, none, some, if◌then◌else◌}
use msgpack.Prelude.Int.{ℤ, pos, negsuc}
use msgpack.Outcome.{
  Error, Outcome, ok, err, stuck, switch, times, continue, ◌>>=◌, ◌>>◌, pure, fail,
}
use msgpack.Wire.Code.{
  is_fixed_num, is_fixed_map, is_fixed_array, is_fixed_string, nil_code, false_code, true_code,
  uint8_code, int8_code, uint16_code, int16_code, uint32_code, int32_code, float_code, uint64_code,
  int64_code, double_code, bin8_code, bin16_code, bin32_code, str8_code, str16_code, str32_code,
  array16_code, array32_code, map16_code, map32_code, fix_ext1_code, fix_ext2_code, fix_ext4_code,
  fix_ext8_code, fix_ext16_code, ext8_code, ext16_code, ext32_code,
}
use msgpack.Decoder.{Decoder, Decoding, Bytes, enter_depth, leave_depth, depth_limit}
use msgpack.Decoder.Read.{read_code, skip_n}
use msgpack.Decoder.Length.{array_len, map_len}
use msgpack.Decoder.Text.{skip_bytes}
use msgpack.Decoder.Ext.{skip_ext}

-- `for range n`, which does nothing when n is negative.
abbrev pub times_int : ℤ → Decoding (Unit {0}) → Decoding (Unit {0})
times_int (pos n) m = times n m
times_int (negsuc n) m = pure tt

-- The recursive call of Skip is the argument `skip_one`.
unfoldable pub skip_slice : Decoding (Unit {0}) → ℕ → Decoding (Unit {0})
skip_slice skip_one c = do n ← array_len c; times_int n skip_one

unfoldable pub skip_map : Decoding (Unit {0}) → ℕ → Decoding (Unit {0})
skip_map skip_one c = do n ← map_len c; times_int n (do skip_one; skip_one)

-- What Skip does after the leading byte.
unfoldable pub skip_after : Decoding (Unit {0}) → ℕ → Decoding (Unit {0})
skip_after skip_one c =
    if is_fixed_num c
    then pure tt
    else if is_fixed_map c
    then skip_map skip_one c
    else if is_fixed_array c
    then skip_slice skip_one c
    else if is_fixed_string c
    then skip_bytes c
    else switch c
        ((nil_code ∷ false_code ∷ true_code ∷ [], pure tt)
          ∷ (uint8_code ∷ int8_code ∷ [], skip_n 1)
          ∷ (uint16_code ∷ int16_code ∷ [], skip_n 2)
          ∷ (uint32_code ∷ int32_code ∷ float_code ∷ [], skip_n 4)
          ∷ (uint64_code ∷ int64_code ∷ double_code ∷ [], skip_n 8)
          ∷ (bin8_code ∷ bin16_code ∷ bin32_code ∷ [], skip_bytes c)
          ∷ (str8_code ∷ str16_code ∷ str32_code ∷ [], skip_bytes c)
          ∷ (array16_code ∷ array32_code ∷ [], skip_slice skip_one c)
          ∷ (map16_code ∷ map32_code ∷ [], skip_map skip_one c)
          ∷ (
            fix_ext1_code ∷ fix_ext2_code ∷ fix_ext4_code ∷ fix_ext8_code ∷ fix_ext16_code
                ∷ ext8_code ∷ ext16_code ∷ ext32_code ∷ [],
            skip_ext c,
          )
          ∷ [])
        (fail (Error.unknown_code c))

-- `defer d.leaveDepth()`: the depth falls however the rest ends.
abbrev pub leaving {ℓ} : {A : Type ℓ} → Outcome Decoder A → Outcome Decoder A
leaving (ok a d) = ok a (leave_depth d)
leaving (err e d) = err e (leave_depth d)
leaving stuck = stuck

abbrev pub skip_body : Decoding (Unit {0}) → Decoding (Unit {0})
skip_body skip_one = do c ← read_code; skip_after skip_one c

-- Each nested call takes one unit of fuel.
unfoldable pub skip_fuel : ℕ → Decoding (Unit {0})
skip_fuel zero d = stuck
skip_fuel (suc fuel) d = continue (enter_depth d) λ _ d'. leaving (skip_body (skip_fuel fuel) d')

-- A call at a depth above the limit fails, so a fuel of one more than the limit is enough.
unfoldable pub skip : Decoding (Unit {0})
skip d = skip_fuel (suc (depth_limit d)) d

-- `defer func() { d.rec = nil }()`, and the recorded bytes as the result.
abbrev pub recorded : Option Bytes → Bytes
recorded none = []
recorded (some r) = r

abbrev pub finish_raw : Outcome Decoder (Unit {0}) → Outcome Decoder Bytes
finish_raw (ok u d) = ok (recorded d.recording) (record d { recording = none })
finish_raw (err e d) = err e (record d { recording = none })
finish_raw stuck = stuck

unfoldable pub decode_raw : Decoding Bytes
decode_raw d = finish_raw (skip (record d { recording = some [] }))
