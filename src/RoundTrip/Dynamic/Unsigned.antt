-- ===== src/RoundTrip/Dynamic/Unsigned.antt =====
-- Unsigned integers inside a value of type `any`.
use msgpack.Prelude.{ℕ, suc, ◌^◌, ◌<◌, refl, [], ◌∷◌, arith}
use msgpack.Prelude.Int.{pos}
use msgpack.Outcome.{switch}
use msgpack.Wire.Code.{
  is_fixed_num, is_fixed_map, is_fixed_array, is_fixed_string, uint8_code, uint16_code, uint32_code,
  uint64_code,
}
use msgpack.Dynamic.{Value}
use msgpack.Dynamic.Canonical.{canonical}
use msgpack.Decoder.Word.{uint8, uint16, uint32, uint64}
use msgpack.Decoder.Dynamic.{Setup, interface_after, interface_fuel}
use msgpack.Encoder.Number.{
  bytes16, bytes32, bytes64, encode_uint, encode_uint8, encode_uint16, encode_uint32, encode_uint64,
  encode_uint8_cond, encode_uint16_cond, encode_uint32_cond, encode_uint64_cond,
}
use msgpack.Encoder.Value.{Width, word, bits8, bits16, bits32, bits64, FitsUint, encode_uint_value}
use msgpack.Encoder.Dynamic.{encode}
use msgpack.RoundTrip.Word.{Reads-uint8, Reads-uint16, Reads-uint32, Reads-uint64}
use msgpack.RoundTrip.Integer.{uint_form, Writes-encode_uint}
use msgpack.RoundTrip.Dynamic.Yields.{YieldsValue-suc}
use msgpack.RoundTrip.Dynamic.Leaves.{Sent}
use msgpack.RoundTrip.Dynamic.Numbers.{
  Carries, SentInt, coded, read_word, Carries-uint_form, either_form,
}

-- The words with their type.
module _ (setup : Setup) (k n : ℕ) where
  word8 : Carries setup k (uint8_code ∷ n ∷ []) (pos n)
  unfolding canonical interface_after is_fixed_num is_fixed_map is_fixed_array is_fixed_string
      switch
  word8 =
      coded setup k uint8_code (n ∷ []) n (pos n) (Value.uint bits8)
        (λ one. read_word setup k uint8 (n ∷ []) n (Value.uint bits8) (Reads-uint8 n)) refl

  word16 : n < 2 ^ 16 → Carries setup k (uint16_code ∷ bytes16 n) (pos n)
  unfolding canonical interface_after is_fixed_num is_fixed_map is_fixed_array is_fixed_string
      switch
  word16 h =
      coded setup k uint16_code (bytes16 n) n (pos n) (Value.uint bits16)
        (λ one. read_word setup k uint16 (bytes16 n) n (Value.uint bits16) (Reads-uint16 n h)) refl

  Carries-word32 : n < 2 ^ 32 → Carries setup k (uint32_code ∷ bytes32 n) (pos n)
  unfolding canonical interface_after is_fixed_num is_fixed_map is_fixed_array is_fixed_string
      switch
  Carries-word32 h =
      coded setup k uint32_code (bytes32 n) n (pos n) (Value.uint bits32)
        (λ one. read_word setup k uint32 (bytes32 n) n (Value.uint bits32) (Reads-uint32 n h)) refl

  Carries-word64 : n < 2 ^ 64 → Carries setup k (uint64_code ∷ bytes64 n) (pos n)
  unfolding canonical interface_after is_fixed_num is_fixed_map is_fixed_array is_fixed_string
      switch
  Carries-word64 h =
      coded setup k uint64_code (bytes64 n) n (pos n) (Value.uint bits64)
        (λ one. read_word setup k uint64 (bytes64 n) n (Value.uint bits64) (Reads-uint64 n h)) refl

module _ (setup : Setup) (flags k n : ℕ) where
  SentInt-encode_uint_value :
      (w : Width) → FitsUint w n → SentInt setup flags k (encode_uint_value w n) (pos n)
  unfolding encode_uint_value encode_uint8 encode_uint16 encode_uint32 encode_uint64
      encode_uint8_cond encode_uint16_cond encode_uint32_cond encode_uint64_cond
  SentInt-encode_uint_value word h =
      (uint_form n, (λ e _ _. Writes-encode_uint n h e), Carries-uint_form setup k n h)
  SentInt-encode_uint_value bits8 h =
      let fits : n < 2 ^ 64 = omega (arith, h) in
      either_form setup flags k (encode_uint n) (encode_uint8 n) (uint_form n) (uint8_code ∷ n ∷ [])
        (pos n) (Writes-encode_uint n fits) (λ _. refl) (Carries-uint_form setup k n fits)
        (word8 setup k n)
  SentInt-encode_uint_value bits16 h =
      let fits : n < 2 ^ 64 = omega (arith, h) in
      either_form setup flags k (encode_uint n) (encode_uint16 n) (uint_form n)
        (uint16_code ∷ bytes16 n) (pos n) (Writes-encode_uint n fits) (λ _. refl)
        (Carries-uint_form setup k n fits) (word16 setup k n h)
  SentInt-encode_uint_value bits32 h =
      let fits : n < 2 ^ 64 = omega (arith, h) in
      either_form setup flags k (encode_uint n) (encode_uint32 n) (uint_form n)
        (uint32_code ∷ bytes32 n) (pos n) (Writes-encode_uint n fits) (λ _. refl)
        (Carries-uint_form setup k n fits) (Carries-word32 setup k n h)
  SentInt-encode_uint_value bits64 h =
      either_form setup flags k (encode_uint n) (encode_uint64 n) (uint_form n)
        (uint64_code ∷ bytes64 n) (pos n) (Writes-encode_uint n h) (λ _. refl)
        (Carries-uint_form setup k n h) (Carries-word64 setup k n h)

  pub Sent-uint : (w : Width) → FitsUint w n → Sent setup flags (suc k) (Value.uint w n)
  unfolding encode canonical
  Sent-uint w h =
      let (bs, emits, (v, yields, e, l)) = SentInt-encode_uint_value w h in
      (
        bs,
        v,
        emits,
        YieldsValue-suc setup k bs v (λ fuel _. yields (interface_fuel setup fuel)),
        e,
        l,
      )
