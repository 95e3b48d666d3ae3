-- ===== src/RoundTrip/Header.antt =====
-- Length headers: what the encoder writes for a length, and that the decoder reads it back where
-- the guards on the input pass.
use msgpack.Prelude.{
  ℕ, ◌+◌, ◌%◌, ◌^◌, ◌<◌, ◌≡◌, ◌∷◌, [], true, leb, ltb, if◌then◌else◌, arith, if_cases₂,
}
use msgpack.Prelude.Int.{ℤ, pos}
use msgpack.Bits.{bit_or_160, bit_or_144, bit_or_128}
use msgpack.Outcome.{◌>>=◌}
use msgpack.Wire.Code.{
  bin8_code, bin16_code, bin32_code, str8_code, str16_code, str32_code, array16_code, array32_code,
  map16_code, map32_code,
}
use msgpack.Decoder.{Decoder, Decoding, Bytes}
use msgpack.Decoder.Limit.{uint32_to_int}
use msgpack.Decoder.Word.{uint8, uint16, uint32}
use msgpack.Encoder.Number.{bytes16, bytes32}
use msgpack.Encoder.Length.{encode_bytes_len, encode_string_len, encode_array_len, encode_map_len}
use msgpack.RoundTrip.Runs.{Writes, ReadsAt, Reads-ReadsAt, ReadsAt-bind, ReadsAt-guard}
use msgpack.RoundTrip.Word.{Reads-uint8, Reads-uint16, Reads-uint32}

-- A header with an 8-bit, a 16-bit or a 32-bit length.
abbrev pub wide_form : ℕ → ℕ → ℕ → Bytes
wide_form code16 code32 l = if leb l 65535 then code16 ∷ bytes16 l else code32 ∷ bytes32 l

unfoldable pub string_form : ℕ → Bytes
string_form l =
    if ltb l 32
    then (160 + l) ∷ []
    else if ltb l 256
    then str8_code ∷ l ∷ []
    else wide_form str16_code str32_code l

unfoldable pub bytes_form : ℕ → Bytes
bytes_form l = if ltb l 256 then bin8_code ∷ l ∷ [] else wide_form bin16_code bin32_code l

unfoldable pub array_form : ℕ → Bytes
array_form l = if ltb l 16 then (144 + l) ∷ [] else wide_form array16_code array32_code l

unfoldable pub map_form : ℕ → Bytes
map_form l = if ltb l 16 then (128 + l) ∷ [] else wide_form map16_code map32_code l

low : (w l : ℕ) → l < 2 ^ w → l % 2 ^ w ≡ l
low w l h = grind arith

module _ (l : ℕ) (h : l < 2 ^ 32) where
  pub Writes-encode_bytes_len : Writes (encode_bytes_len l) (bytes_form l)
  unfolding encode_bytes_len bytes_form
  Writes-encode_bytes_len =
      if_cases₂ Writes (ltb l 256) (λ t _. rw (low 8 l (ground arith)))
        λ _.
          if_cases₂ Writes (leb l 65535) (λ t _. rw (low 16 l (ground arith)))
            λ _ _. rw (low 32 l h)

  pub Writes-encode_string_len : Writes (encode_string_len l) (string_form l)
  unfolding encode_string_len string_form
  Writes-encode_string_len =
      if_cases₂ Writes (ltb l 32) (λ t _. rw (low 8 l (ground arith), bit_or_160 l (ground arith)))
        λ _.
          if_cases₂ Writes (ltb l 256) (λ t _. rw (low 8 l (ground arith)))
            λ _.
              if_cases₂ Writes (leb l 65535) (λ t _. rw (low 16 l (ground arith)))
                λ _ _. rw (low 32 l h)

  pub Writes-encode_array_len : Writes (encode_array_len l) (array_form l)
  unfolding encode_array_len array_form
  Writes-encode_array_len =
      if_cases₂ Writes (ltb l 16) (λ t _. rw (low 8 l (ground arith), bit_or_144 l (ground arith)))
        λ _.
          if_cases₂ Writes (leb l 65535) (λ t _. rw (low 16 l (ground arith)))
            λ _ _. rw (low 32 l h)

  pub Writes-encode_map_len : Writes (encode_map_len l) (map_form l)
  unfolding encode_map_len map_form
  Writes-encode_map_len =
      if_cases₂ Writes (ltb l 16) (λ t _. rw (low 8 l (ground arith), bit_or_128 l (ground arith)))
        λ _.
          if_cases₂ Writes (leb l 65535) (λ t _. rw (low 16 l (ground arith)))
            λ _ _. rw (low 32 l h)

-- A 32-bit length is an int.
Reads-uint32_to_int : (d : Decoder) (n : ℕ) → n < 2 ^ 32 → ReadsAt d (uint32_to_int n) [] n
unfolding uint32_to_int
Reads-uint32_to_int d n h = ReadsAt-guard d (uint32_to_int n) n λ r. ground arith

-- Word-sized lengths before a check that passes.
module _ (d : Decoder) (attached : d.attached ≡ true) (check : ℕ → Decoding ℤ) (l : ℕ)
    (passes : ReadsAt d (check l) [] (pos l)) where
  pub read8 : ReadsAt d (uint8 >>= check) (l ∷ []) (pos l)
  read8 =
      ReadsAt-bind d uint8 check (l ∷ []) [] l (pos l)
        (Reads-ReadsAt d uint8 (l ∷ []) l attached (Reads-uint8 l)) passes

  pub read16 : l < 2 ^ 16 → ReadsAt d (uint16 >>= check) (bytes16 l) (pos l)
  read16 h =
      ReadsAt-bind d uint16 check (bytes16 l) [] l (pos l)
        (Reads-ReadsAt d uint16 (bytes16 l) l attached (Reads-uint16 l h)) passes

  pub read32 :
      l < 2 ^ 32 → ReadsAt d (uint32 >>= λ n. uint32_to_int n >>= check) (bytes32 l) (pos l)
  read32 h =
      ReadsAt-bind d uint32 _ (bytes32 l) [] l (pos l)
        (Reads-ReadsAt d uint32 (bytes32 l) l attached (Reads-uint32 l h))
        (ReadsAt-bind d (uint32_to_int l) check [] [] l (pos l) (Reads-uint32_to_int d l h) passes)
