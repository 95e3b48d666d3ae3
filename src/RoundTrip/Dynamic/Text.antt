-- ===== src/RoundTrip/Dynamic/Text.antt =====
-- Strings and byte strings inside a value of type `any`.
use msgpack.Prelude.{
  ℕ, suc, ◌+◌, ◌^◌, ◌<◌, ◌≤◌, ◌≡◌, refl, false, [], ◌∷◌, ◌++◌, some, length, ltb, leb, ◌||◌, arith,
  if_cases,
}
use msgpack.Outcome.{◌>>=◌, switch}
use msgpack.Wire.Code.{
  str8_code, str16_code, str32_code, bin8_code, bin16_code, bin32_code, is_fixed_num, is_fixed_map,
  is_fixed_array, is_fixed_string,
}
use msgpack.Dynamic.{Value}
use msgpack.Decoder.{Decoding, Bytes, has_flag, use_interned_strings_flag}
use msgpack.Decoder.Read.{read_code}
use msgpack.Decoder.Text.{string, bytes}
use msgpack.Decoder.Dynamic.{Setup, interface_after, interface_fuel}
use msgpack.Encoder.{Encoder}
use msgpack.Encoder.Number.{bytes16, bytes32}
use msgpack.Encoder.Intern.{encode_string}
use msgpack.Encoder.Dynamic.{encode}
use msgpack.RoundTrip.Header.{string_form, bytes_form}
use msgpack.RoundTrip.Text.{
  Reads-string, Writes-encode_normal_string, Writes-encode_bytes, bytes_read,
}
use msgpack.RoundTrip.Dynamic.Yields.{
  IsUnset, YieldsUnset, Yields-of_Reads, Yields-map, Yields-code, Yields-after, YieldsValue-suc,
  Emits,
}
use msgpack.RoundTrip.Dynamic.Leaves.{IsDirect, Sent}

no_interning :
    (flags : ℕ) (e : Encoder)
    → IsDirect flags
    → e.flags ≡ flags
    → e.dict ≡ []
    → (has_flag e.flags use_interned_strings_flag || ltb 0 (length e.dict)) ≡ false
no_interning flags e p hf hd = rw (hf, p.no_intern, hd) refl

-- With the options off, EncodeString is encodeNormalString.
pub Emits-encode_string :
    (flags : ℕ) (s : Bytes)
    → IsDirect flags
    → length s < 2 ^ 32
    → Emits flags (encode_string s) (string_form (length s) ++ s)
unfolding encode_string
Emits-encode_string flags s p h e hf hd =
    rw (no_interning flags e p hf hd) (Writes-encode_normal_string s h e)

pub 1-le-string_form : (l : ℕ) (s : Bytes) → 1 ≤ length (string_form l ++ s)
unfolding string_form
1-le-string_form l s =
    if_cases (λ bs. 1 ≤ length (bs ++ s)) (ltb l 32) (λ _. omega arith)
      λ _.
        if_cases (λ bs. 1 ≤ length (bs ++ s)) (ltb l 256) (λ _. omega arith)
          λ _.
            if_cases (λ bs. 1 ≤ length (bs ++ s)) (leb l 65535) (λ _. omega arith) λ _. omega arith

module _ (setup : Setup) (k : ℕ) (one : Decoding Value) (s : Bytes) where
  -- What the string decoder reads, DecodeInterface does.
  abbrev Follows : Bytes → Type 0
  Follows bs =
      YieldsUnset k (read_code >>= string) (bs ++ s) s
      → YieldsUnset k (read_code >>= interface_after setup one) (bs ++ s) (Value.text s)

  Follows-fixed : (l : ℕ) → l < 32 → Follows ((160 + l) ∷ [])
  unfolding interface_after is_fixed_num is_fixed_map is_fixed_array is_fixed_string
  Follows-fixed l h reads =
      Yields-code k (interface_after setup one) (160 + l) s (Value.text s) λ d p room. ground (
        arith,
        Yields-map k (string (160 + l)) Value.text s s (Yields-after k string (160 + l) s s reads) d
            p room,
      )

  Follows-string_form : (l : ℕ) → Follows (string_form l)
  unfolding string_form interface_after is_fixed_num is_fixed_map is_fixed_array is_fixed_string
      switch
  Follows-string_form l =
      let via = λ (c : ℕ) (bs : Bytes) (reads : YieldsUnset k (read_code >>= string) (c ∷ bs) s).
        Yields-map k (string c) Value.text bs s (Yields-after k string c bs s reads) in
      let code = λ (c : ℕ) (bs : Bytes).
        Yields-code {P = IsUnset} k (interface_after setup one) c bs (Value.text s) in
      if_cases Follows (ltb l 32) (λ t. Follows-fixed l (ground arith))
        λ _.
          if_cases Follows (ltb l 256)
            (λ _ reads. code str8_code (l ∷ s) (via str8_code (l ∷ s) reads))
            λ _.
              if_cases Follows (leb l 65535)
                (λ _ reads.
                  code str16_code (bytes16 l ++ s) (via str16_code (bytes16 l ++ s) reads))
                λ _ reads. code str32_code (bytes32 l ++ s) (via str32_code (bytes32 l ++ s) reads)

  pub Yields-text :
      length s < 2 ^ 32
      → YieldsUnset k
          (read_code >>= interface_after setup one)
          (string_form (length s) ++ s)
          (Value.text s)
  Yields-text h =
      Follows-string_form (length s) (
        Yields-of_Reads k (read_code >>= string) (string_form (length s) ++ s) s (Reads-string s h))

pub Sent-text :
    (setup : Setup) (flags k : ℕ) (s : Bytes)
    → IsDirect flags
    → length s < 2 ^ 32
    → Sent setup flags (suc k) (Value.text s)
unfolding encode
Sent-text setup flags k s p h = (
  string_form (length s) ++ s,
  Value.text s,
  Emits-encode_string flags s p h,
  YieldsValue-suc setup k (string_form (length s) ++ s) (Value.text s)
      λ fuel _. Yields-text setup k (interface_fuel setup fuel) s h,
  refl,
  1-le-string_form (length s) s,
)

module _ (setup : Setup) (k : ℕ) (one : Decoding Value) (b : Bytes) where
  abbrev FollowsBytes : Bytes → Type 0
  FollowsBytes bs =
      YieldsUnset k (read_code >>= bytes) (bs ++ b) (some b)
      → YieldsUnset k (read_code >>= interface_after setup one) (bs ++ b) (Value.bytes (some b))

  Follows-bytes_form : (l : ℕ) → FollowsBytes (bytes_form l)
  unfolding bytes_form interface_after is_fixed_num is_fixed_map is_fixed_array is_fixed_string
      switch
  Follows-bytes_form l =
      let via =
        λ (c : ℕ) (bs : Bytes) (reads : YieldsUnset k (read_code >>= bytes) (c ∷ bs) (some b)).
          Yields-map k (bytes c) Value.bytes bs (some b)
            (Yields-after k bytes c bs (some b) reads) in
      let code = λ (c : ℕ) (bs : Bytes).
        Yields-code {P = IsUnset} k (interface_after setup one) c bs (Value.bytes (some b)) in
      if_cases FollowsBytes (ltb l 256)
        (λ _ reads. code bin8_code (l ∷ b) (via bin8_code (l ∷ b) reads))
        λ _.
          if_cases FollowsBytes (leb l 65535)
            (λ _ reads. code bin16_code (bytes16 l ++ b) (via bin16_code (bytes16 l ++ b) reads))
            λ _ reads. code bin32_code (bytes32 l ++ b) (via bin32_code (bytes32 l ++ b) reads)

pub 1-le-bytes_form : (l : ℕ) (s : Bytes) → 1 ≤ length (bytes_form l ++ s)
unfolding bytes_form
1-le-bytes_form l s =
    if_cases (λ bs. 1 ≤ length (bs ++ s)) (ltb l 256) (λ _. omega arith)
      λ _. if_cases (λ bs. 1 ≤ length (bs ++ s)) (leb l 65535) (λ _. omega arith) λ _. omega arith

pub Sent-bytes :
    (setup : Setup) (flags k : ℕ) (b : Bytes)
    → length b < 2 ^ 32
    → Sent setup flags (suc k) (Value.bytes (some b))
unfolding encode
Sent-bytes setup flags k b h =
    let bs = bytes_form (length b) ++ b in
    (
      bs,
      Value.bytes (some b),
      (λ e _ _. Writes-encode_bytes b h e),
      YieldsValue-suc setup k bs (Value.bytes (some b)) λ fuel _.
          Follows-bytes_form setup k (interface_fuel setup fuel) b (length b)
            (λ d p _. bytes_read b d h p.attached p.silent),
      refl,
      1-le-bytes_form (length b) b,
    )
