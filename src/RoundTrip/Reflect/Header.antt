-- ===== src/RoundTrip/Reflect/Header.antt =====
-- The first bytes of a struct: the header of a map, or of an array.
use msgpack.Prelude.{
  ℕ, ◌+◌, ◌*◌, ◌^◌, ◌<◌, ◌≤◌, ◌≡◌, ◌∙◌, refl, sym, false, [], ◌∷◌, ◌++◌, length, ltb, leb, arith,
  if_cases,
}
use msgpack.Prelude.Int.{ℤ, pos}
use msgpack.Outcome.{Error, ok, err, ◌>>=◌}
use msgpack.Wire.Code.{is_ext, array16_code, array32_code, map16_code, map32_code}
use msgpack.Decoder.{Decoder, Decoding, Bytes}
use msgpack.Decoder.Read.{read_code}
use msgpack.Decoder.Length.{array_len, map_len}
use msgpack.Decoder.Ext.{map_len_after, decode_map_len}
use msgpack.Decoder.Reflect.{map_or_array}
use msgpack.Encoder.Number.{bytes16, bytes32}
use msgpack.Reflect.{Object}
use msgpack.RoundTrip.Runs.{feed, Reads-read_code, taken_plain}
use msgpack.RoundTrip.Header.{array_form, map_form}
use msgpack.RoundTrip.Dynamic.Yields.{IsPlain}
use msgpack.RoundTrip.Dynamic.Slices.{slice_header}
use msgpack.RoundTrip.Dynamic.Maps.{map_header}
use msgpack.RoundTrip.Reflect.Transfers.{NotNil}

past :
    {A : Type 0} (f : ℕ → Decoding A) (c : ℕ) (bs : Bytes) (d : Decoder)
    → IsPlain d
    → (read_code >>= f) (feed (c ∷ bs) d) ≡ f c (feed bs d)
past f c bs d p =
    rw (Reads-read_code c (feed bs d) p.attached, taken_plain (c ∷ []) (feed bs d) p.silent) refl

module _ (by_map by_array : ℤ → Decoding Object) (bs : Bytes) (d : Decoder) (p : IsPlain d)
    (l : ℕ) where
  abbrev pub struct_after : ℕ → Decoding Object
  struct_after c s = map_or_array c (map_len c s) by_map by_array

  -- What DecodeMapLen reads, the decoder of structs does.
  abbrev FollowsMap : Bytes → Type 0
  FollowsMap form =
      decode_map_len (feed (form ++ bs) d) ≡ ok (pos l) (feed bs d)
      → (read_code >>= struct_after) (feed (form ++ bs) d) ≡ by_map (pos l) (feed bs d)

  by_map_code :
      (c : ℕ) (rest : Bytes)
      → is_ext c ≡ false
      → decode_map_len (feed (c ∷ rest) d) ≡ ok (pos l) (feed bs d)
      → (read_code >>= struct_after) (feed (c ∷ rest) d) ≡ by_map (pos l) (feed bs d)
  unfolding decode_map_len
  by_map_code c rest plain reads =
      let lengths : map_len_after c (feed rest d) ≡ ok (pos l) (feed bs d) =
        sym (past map_len_after c rest d p) ∙ reads in
      past struct_after c rest d p ∙ rw (rw plain at lengths) refl

  FollowsMap-map_form : FollowsMap (map_form l)
  unfolding map_form is_ext
  FollowsMap-map_form =
      if_cases FollowsMap (ltb l 16) (λ t. by_map_code (128 + l) bs (ground (arith, t)))
        λ _.
          if_cases FollowsMap (leb l 65535) (λ _. by_map_code map16_code (bytes16 l ++ bs) refl)
            λ _. by_map_code map32_code (bytes32 l ++ bs) refl

  pub struct_map_header :
      l < 2 ^ 32
      → 2 * l ≤ length bs
      → (read_code >>= struct_after) (feed (map_form l ++ bs) d) ≡ by_map (pos l) (feed bs d)
  struct_map_header h room = FollowsMap-map_form (map_header l bs d h room p)

  -- What DecodeArrayLen reads, where it is no map.
  abbrev FollowsArray : Bytes → Type 0
  FollowsArray form =
      (read_code >>= array_len) (feed (form ++ bs) d) ≡ ok (pos l) (feed bs d)
      → (read_code >>= struct_after) (feed (form ++ bs) d) ≡ by_array (pos l) (feed bs d)

  by_array_code :
      (c : ℕ) (rest : Bytes)
      → ((s : Decoder) → map_len c s ≡ err (Error.unexpected_code c) s)
      → (read_code >>= array_len) (feed (c ∷ rest) d) ≡ ok (pos l) (feed bs d)
      → (read_code >>= struct_after) (feed (c ∷ rest) d) ≡ by_array (pos l) (feed bs d)
  by_array_code c rest no_map reads =
      let lengths : array_len c (feed rest d) ≡ ok (pos l) (feed bs d) =
        sym (past array_len c rest d p) ∙ reads in
      past struct_after c rest d p ∙ rw (no_map (feed rest d), lengths) refl

  FollowsArray-array_form : FollowsArray (array_form l)
  unfolding array_form map_len
  FollowsArray-array_form =
      if_cases FollowsArray (ltb l 16) (λ t. by_array_code (144 + l) bs (λ s. ground (arith, t)))
        λ _.
          if_cases FollowsArray (leb l 65535)
            (λ _. by_array_code array16_code (bytes16 l ++ bs) (λ s. refl))
            λ _. by_array_code array32_code (bytes32 l ++ bs) (λ s. refl)

  pub struct_array_header :
      l < 2 ^ 32
      → l ≤ length bs
      → (read_code >>= struct_after) (feed (array_form l ++ bs) d) ≡ by_array (pos l) (feed bs d)
  struct_array_header h room = FollowsArray-array_form (slice_header l bs d h room p)

pub NotNil-map_form : (l : ℕ) (s : Bytes) → NotNil (map_form l ++ s)
unfolding map_form
NotNil-map_form l s =
    if_cases (λ bs. NotNil (bs ++ s)) (ltb l 16) (λ t. ground (arith, t))
      λ _. if_cases (λ bs. NotNil (bs ++ s)) (leb l 65535) (λ _. refl) (λ _. refl)
