-- ===== src/RoundTrip/Dynamic/Leaves.antt =====
-- Values without parts: nil, booleans, floats, strings and byte strings.
use msgpack.Prelude.{
  ℕ, suc, ◌^◌, ◌<◌, ◌≤◌, ◌≡◌, refl, sym, Bool, true, false, [], ◌∷◌, length, arith,
}
use msgpack.Outcome.{switch}
use msgpack.Wire.Code.{
  nil_code, true_code, false_code, float_code, double_code, is_fixed_num, is_fixed_map,
  is_fixed_array, is_fixed_string,
}
use msgpack.Dynamic.{Value}
use msgpack.Dynamic.Canonical.{canonical}
use msgpack.Decoder.{Bytes, has_flag, use_interned_strings_flag}
use msgpack.Decoder.Word.{uint32, uint64}
use msgpack.Decoder.Dynamic.{Setup, bool, interface_after}
use msgpack.Encoder.{write_code, write, use_compact_floats_flag}
use msgpack.Encoder.Number.{bytes32, bytes64, write4, write8}
use msgpack.Encoder.Float.{encode_float32, encode_float64}
use msgpack.Encoder.Text.{encode_nil, encode_bool}
use msgpack.Encoder.Dynamic.{encode}
use msgpack.RoundTrip.Word.{Reads-uint32, Reads-uint64}
use msgpack.RoundTrip.Dynamic.Yields.{
  Yields-of_Reads, Yields-map, Yields-pure, Yields-code, YieldsValue, YieldsValue-suc, Emits,
}

-- The options of an encoder: no interning, and floats as they are.
pub record IsDirect (flags : ℕ) : Type 0 where
  pub no_intern : has_flag flags use_interned_strings_flag ≡ false
  pub no_compact : has_flag flags use_compact_floats_flag ≡ false

-- The encoder with the options `flags` writes bytes that are read, with `k` levels of depth, as a
-- value that stands for the same.
abbrev pub Sent : Setup → ℕ → ℕ → Value → Type 0
Sent setup flags k v =
    (bs : Bytes) × (w : Value) × Emits flags (encode setup.platform v) bs
    × YieldsValue setup k bs w
    × (canonical w ≡ canonical v)
    × (1 ≤ length bs)

module _ (setup : Setup) (flags k : ℕ) where
  pub Sent-nil :
      (v : Value)
      → encode setup.platform v ≡ encode_nil
      → canonical v ≡ Value.nil
      → Sent setup flags (suc k) v
  unfolding canonical encode_nil write_code write interface_after is_fixed_num is_fixed_map
      is_fixed_array is_fixed_string switch
  Sent-nil v e c = (
    nil_code ∷ [],
    Value.nil,
    (λ s _ _. rw e refl),
    YieldsValue-suc setup k (nil_code ∷ []) Value.nil
        λ fuel _. Yields-code k _ nil_code [] Value.nil (Yields-pure k Value.nil),
    sym c,
    omega arith,
  )

  pub Sent-bool : (b : Bool) → Sent setup flags (suc k) (Value.bool b)
  unfolding canonical encode encode_bool write_code write interface_after is_fixed_num is_fixed_map
      is_fixed_array is_fixed_string switch bool
  Sent-bool true = (
    true_code ∷ [],
    Value.bool true,
    (λ s _ _. refl),
    YieldsValue-suc setup k (true_code ∷ []) (Value.bool true)
        λ fuel _. Yields-code k _ true_code [] (Value.bool true) (Yields-pure k (Value.bool true)),
    refl,
    omega arith,
  )
  Sent-bool false = (
    false_code ∷ [],
    Value.bool false,
    (λ s _ _. refl),
    YieldsValue-suc setup k (false_code ∷ []) (Value.bool false) λ fuel _.
        Yields-code k _ false_code [] (Value.bool false) (Yields-pure k (Value.bool false)),
    refl,
    omega arith,
  )

  pub Sent-float32 :
      (n : ℕ) → IsDirect flags → n < 2 ^ 32 → Sent setup flags (suc k) (Value.float32 n)
  unfolding canonical encode encode_float32 write4 write interface_after is_fixed_num is_fixed_map
      is_fixed_array is_fixed_string switch
  Sent-float32 n p h = (
    float_code ∷ bytes32 n,
    Value.float32 n,
    (λ s hf _. rw (hf, p.no_compact) refl),
    YieldsValue-suc setup k (float_code ∷ bytes32 n) (Value.float32 n) λ fuel _.
        Yields-code k _ float_code (bytes32 n) (Value.float32 n) (
          Yields-map k uint32 Value.float32 (bytes32 n) n
            (Yields-of_Reads k uint32 (bytes32 n) n (Reads-uint32 n h))),
    refl,
    omega arith,
  )

  pub Sent-float64 :
      (n : ℕ) → IsDirect flags → n < 2 ^ 64 → Sent setup flags (suc k) (Value.float64 n)
  unfolding canonical encode encode_float64 write8 write interface_after is_fixed_num is_fixed_map
      is_fixed_array is_fixed_string switch
  Sent-float64 n p h = (
    double_code ∷ bytes64 n,
    Value.float64 n,
    (λ s hf _. rw (hf, p.no_compact) refl),
    YieldsValue-suc setup k (double_code ∷ bytes64 n) (Value.float64 n) λ fuel _.
        Yields-code k _ double_code (bytes64 n) (Value.float64 n) (
          Yields-map k uint64 Value.float64 (bytes64 n) n
            (Yields-of_Reads k uint64 (bytes64 n) n (Reads-uint64 n h))),
    refl,
    omega arith,
  )
