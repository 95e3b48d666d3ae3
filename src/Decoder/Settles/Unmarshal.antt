-- ===== src/Decoder/Settles/Unmarshal.antt =====
-- Decode and Unmarshal, on every input.
use msgpack.Prelude.{ℕ, ◌≡◌, ◌≤◌, ◌∙◌, refl, true, false, [], length, arith}
use msgpack.Outcome.{Outcome, ok, err, stuck}
use msgpack.Float.{Platform}
use msgpack.Decoder.{
  Decoder, Bytes, len_reader, reset, reset_dict, reset_reader, use_preallocated, put_decoder,
}
use msgpack.Decoder.Number.{
  decode_int, decode_int8, decode_int16, decode_int32, decode_int64, decode_uint, decode_uint8,
  decode_uint16, decode_uint32, decode_uint64,
}
use msgpack.Decoder.Float.{decode_float32, decode_float64}
use msgpack.Decoder.Text.{bytes}
use msgpack.Decoder.Dynamic.{decode_bool}
use msgpack.Decoder.Reflect.{decode_value, decode_object}
use msgpack.Decoder.Unmarshal.{
  Argument, nothing, value, nil_reference, reference, nil_string_map_reference, nil_other_reference,
  duration_reference, interface_of_value, bytes_ptr, decode_bytes_ptr, decode_switch, decode,
  put_back, unmarshal,
}
use msgpack.Encoder.Intern.{max_dict_len}
use msgpack.Encoder.Value.{word, bits8, bits16, bits32, bits64}
use msgpack.Reflect.{GoType, Object}
use msgpack.Decoder.Tracks.{Tracks-read_code}
use msgpack.Decoder.Settles.{
  Kept, Settles, settled, failed, Settles-Tracks, Settles-bind, Settles-map, Settles-fail,
}
use msgpack.Decoder.Settles.Numbers.{Tracks-uint, Tracks-int}
use msgpack.Decoder.Settles.Strings.{Settles-bytes, Settles-decode_string}
use msgpack.Decoder.Settles.Interface.{Tracks-bool}
use msgpack.Decoder.Settles.Reflect.{
  Tracks-leading, Tracks-float32_bits, Tracks-float64_bits, Settles-decode_string_slice, Ends,
  Settles-decode_value,
}
use msgpack.Decoder.Settles.Objects.{Settles-decode_object}

-- The arguments for which Decode may panic are a nil *[]string and a nil *map[string]string.
abbrev pub IsSafe : Argument → Type 0
IsSafe (nil_reference false GoType.strings) = ⊥
IsSafe nil_string_map_reference = ⊥
IsSafe _ = Unit {0}

module _ (cpu : Platform) where
  Settles-int : (d : Decoder) → Settles d (decode_int64 cpu d)
  unfolding decode_int64
  Settles-int d = Settles-Tracks d (Tracks-leading _ d (Tracks-int cpu))

  Settles-uint : (d : Decoder) → Settles d (decode_uint64 cpu d)
  unfolding decode_uint64
  Settles-uint d = Settles-Tracks d (Tracks-leading _ d (Tracks-uint cpu))

  Settles-value : (t : GoType) (old : Object) → Ends (decode_value (decode_object cpu t old))
  Settles-value t old d h =
      Settles-decode_value (decode_object cpu t old) d (Settles-decode_object cpu t old) h

  Settles-decode_switch : (t : GoType) (old : Object) → Ends (decode_switch cpu t old)
  unfolding decode_switch decode_bool decode_int decode_int8 decode_int16 decode_int32 decode_uint
      decode_uint8 decode_uint16 decode_uint32 decode_float32 decode_float64 decode_bytes_ptr bytes
      bytes_ptr
  Settles-decode_switch GoType.bool old d h =
      Settles-map d _ (Settles-Tracks d (Tracks-leading _ d Tracks-bool))
  Settles-decode_switch GoType.float32 old d h =
      Settles-map d _ (Settles-Tracks d (Tracks-leading _ d (Tracks-float32_bits cpu)))
  Settles-decode_switch GoType.float64 old d h =
      Settles-map d _ (Settles-Tracks d (Tracks-leading _ d (Tracks-float64_bits cpu)))
  Settles-decode_switch GoType.text old d h = Settles-map d _ (Settles-decode_string d)
  Settles-decode_switch GoType.bytes old d h =
      Settles-map d _
        (Settles-bind d (Settles-Tracks d (Tracks-read_code d)) λ c s _. Settles-bytes c s)
  Settles-decode_switch GoType.strings old d h = Settles-map d _ (Settles-decode_string_slice _ d)
  Settles-decode_switch (GoType.int word) old d h =
      Settles-map d _ (Settles-map d _ (Settles-int d))
  Settles-decode_switch (GoType.int bits8) old d h =
      Settles-map d _ (Settles-map d _ (Settles-int d))
  Settles-decode_switch (GoType.int bits16) old d h =
      Settles-map d _ (Settles-map d _ (Settles-int d))
  Settles-decode_switch (GoType.int bits32) old d h =
      Settles-map d _ (Settles-map d _ (Settles-int d))
  Settles-decode_switch (GoType.int bits64) old d h = Settles-map d _ (Settles-int d)
  Settles-decode_switch (GoType.uint word) old d h =
      Settles-map d _ (Settles-map d _ (Settles-uint d))
  Settles-decode_switch (GoType.uint bits8) old d h =
      Settles-map d _ (Settles-map d _ (Settles-uint d))
  Settles-decode_switch (GoType.uint bits16) old d h =
      Settles-map d _ (Settles-map d _ (Settles-uint d))
  Settles-decode_switch (GoType.uint bits32) old d h =
      Settles-map d _ (Settles-map d _ (Settles-uint d))
  Settles-decode_switch (GoType.uint bits64) old d h = Settles-map d _ (Settles-uint d)
  Settles-decode_switch (GoType.slice t) old d h = Settles-value (GoType.slice t) old d h
  Settles-decode_switch (GoType.array n t) old d h = Settles-value (GoType.array n t) old d h
  Settles-decode_switch (GoType.pointer t) old d h = Settles-value (GoType.pointer t) old d h
  Settles-decode_switch (GoType.struct as_array fs) old d h =
      Settles-value (GoType.struct as_array fs) old d h

  Settles-decode : (v : Argument) → IsSafe v → Ends (decode cpu v)
  unfolding decode
  Settles-decode nothing safe d h = Settles-fail _ d
  Settles-decode (value t) safe d h = Settles-fail _ d
  Settles-decode (nil_reference false GoType.strings) safe d h = absurd safe
  Settles-decode (nil_reference _ _) safe d h = Settles-fail _ d
  Settles-decode (reference false t old) safe d h = Settles-decode_switch t old d h
  Settles-decode (reference true t old) safe d h = Settles-value t old d h
  Settles-decode nil_string_map_reference safe d h = absurd safe
  Settles-decode nil_other_reference safe d h = Settles-fail _ d
  Settles-decode (duration_reference old) safe d h = Settles-map d _ (Settles-int d)
  Settles-decode interface_of_value safe d h = Settles-fail _ d

-- The call has returned, with a value or an error, and `P` holds of the decoder.
abbrev pub IsReturned : (Decoder → Type 0) → Outcome Decoder Object → Type 0
IsReturned P (ok o d) = P d
IsReturned P (err e d) = P d
IsReturned P stuck = ⊥

-- What a decoder that goes back to the pool is like: no reader, no depth, no options but
-- preallocation, a bounded dictionary, and the limit `limit`.
pub record IsPooled (limit : ℕ) (d : Decoder) : Type 0 where
  pub attached : d.attached ≡ false
  pub unread : d.unread ≡ []
  pub depth : d.depth ≡ 0
  pub flags : d.flags ≡ 4
  pub max_depth : d.max_depth ≡ limit
  pub dict : length d.dict ≤ max_dict_len

module _ (limit : ℕ) (d : Decoder) (depth : d.depth ≡ 0) (flags : d.flags ≡ 4)
    (max_depth : d.max_depth ≡ limit) (empty : d.dict ≡ []) where
  IsPooled-put_decoder : (d' : Decoder) → Kept d d' → IsPooled limit (put_decoder d')
  unfolding put_decoder
  IsPooled-put_decoder d' kept = record {
    attached = refl;
    unread = refl;
    depth = kept.depth_eq ∙ depth;
    flags = kept.flags_eq ∙ flags;
    max_depth = kept.max_depth_eq ∙ max_depth;
    dict = (rw empty at kept.dict_bound);
  }

  IsReturned-put_back :
      (cpu : Platform) (o : Outcome Decoder Object)
      → Settles d o
      → IsReturned (IsPooled limit) (put_back cpu o)
  IsReturned-put_back cpu _ (settled {d'} bs e kept) = IsPooled-put_decoder d' kept
  IsReturned-put_back cpu _ (failed {d'} bs e kept) = IsPooled-put_decoder d' kept

-- On every input, with whatever decoder the pool has, Unmarshal into an argument that Argument
-- describes returns, with a value or an error, unless the argument is a nil pointer to []string or
-- to map[string]string. Not covered are contents outside GoType but time.Duration, such as maps and
-- time.Time, pointers to interfaces that are nil or hold a pointer, and nil pointers to
-- map[string]any. The decoder that goes back to the pool has no reader, no depth, no options but
-- preallocation, a dictionary within its bound, and the depth limit that it had.
pub unmarshal-IsReturned :
    (cpu : Platform) (bs : Bytes) (v : Argument) (d : Decoder)
    → IsSafe v
    → IsReturned (IsPooled d.max_depth) (unmarshal cpu bs v d)
unfolding unmarshal use_preallocated reset reset_dict reset_reader
unmarshal-IsReturned cpu bs v d safe =
    let ready = use_preallocated true (reset (len_reader bs) d) in
    IsReturned-put_back d.max_depth ready refl refl refl refl cpu (decode cpu v ready)
      (Settles-decode cpu v safe ready (omega arith))
