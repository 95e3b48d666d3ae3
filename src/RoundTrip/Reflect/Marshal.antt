-- ===== src/RoundTrip/Reflect/Marshal.antt =====
-- Marshal and Unmarshal.
use msgpack.Prelude.{suc, ◌≤◌, ◌≡◌, refl, ap, Bool, true, [], none, append-nil, arith}
use msgpack.Outcome.{ok}
use msgpack.Float.{Platform}
use msgpack.Decoder.{
  Decoder, Bytes, len_reader, depth_limit, reset, reset_dict, reset_reader, use_preallocated,
  put_decoder,
}
use msgpack.Decoder.Unmarshal.{reference, decode, put_back, unmarshal}
use msgpack.Encoder.{Encoder, reset as reset_encoder}
use msgpack.Encoder.Marshal.{append, marshal}
use msgpack.Reflect.{GoType, Object, zero_value}
use msgpack.Reflect.Sendable.{levels, IsSendable}
use msgpack.RoundTrip.Dynamic.Yields.{IsPlain}
use msgpack.RoundTrip.Dynamic.Leaves.{IsDirect}
use msgpack.RoundTrip.Reflect.Switches.{either_way}

-- The decoder of Unmarshal when it has read all.
abbrev pub drained : Decoder → Decoder
drained d = use_preallocated true (reset (len_reader []) d)

drained-IsPlain : (d : Decoder) → d.recording ≡ none → IsPlain (drained d)
unfolding use_preallocated reset reset_dict reset_reader
drained-IsPlain d silent = record {
  attached = refl;
  sized = refl;
  silent = silent;
  direct = refl;
  strict = refl;
  allowed = tt;
}

no_options : IsDirect 0
no_options = record { no_intern = refl; no_compact = refl }

-- Marshal turns a value of a Go type into bytes from which Unmarshal reads exactly that value into a
-- new target, whatever the encoder and the decoder of the pool were used for before: the encoder
-- comes back reset. The Decode that Unmarshal runs on the bytes takes all of them: it ends with the
-- decoder as after a reset to an empty reader, with preallocation on. The decoder then goes back to
-- the pool with its reader removed. The type may be a defined one or not. The value is one that the
-- wire format can carry: lengths are below 2^32, no slice has hidden elements, no pointer is to a
-- value that may be nil, a float32 is no signalling NaN, the names of the fields of a struct are
-- distinct, and a field that is left out has the zero value of its type. The decoder of the pool
-- does not record, and its limit leaves room for the depth of the type.
pub unmarshal-marshal :
    (cpu : Platform) (defined : Bool) (t : GoType) (o : Object) (e : Encoder) (d : Decoder)
    → IsSendable 0 t o
    → d.recording ≡ none
    → suc (levels t) ≤ depth_limit d
    → (bs : Bytes) × (marshal cpu defined t o e ≡ ok bs (reset_encoder e))
      × (decode cpu
            (reference defined t (zero_value t))
            (use_preallocated true (reset (len_reader bs) d))
          ≡ ok o (drained d))
      × (unmarshal cpu bs (reference defined t (zero_value t)) d ≡ ok o (put_decoder (drained d)))
unfolding marshal append unmarshal use_preallocated reset reset_dict reset_reader reset_encoder
unmarshal-marshal cpu defined t o e d h silent room =
    let moved = either_way cpu 0 (levels t) no_options defined t o (omega arith) h in
    let read = moved.yields (drained d) (drained-IsPlain d silent) (omega (arith, room)) in
    (
      moved.form,
      rw (moved.emits (record (reset_encoder e) { out = [] }) refl refl) refl,
      rw⁻¹ (append-nil moved.form) read,
      rw⁻¹ (append-nil moved.form) (ap (put_back cpu) read),
    )
