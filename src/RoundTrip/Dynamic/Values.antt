-- ===== src/RoundTrip/Dynamic/Values.antt =====
-- Every value of type `any` that the wire format can carry is read back.
use msgpack.Prelude.{ℕ, zero, suc, ◌+◌, ◌≤◌, ◌≡◌, refl, [], ◌++◌, none, some, arith}
use msgpack.Outcome.{ok}
use msgpack.Dynamic.{Value, Items, Entries, no_items, item, no_entries, entry}
use msgpack.Dynamic.Canonical.{
  canonical, IsEncodable, AreEncodable, EntriesEncodable, rank, rank_items, rank_entries,
}
use msgpack.Dynamic.Sorting.{AllEntries}
use msgpack.Decoder.{Decoder, Bytes, depth_limit}
use msgpack.Decoder.Dynamic.{Setup, decode_interface_cond}
use msgpack.Encoder.{Encoder}
use msgpack.Encoder.Text.{encode_bytes}
use msgpack.Encoder.Dynamic.{encode}
use msgpack.RoundTrip.Runs.{feed}
use msgpack.RoundTrip.Dynamic.Yields.{IsPlain, IsPlainWith, IsUnset}
use msgpack.RoundTrip.Dynamic.Leaves.{
  IsDirect, Sent, Sent-nil, Sent-bool, Sent-float32, Sent-float64,
}
use msgpack.RoundTrip.Dynamic.Text.{Sent-text, Sent-bytes}
use msgpack.RoundTrip.Dynamic.Numbers.{Sent-int}
use msgpack.RoundTrip.Dynamic.Unsigned.{Sent-uint}
use msgpack.RoundTrip.Dynamic.Slices.{SentItems, SentItems-no_items, SentItems-item, Sent-slice}
use msgpack.RoundTrip.Dynamic.Entries.{SentEntry}
use msgpack.RoundTrip.Dynamic.Maps.{Sent-map}

-- At least one level of depth, and the levels of the parts below it.
below :
    (setup : Setup) (flags : ℕ) (v : Value) (r k : ℕ)
    → suc r ≤ k
    → ((k' : ℕ) → r ≤ k' → Sent setup flags (suc k') v)
    → Sent setup flags k v
below setup flags v r zero h sent = absurd (omega arith)
below setup flags v r (suc k) h sent = sent k (omega arith)

module _ (setup : Setup) (flags : ℕ) (direct : IsDirect flags) where
  mutual
    unfolding rank IsEncodable encode canonical encode_bytes

    Sent-value : (v : Value) (k : ℕ) → rank v ≤ k → IsEncodable v → Sent setup flags k v
    Sent-value Value.nil k h p =
        below setup flags Value.nil 0 k h (λ k' _. Sent-nil setup flags k' Value.nil refl refl)
    Sent-value Value.nil_slice k h p =
        below setup flags Value.nil_slice 0 k h
          (λ k' _. Sent-nil setup flags k' Value.nil_slice refl refl)
    Sent-value Value.nil_map k h p =
        below setup flags Value.nil_map 0 k h
          (λ k' _. Sent-nil setup flags k' Value.nil_map refl refl)
    Sent-value (Value.bool b) k h p =
        below setup flags (Value.bool b) 0 k h (λ k' _. Sent-bool setup flags k' b)
    Sent-value (Value.int w z) k h p =
        below setup flags (Value.int w z) 0 k h (λ k' _. Sent-int setup flags k' w z p)
    Sent-value (Value.uint w n) k h p =
        below setup flags (Value.uint w n) 0 k h (λ k' _. Sent-uint setup flags k' n w p)
    Sent-value (Value.float32 n) k h p =
        below setup flags (Value.float32 n) 0 k h (λ k' _. Sent-float32 setup flags k' n direct p)
    Sent-value (Value.float64 n) k h p =
        below setup flags (Value.float64 n) 0 k h (λ k' _. Sent-float64 setup flags k' n direct p)
    Sent-value (Value.text s) k h p =
        below setup flags (Value.text s) 0 k h (λ k' _. Sent-text setup flags k' s direct p)
    Sent-value (Value.bytes none) k h p =
        below setup flags (Value.bytes none) 0 k h
          (λ k' _. Sent-nil setup flags k' (Value.bytes none) refl refl)
    Sent-value (Value.bytes (some b)) k h p =
        below setup flags (Value.bytes (some b)) 0 k h (λ k' _. Sent-bytes setup flags k' b p)
    Sent-value (Value.time t) k h p = absurd p
    Sent-value (Value.slice vs) k h p =
        below setup flags (Value.slice vs) (rank_items vs) k h
          (λ k' h'. Sent-slice setup flags k' vs (p.0) (SentItems-values vs k' h' (p.1)))
    Sent-value (Value.map es) k h p =
        below setup flags (Value.map es) (rank_entries es) k h (λ k' h'.
          Sent-map setup flags es k' direct (p.0) (p.1) (AllEntries-values es k' h' (p.2)))

    SentItems-values :
        (vs : Items) (k : ℕ) → rank_items vs ≤ k → AreEncodable vs → SentItems setup flags k vs
    SentItems-values no_items k h p = SentItems-no_items setup flags k
    SentItems-values (item v vs) k h p =
        SentItems-item setup flags k v vs (Sent-value v k (omega arith) (p.0)) (p.1)
          (SentItems-values vs k (omega arith) (p.2))

    AllEntries-values :
        (es : Entries) (k : ℕ)
        → rank_entries es ≤ k
        → EntriesEncodable es
        → AllEntries (SentEntry setup flags k) es
    AllEntries-values no_entries k h p = tt
    AllEntries-values (entry key v es) k h p =
        ((p.0, Sent-value v k (omega arith) (p.1)), AllEntries-values es k (omega arith) (p.2))

IsPlain-IsUnset : (d : Decoder) → IsPlain d → d.map_decoder ≡ none → IsPlainWith IsUnset d
IsPlain-IsUnset d p unset = record {
  attached = p.attached;
  sized = p.sized;
  silent = p.silent;
  direct = p.direct;
  strict = p.strict;
  allowed = unset;
}

-- A value of type `any` that the wire format can carry, nested to any depth that the decoder's
-- limit leaves, is written by Encode, with sorted keys and compact integers on or off, as bytes
-- from which decodeInterfaceCond, before any further input, reads a value that stands for the
-- same. Lengths are below 2^32, the keys of a map are distinct, no element of a slice is a float32
-- that is a signalling NaN, and times are not covered. Strings are not interned, floats not
-- compacted, no map decoder is set, and the decoder has a reader with a Len method, does not record,
-- and does not decode loosely.
pub decode_interface_cond-encode :
    (setup : Setup) (v : Value) (e : Encoder) (d : Decoder)
    → IsEncodable v
    → IsDirect e.flags
    → e.dict ≡ []
    → IsPlain d
    → d.map_decoder ≡ none
    → d.depth + rank v ≤ depth_limit d
    → (bs : Bytes) × (w : Value) × (encode setup.platform v e
        ≡ ok tt (record e { out = e.out ++ bs }))
      × (decode_interface_cond setup (feed bs d) ≡ ok w d)
      × (canonical w ≡ canonical v)
unfolding decode_interface_cond
decode_interface_cond-encode setup v e d p direct empty plain default room =
    let (bs, w, emits, yields, same, l) =
      Sent-value setup e.flags direct v (rank v) (omega arith) p in
    (
      bs,
      w,
      emits e refl empty,
      yields (suc (depth_limit d)) (omega (arith, room)) d (IsPlain-IsUnset d plain default) room,
      same,
    )
