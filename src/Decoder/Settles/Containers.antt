-- ===== src/Decoder/Settles/Containers.antt =====
-- Slices and maps of values, on every input.
use msgpack.Prelude.{ℕ, suc, zero, ◌+◌, ◌≤◌, ◌<◌}
use msgpack.Prelude.Int.{ℤ, pos, negsuc}
use msgpack.Dynamic.{Value, Entries, no_entries, assign}
use msgpack.Decoder.{Decoder, Decoding, depth_limit}
use msgpack.Decoder.Dynamic.{
  decode_items, decode_entries, slice_with_len, decode_slice, map_with_len, decode_map,
}
use msgpack.Decoder.Tracks.Headers.{Tracks-array_len}
use msgpack.Decoder.Settles.Strings.{Tracks-decode_map_len, Settles-decode_string}
use msgpack.Decoder.Settles.{Kept, Settles, Settles-Tracks, Settles-pure, Settles-bind, Settles-map}

-- The depth is within the limit, and `fuel` more calls may be entered at most.
pub record HasLevels (fuel : ℕ) (d : Decoder) : Type 0 where
  pub within : d.depth ≤ depth_limit d
  pub enough : depth_limit d < d.depth + fuel

pub HasLevels-Kept : (fuel : ℕ) (d d' : Decoder) → Kept d d' → HasLevels fuel d → HasLevels fuel d'
HasLevels-Kept fuel d d' kept h = record {
  within = rw (kept.depth_eq, kept.max_depth_eq) h.within;
  enough = rw (kept.depth_eq, kept.max_depth_eq) h.enough;
}

module _ (fuel : ℕ) (one : Decoding Value)
    (body : (d : Decoder) → HasLevels fuel d → Settles d (one d)) where
  Settles-decode_items : (n : ℕ) (d : Decoder) → HasLevels fuel d → Settles d (decode_items n one d)
  unfolding decode_items
  Settles-decode_items zero d q = Settles-pure _ d
  Settles-decode_items (suc n) d q =
      Settles-bind d (body d q)
        λ v d' kept. Settles-map d' _ (Settles-decode_items n d' (HasLevels-Kept fuel d d' kept q))

  Settles-slice_with_len :
      (n : ℤ) (d : Decoder) → HasLevels fuel d → Settles d (slice_with_len one n d)
  Settles-slice_with_len (negsuc n) d q = Settles-pure _ d
  Settles-slice_with_len (pos n) d q = Settles-map d _ (Settles-decode_items n d q)

  pub Settles-decode_slice :
      (c : ℕ) (d : Decoder) → HasLevels fuel d → Settles d (decode_slice one c d)
  unfolding decode_slice
  Settles-decode_slice c d q =
      Settles-bind d (Settles-Tracks d (Tracks-array_len c d))
        λ n d' kept. Settles-slice_with_len n d' (HasLevels-Kept fuel d d' kept q)

  Settles-decode_entries :
      (n : ℕ) (m : Entries) (d : Decoder) → HasLevels fuel d → Settles d (decode_entries n one m d)
  unfolding decode_entries
  Settles-decode_entries zero m d q = Settles-pure m d
  Settles-decode_entries (suc n) m d q = Settles-bind d (Settles-decode_string d) λ key d' kept.
      let q' = HasLevels-Kept fuel d d' kept q in
      Settles-bind d' (body d' q')
        λ v s more. Settles-decode_entries n (assign key v m) s (HasLevels-Kept fuel d' s more q')

  Settles-map_with_len : (n : ℤ) (d : Decoder) → HasLevels fuel d → Settles d (map_with_len one n d)
  Settles-map_with_len (negsuc n) d q = Settles-pure _ d
  Settles-map_with_len (pos n) d q = Settles-map d _ (Settles-decode_entries n no_entries d q)

  pub Settles-decode_map : (d : Decoder) → HasLevels fuel d → Settles d (decode_map one d)
  unfolding decode_map
  Settles-decode_map d q =
      Settles-bind d (Settles-Tracks d (Tracks-decode_map_len d))
        λ n d' kept. Settles-map_with_len n d' (HasLevels-Kept fuel d d' kept q)
