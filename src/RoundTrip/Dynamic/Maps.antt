-- ===== src/RoundTrip/Dynamic/Maps.antt =====
-- Maps inside a value of type `any`.
use msgpack.Prelude.{
  Option, ℕ, suc, ◌+◌, ◌*◌, ◌^◌, ◌<◌, ◌≤◌, ◌≡◌, ◌∙◌, refl, ap, [], ◌∷◌, ◌++◌, append_assoc, length,
  length-append, ltb, leb, arith, if◌then◌else◌, if_cases, Bool-cases, inl, inr,
}
use mathlib.Core.Path.{subst}
use msgpack.Prelude.Int.{pos}
use msgpack.Outcome.{ok, ◌>>=◌, switch}
use msgpack.Wire.Code.{
  map16_code, map32_code, is_fixed_num, is_fixed_map, is_fixed_array, is_fixed_string,
}
use msgpack.Dynamic.{Value, Entries, no_entries, count_entries}
use msgpack.Dynamic.Canonical.{sort_entries, canonical, canonical_entries, HasDistinctKeys}
use msgpack.Dynamic.Sorting.{
  AllEntries, AllEntries-sort_entries, count_entries-sort_entries, HasDistinctKeys-sort_entries,
  canonical_entries-sort_entries, sort_entries-sort_entries,
}
use msgpack.Decoder.{Decoder, Decoding, Bytes, has_flag}
use msgpack.Decoder.Read.{read_code}
use msgpack.Decoder.Ext.{decode_map_len}
use msgpack.Decoder.Dynamic.{
  Setup, decode_entries, decode_map, map_by, map_default, interface_after, interface_fuel,
}
use msgpack.Encoder.{Encoder, sort_map_keys_flag}
use msgpack.Encoder.Number.{bytes16, bytes32}
use msgpack.Encoder.Length.{encode_map_len}
use msgpack.Encoder.Dynamic.{encode, encode_fields, encode_map_fields, fields_of}
use msgpack.Encoder.Dynamic.Sorted.{length-fields_of, sort_by_key-fields_of}
use msgpack.RoundTrip.Runs.{feed, taken_plain}
use msgpack.RoundTrip.Header.{map_form, Writes-encode_map_len}
use msgpack.RoundTrip.Container.{read_map_form}
use msgpack.RoundTrip.Dynamic.Yields.{
  IsPlainWith, YieldsUnset, Yields-map, Yields-code, YieldsValue-suc, Emits, Emits-bind,
}
use msgpack.RoundTrip.Dynamic.Leaves.{IsDirect, Sent}
use msgpack.RoundTrip.Dynamic.Entries.{SentEntry, SentEntries-AllEntries}

-- The header of a map, before the bytes of its entries.
pub map_header :
    {P : Option ℕ → Type 0} (l : ℕ) (bs : Bytes) (d : Decoder)
    → l < 2 ^ 32
    → 2 * l ≤ length bs
    → IsPlainWith P d
    → decode_map_len (feed (map_form l ++ bs) d) ≡ ok (pos l) (feed bs d)
unfolding decode_map_len
map_header l bs d h room p =
    rw append_assoc (
      read_map_form (feed bs d) p.attached p.sized l (omega (arith, length-append {0} bs d.unread))
        h d.recording)
    ∙ ap (ok (pos l)) (taken_plain (map_form l) (feed bs d) p.silent)

module _ (setup : Setup) (k : ℕ) (one : Decoding Value) (bs : Bytes) (ws : Entries) (l : ℕ) where
  Yields-decode_map :
      l < 2 ^ 32
      → 2 * l ≤ length bs
      → YieldsUnset k (decode_entries l one no_entries) bs ws
      → YieldsUnset k (decode_map one) (map_form l ++ bs) (Value.map ws)
  unfolding decode_map
  Yields-decode_map h room yields d p depth =
      rw (map_header l bs d h room p)
        (Yields-map k (decode_entries l one no_entries) Value.map bs ws yields d p depth)

  abbrev Follows : Bytes → Type 0
  Follows form =
      YieldsUnset k (decode_map one) (form ++ bs) (Value.map ws)
      → YieldsUnset k (read_code >>= interface_after setup one) (form ++ bs) (Value.map ws)

  -- The code is put back, and the map decoder reads it again.
  again :
      (c : ℕ) (rest : Bytes)
      → ((d : Decoder)
          → interface_after setup one c (feed rest d)
            ≡ map_default setup.map_decoders one (feed (c ∷ rest) d))
      → YieldsUnset k (decode_map one) (c ∷ rest) (Value.map ws)
      → YieldsUnset k (read_code >>= interface_after setup one) (c ∷ rest) (Value.map ws)
  again c rest same reads =
      Yields-code k (interface_after setup one) c rest (Value.map ws) λ d p depth.
        same d
        ∙ ap (λ o. map_by setup.map_decoders o one (feed (c ∷ rest) d)) p.allowed
        ∙ reads d p depth

  fixed_map : l < 16 → Follows ((128 + l) ∷ [])
  unfolding interface_after is_fixed_num is_fixed_map
  fixed_map h reads = again (128 + l) bs (λ d. ground arith) reads

  Follows-map_form : Follows (map_form l)
  unfolding map_form interface_after is_fixed_num is_fixed_map is_fixed_array is_fixed_string switch
  Follows-map_form =
      if_cases Follows (ltb l 16) (λ t. fixed_map (ground arith))
        λ _.
          if_cases Follows (leb l 65535)
            (λ _ reads. again map16_code (bytes16 l ++ bs) (λ _. refl) reads)
            λ _ reads. again map32_code (bytes32 l ++ bs) (λ _. refl) reads

pub 1-le-map_form : (l : ℕ) (s : Bytes) → 1 ≤ length (map_form l ++ s)
unfolding map_form
1-le-map_form l s =
    if_cases (λ bs. 1 ≤ length (bs ++ s)) (ltb l 16) (λ _. omega arith)
      λ _. if_cases (λ bs. 1 ≤ length (bs ++ s)) (leb l 65535) (λ _. omega arith) λ _. omega arith

-- The entries in the order in which they are written.
abbrev arranged : ℕ → Entries → Entries
arranged flags es = if has_flag flags sort_map_keys_flag then sort_entries es else es

module _ (setup : Setup) (flags : ℕ) (es : Entries) where
  -- A header with the count, and the entries in that order.
  Emits-map :
      (bs : Bytes)
      → count_entries es < 2 ^ 32
      → Emits flags (encode_fields (fields_of setup.platform (arranged flags es))) bs
      → Emits flags (encode setup.platform (Value.map es)) (map_form (count_entries es) ++ bs)
  unfolding encode encode_map_fields
  Emits-map bs h emits e hf hd =
      let fields = fields_of setup.platform in
      let n = count_entries es in
      let header =
        λ (s : Encoder) (_ : s.flags ≡ flags) (_ : s.dict ≡ []). Writes-encode_map_len n h s in
      elim (Bool-cases (has_flag flags sort_map_keys_flag)) [
        | inl on ↦
            rw
              (
                ap (λ f. has_flag f sort_map_keys_flag) hf ∙ on,
                length-fields_of setup.platform es,
                sort_by_key-fields_of setup.platform es,
              )
              (Emits-bind flags (encode_map_len n) (encode_fields (fields (sort_entries es)))
                (map_form n) bs header (rw on at emits) e hf hd)
        | inr off ↦
            rw
              (ap (λ f. has_flag f sort_map_keys_flag) hf ∙ off, length-fields_of setup.platform es)
              (Emits-bind flags (encode_map_len n) (encode_fields (fields es)) (map_form n) bs
                header (rw off at emits) e hf hd)
      ]

  count-arranged : count_entries (arranged flags es) ≡ count_entries es
  count-arranged =
      if_cases (λ fs. count_entries fs ≡ count_entries es) (has_flag flags sort_map_keys_flag)
        (λ _. count_entries-sort_entries es) (λ _. refl)

  -- The order of writing does not matter to what the map stands for.
  canonical-arranged :
      sort_entries (canonical_entries (arranged flags es)) ≡ sort_entries (canonical_entries es)
  canonical-arranged =
      if_cases (λ fs. sort_entries (canonical_entries fs) ≡ sort_entries (canonical_entries es))
        (has_flag flags sort_map_keys_flag)
        (λ _.
          ap sort_entries (canonical_entries-sort_entries es)
          ∙ sort_entries-sort_entries (canonical_entries es))
        (λ _. refl)

  pub Sent-map :
      (k : ℕ)
      → IsDirect flags
      → count_entries es < 2 ^ 32
      → HasDistinctKeys es
      → AllEntries (SentEntry setup flags k) es
      → Sent setup flags (suc k) (Value.map es)
  unfolding canonical
  Sent-map k direct h distinct sent =
      let test = has_flag flags sort_map_keys_flag in
      let fs = arranged flags es in
      let n = count_entries es in
      let (bs, ws, emits, yields, e, l) =
        SentEntries-AllEntries setup flags k fs direct
          (if_cases (AllEntries (SentEntry setup flags k)) test
            (λ _. AllEntries-sort_entries (SentEntry setup flags k) es sent) (λ _. sent))
          (if_cases HasDistinctKeys test (λ _. HasDistinctKeys-sort_entries es distinct)
            (λ _. distinct)) in
      (
        map_form n ++ bs,
        Value.map ws,
        Emits-map bs h emits,
        YieldsValue-suc setup k (map_form n ++ bs) (Value.map ws) (λ fuel enough.
            let one = interface_fuel setup fuel in
            Follows-map_form setup k one bs ws n (
              Yields-decode_map setup k one bs ws n h (omega (arith, l, count-arranged)) (
                subst (λ m. YieldsUnset k (decode_entries m one no_entries) bs ws) count-arranged
                  (yields fuel enough)))),
        ap (λ es'. Value.map (sort_entries es')) e ∙ ap Value.map canonical-arranged,
        1-le-map_form n bs,
      )
