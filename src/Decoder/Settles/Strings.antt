-- ===== src/Decoder/Settles/Strings.antt =====
-- Strings, byte strings and map headers, on every input.
use msgpack.Prelude.{
  ℕ, suc, zero, ◌<◌, refl, sym, Bool, [], ◌∷◌, ◌++◌, append-nil, length, length-append, take, drop,
  take-append-drop, leb, ltb, Bool-cases, inl, inr, arith, bit_and, not,
}
use msgpack.Prelude.Int.{ℤ, pos, negsuc}
use msgpack.Wire.Code.{is_ext, is_fixed_string, fixed_str_mask}
use msgpack.Encoder.Intern.{is_internable, max_dict_len}
use msgpack.Decoder.{Decoder, Bytes, has_flag, use_interned_strings_flag}
use msgpack.Decoder.Read.{read_block}
use msgpack.Decoder.Ext.{ext_header, ext_header_len, skip_ext_header, decode_map_len}
use msgpack.Decoder.Text.{string, string_with_len, bytes, bytes_with_len}
use msgpack.Decoder.Intern.{
  decode_interned_string_index, interned_string_at_index, learn, decode_interned_string_with_len,
  is_intern_id, decode_intern_ext, interned_after, decode_interned_string, reads_interned,
  decode_string,
}
use msgpack.Decoder.Tracks.{
  Tracks, Tracks-pure, Tracks-fail, Tracks-if, Tracks-choice, Tracks-bind, Tracks-switch,
  Tracks-times, Tracks-read_code, Tracks-read_n,
}
use msgpack.Decoder.Tracks.Headers.{
  Tracks-uint8, Tracks-uint16, Tracks-uint32, Tracks-uint32_to_int, Tracks-bytes_len,
  Tracks-map_len, Tracks-parse_ext_len,
}
use msgpack.Decoder.Settles.{
  Kept, Kept-Frame, Settles, settled, failed, Settles-Tracks, Settles-pure, Settles-fail,
  Settles-choice, Settles-switch, Settles-bind, Settles-map,
}

Tracks-string_with_len : (n : ℤ) (d : Decoder) → Tracks d (string_with_len n d)
unfolding string_with_len
Tracks-string_with_len (pos zero) d = Tracks-pure [] d
Tracks-string_with_len (pos (suc n)) d = Tracks-read_n (suc n) d
Tracks-string_with_len (negsuc n) d = Tracks-pure [] d

pub Tracks-string : (c : ℕ) (d : Decoder) → Tracks d (string c d)
unfolding string
Tracks-string c d = Tracks-bind (Tracks-bytes_len c d) λ n d' _. Tracks-string_with_len n d'

pub Tracks-ext_header : (c : ℕ) (d : Decoder) → Tracks d (ext_header c d)
unfolding ext_header
Tracks-ext_header c d =
    Tracks-bind (Tracks-parse_ext_len c d)
      λ n d' _. Tracks-bind (Tracks-read_code d') λ c' d'' _. Tracks-pure _ d''

Tracks-skip_ext_header : (c : ℕ) (d : Decoder) → Tracks d (skip_ext_header c d)
unfolding skip_ext_header
Tracks-skip_ext_header c d = Tracks-bind (Tracks-read_code d) λ _ d' _.
    Tracks-times (λ _. Unit {0}) _ (λ _ _ _ _. tt)
      (λ s _. Tracks-bind (Tracks-read_code s) λ _ s' _. Tracks-pure tt s') (ext_header_len c) d' tt

pub Tracks-decode_map_len : (d : Decoder) → Tracks d (decode_map_len d)
unfolding decode_map_len
Tracks-decode_map_len d = Tracks-bind (Tracks-read_code d) λ c d' _.
    Tracks-choice (is_ext c) _ _
      (Tracks-bind (Tracks-skip_ext_header c d')
        λ _ s _. Tracks-bind (Tracks-read_code s) λ c' s' _. Tracks-map_len c' s')
      (Tracks-map_len c d')

-- readN of a new buffer, which is not recorded.
Kept-moved : (d : Decoder) (rest : Bytes) → Kept d (record d { unread = rest })
Kept-moved d rest =
    Kept-Frame d (record d { unread = rest })
      (record {
        attached_eq = refl;
        sized_eq = refl;
        dict_eq = refl;
        struct_tag_eq = refl;
        map_decoder_eq = refl;
        depth_eq = refl;
        max_depth_eq = refl;
        flags_eq = refl;
      })

Settles-read_block : (n : ℕ) (d : Decoder) → Settles d (read_block n d)
unfolding read_block
Settles-read_block n d = elim (Bool-cases (ltb (length d.unread) n)) [
  | inl short ↦ rw short (failed d.unread (sym (append-nil d.unread)) (Kept-moved d []))
  | inr enough ↦ rw enough (
      settled (take n d.unread) (sym (take-append-drop n d.unread))
        (Kept-moved d (drop n d.unread)))
]

Settles-bytes_with_len : (n : ℤ) (d : Decoder) → Settles d (bytes_with_len n d)
unfolding bytes_with_len
Settles-bytes_with_len (negsuc n) d = Settles-pure _ d
Settles-bytes_with_len (pos n) d = Settles-map d _ (Settles-read_block n d)

pub Settles-bytes : (c : ℕ) (d : Decoder) → Settles d (bytes c d)
unfolding bytes
Settles-bytes c d =
    Settles-bind d (Settles-Tracks d (Tracks-bytes_len c d)) λ n d' _. Settles-bytes_with_len n d'

-- The dictionary grows by one string, while it is below its bound.
Kept-learnt :
    (d : Decoder) (s : Bytes)
    → length d.dict < max_dict_len
    → Kept d (record d { dict = d.dict ++ s ∷ [] })
Kept-learnt d s h = record {
  attached_eq = refl;
  sized_eq = refl;
  struct_tag_eq = refl;
  map_decoder_eq = refl;
  depth_eq = refl;
  max_depth_eq = refl;
  flags_eq = refl;
  added = s ∷ [];
  dict_eq = refl;
  dict_bound = rw (length-append d.dict (s ∷ [])) (omega (arith, h));
}

Settles-learn : (s : Bytes) (intern : Bool) (d : Decoder) → Settles d (learn s intern d)
Settles-learn s intern d = elim (Bool-cases (is_internable intern s (length d.dict))) [
  | inl new ↦ rw new (settled [] refl (Kept-learnt d s (ground (arith, new))))
  | inr old ↦ rw old (Settles-pure s d)
]

Settles-interned_with_len :
    (n : ℕ) (intern : Bool) (d : Decoder) → Settles d (decode_interned_string_with_len n intern d)
unfolding decode_interned_string_with_len
Settles-interned_with_len zero intern d = Settles-pure [] d
Settles-interned_with_len (suc n) intern d =
    Settles-bind d (Settles-Tracks d (Tracks-string_with_len (pos (suc n)) d))
      λ s d' _. Settles-learn s intern d'

pub Tracks-index : (n : ℕ) (d : Decoder) → Tracks d (decode_interned_string_index n d)
unfolding decode_interned_string_index
Tracks-index n d =
    Tracks-switch n _ _
      (
        (Tracks-bind (Tracks-uint8 d) λ k d' _. Tracks-pure k d'),
        (
          (Tracks-bind (Tracks-uint16 d) λ k d' _. Tracks-pure k d'),
          ((Tracks-bind (Tracks-uint32 d) λ k d' _. Tracks-uint32_to_int k d'), tt),
        ),
      )
      (Tracks-fail _ d)

pub Tracks-at_index : (n : ℕ) (d : Decoder) → Tracks d (interned_string_at_index n d)
unfolding interned_string_at_index
Tracks-at_index n d = Tracks-if (leb (length d.dict) n) (Tracks-fail _ d) (Tracks-pure _ d)

Tracks-intern_ext : (h : ℤ × ℕ) (d : Decoder) → Tracks d (decode_intern_ext h d)
Tracks-intern_ext (id, n) d =
    Tracks-choice (not (is_intern_id id)) _ _ (Tracks-fail _ d)
      (Tracks-bind (Tracks-index n d) λ k d' _. Tracks-at_index k d')

pub Settles-interned_after :
    (intern : Bool) (c : ℕ) (d : Decoder) → Settles d (interned_after intern c d)
Settles-interned_after intern c d =
    let sized = λ (n : ℕ) (s : Decoder). Settles-interned_with_len n intern s in
    Settles-choice (is_fixed_string c) _ _ (sized (bit_and c fixed_str_mask) d) (
      Settles-switch c _ _
        (
          Settles-pure [] d,
          (
            Settles-Tracks d (Tracks-bind (Tracks-ext_header c d) λ h d' _. Tracks-intern_ext h d'),
            (
              (Settles-bind d (Settles-Tracks d (Tracks-uint8 d)) λ n d' _. sized n d'),
              (
                (Settles-bind d (Settles-Tracks d (Tracks-uint16 d)) λ n d' _. sized n d'),
                (
                  (Settles-bind d (Settles-Tracks d (Tracks-uint32 d)) λ n d' _.
                      Settles-bind d' (Settles-Tracks d' (Tracks-uint32_to_int n d'))
                        λ k s _. sized k s),
                  tt,
                ),
              ),
            ),
          ),
        )
        (Settles-fail _ d))

pub Settles-decode_string : (d : Decoder) → Settles d (decode_string d)
unfolding decode_string decode_interned_string
Settles-decode_string d =
    let intern = has_flag d.flags use_interned_strings_flag in
    let read = Settles-Tracks d (Tracks-read_code d) in
    elim (Bool-cases (reads_interned d)) [
      | inl by_index ↦
          rw by_index (Settles-bind d read λ c d' _. Settles-interned_after intern c d')
      | inr plain ↦ rw plain (Settles-bind d read λ c d' _. Settles-Tracks d' (Tracks-string c d'))
    ]
