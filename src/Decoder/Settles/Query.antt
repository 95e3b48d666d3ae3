-- ===== src/Decoder/Settles/Query.antt =====
-- Query on every input.
use msgpack.Prelude.{
  ℕ, zero, suc, ◌*◌, ◌≤◌, ◌<◌, ◌≡◌, refl, sym, Bool, true, false, [], ◌∷◌, Option, none, some, leb,
  length, ◌==◌, ◌||◌, arith, Bool-cases, inl, inr, if◌then◌else◌,
}
use mathlib.Core.Path.{subst}
use msgpack.Prelude.Int.{ℤ, pos, negsuc}
use msgpack.Outcome.{Error, err, times}
use msgpack.Wire.Code.{
  is_fixed_map, is_fixed_array, map16_code, map32_code, array16_code, array32_code,
}
use msgpack.Dynamic.{Value}
use msgpack.Encoder.Intern.{same}
use msgpack.Decoder.{Decoder, Decoding, Bytes, depth_limit, has_flag, use_interned_strings_flag}
use msgpack.Decoder.Read.{peek_code, first_byte}
use msgpack.Decoder.Length.{decode_array_len}
use msgpack.Decoder.Intern.{
  decode_interned_string, temp_with_len, decode_string_temp, reads_interned,
}
use msgpack.Decoder.Dynamic.{Setup}
use msgpack.Decoder.Query.{
  QueryResult, split_dot, next_key, skip_next, finish, found, find_key, map_key, query_map_key,
  query_each, find_index, at_index, atoi, is_index, array_index, query_array_index, query_by_code,
  query_fuel, query,
}
use msgpack.Decoder.Tracks.{
  Tracks, Tracks-pure, Tracks-fail, Tracks-bind, Tracks-read_code, Tracks-read_n,
}
use msgpack.Decoder.Tracks.Headers.{Tracks-bytes_len, Tracks-array_len}
use msgpack.Decoder.Tracks.Skip.{skip-Tracks}
use msgpack.Decoder.Settles.Strings.{Tracks-decode_map_len, Settles-interned_after}
use msgpack.Decoder.Settles.Interface.{decode_interface_cond-Settles}
use msgpack.Decoder.Settles.{
  IsWithin, IsWithin-Kept, Settles, Settles-Tracks, Settles-pure, Settles-fail, Settles-choice,
  Settles-bind, Settles-map,
}

Tracks-temp_with_len : (n : ℤ) (d : Decoder) → Tracks d (temp_with_len n d)
unfolding temp_with_len
Tracks-temp_with_len (negsuc n) d = Tracks-pure [] d
Tracks-temp_with_len (pos n) d = Tracks-read_n n d

pub Settles-decode_string_temp : (d : Decoder) → Settles d (decode_string_temp d)
unfolding decode_string_temp decode_interned_string
Settles-decode_string_temp d =
    let intern = has_flag d.flags use_interned_strings_flag in
    let read = Settles-Tracks d (Tracks-read_code d) in
    elim (Bool-cases (reads_interned d)) [
      | inl by_index ↦
          rw by_index (Settles-bind d read λ c d' _. Settles-interned_after intern c d')
      | inr plain ↦ rw plain (
          Settles-bind d read λ c d' _.
            Settles-Tracks d'
              (Tracks-bind (Tracks-bytes_len c d') λ n s _. Tracks-temp_with_len n s))
    ]

pub Tracks-peek_code : (d : Decoder) → Tracks d (peek_code d)
unfolding peek_code
Tracks-peek_code d = choose d.attached
  where
    go : (bs : Bytes) → Tracks d (first_byte bs d)
    go [] = Tracks-fail _ d
    go (c ∷ rest) = Tracks-pure c d

    choose : (b : Bool) → Tracks d (if b then first_byte d.unread d else err Error.eof d)
    choose true = go d.unread
    choose false = Tracks-fail _ d

pub Tracks-decode_array_len : (d : Decoder) → Tracks d (decode_array_len d)
unfolding decode_array_len
Tracks-decode_array_len d = Tracks-bind (Tracks-read_code d) λ c d' _. Tracks-array_len c d'

Settles-skip_next : (n : ℕ) (d : Decoder) → IsWithin d → Settles d (skip_next n d)
unfolding skip_next times
Settles-skip_next zero d h = Settles-pure tt d
Settles-skip_next (suc n) d h =
    Settles-bind d (Settles-Tracks d (skip-Tracks d h))
      λ _ d' kept. Settles-skip_next n d' (IsWithin-Kept d d' kept h)

-- Calls for what is left of the query, which is of length `m`.
module _ (again : QueryResult → Decoding QueryResult) (query_left : Bytes)
    (body : (q : QueryResult) (d : Decoder)
      → q.query_left ≡ query_left
      → IsWithin d
      → Settles d (again q d)) where
  Settles-finish : (n : ℕ) (q : QueryResult) (d : Decoder) → IsWithin d → Settles d (finish n q d)
  Settles-finish n q d h =
      Settles-choice q.has_asterisk _ _ (Settles-map d _ (Settles-skip_next n d h))
        (Settles-pure q d)

  Settles-found :
      (n : ℕ) (q : QueryResult) (d : Decoder)
      → q.query_left ≡ query_left
      → IsWithin d
      → Settles d (found again n q d)
  Settles-found n q d e h =
      Settles-bind d (body q d e h) λ q' d' kept. Settles-finish n q' d' (IsWithin-Kept d d' kept h)

  Settles-find_key :
      (n : ℕ) (q : QueryResult) (d : Decoder)
      → q.query_left ≡ query_left
      → IsWithin d
      → Settles d (find_key again n q d)
  unfolding find_key
  Settles-find_key zero q d e h = Settles-pure q d
  Settles-find_key (suc n) q d e h = Settles-bind d (Settles-decode_string_temp d) λ key d' kept.
      let h' = IsWithin-Kept d d' kept h in
      Settles-choice (same key q.key) _ _ (Settles-found (n * 2) q d' e h') (
        Settles-bind d' (Settles-Tracks d' (skip-Tracks d' h'))
          λ _ s more. Settles-find_key n q s e (IsWithin-Kept d' s more h'))

  Settles-map_key :
      (q : QueryResult) (n : ℤ) (d : Decoder)
      → q.query_left ≡ query_left
      → IsWithin d
      → Settles d (map_key again q n d)
  Settles-map_key q (negsuc n) d e h = Settles-pure q d
  Settles-map_key q (pos n) d e h = Settles-find_key n q d e h

  Settles-query_map_key :
      (q : QueryResult) (d : Decoder)
      → q.query_left ≡ query_left
      → IsWithin d
      → Settles d (query_map_key again q d)
  unfolding query_map_key
  Settles-query_map_key q d e h =
      Settles-bind d (Settles-Tracks d (Tracks-decode_map_len d))
        λ n d' kept. Settles-map_key q n d' e (IsWithin-Kept d d' kept h)

  Settles-query_each :
      (n : ℕ) (q : QueryResult) (d : Decoder)
      → IsWithin d
      → Settles d (query_each again query_left n q d)
  unfolding query_each
  Settles-query_each zero q d h = Settles-pure q d
  Settles-query_each (suc n) q d h =
      Settles-bind d (body (record q { query_left = query_left }) d refl h)
        λ q' d' kept. Settles-query_each n q' d' (IsWithin-Kept d d' kept h)

  Settles-find_index :
      (ind : ℤ) (i n : ℕ) (q : QueryResult) (d : Decoder)
      → q.query_left ≡ query_left
      → IsWithin d
      → Settles d (find_index again ind i n q d)
  unfolding find_index
  Settles-find_index ind i zero q d e h = Settles-pure q d
  Settles-find_index ind i (suc n) q d e h =
      Settles-choice (is_index i ind) _ _ (Settles-found n q d e h) (
        Settles-bind d (Settles-Tracks d (skip-Tracks d h))
          λ _ s more. Settles-find_index ind (suc i) n q s e (IsWithin-Kept d s more h))

  Settles-at_index :
      (n : ℕ) (q : QueryResult) (o : Option ℤ) (d : Decoder)
      → q.query_left ≡ query_left
      → IsWithin d
      → Settles d (at_index again n q o d)
  Settles-at_index n q none d e h = Settles-fail _ d
  Settles-at_index n q (some ind) d e h = Settles-find_index ind 0 n q d e h

  Settles-array_index :
      (q : QueryResult) (n : ℤ) (d : Decoder)
      → q.query_left ≡ query_left
      → IsWithin d
      → Settles d (array_index again q n d)
  Settles-array_index q (negsuc n) d e h = Settles-pure q d
  Settles-array_index q (pos n) d e h =
      Settles-choice (same q.key (42 ∷ [])) _ _
        (Settles-map d _ (
          subst (λ s. Settles d (query_each again s n (record q { has_asterisk = true }) d)) (sym e)
            (Settles-query_each n (record q { has_asterisk = true }) d h)))
        (Settles-at_index n q (atoi q.key) d e h)

  Settles-query_array_index :
      (q : QueryResult) (d : Decoder)
      → q.query_left ≡ query_left
      → IsWithin d
      → Settles d (query_array_index again q d)
  unfolding query_array_index
  Settles-query_array_index q d e h =
      Settles-bind d (Settles-Tracks d (Tracks-decode_array_len d))
        λ n d' kept. Settles-array_index q n d' e (IsWithin-Kept d d' kept h)

  Settles-query_by_code :
      (q : QueryResult) (c : ℕ) (d : Decoder)
      → q.query_left ≡ query_left
      → IsWithin d
      → Settles d (query_by_code again q c d)
  unfolding query_by_code
  Settles-query_by_code q c d e h =
      Settles-choice (c == map16_code || c == map32_code || is_fixed_map c) _ _
        (Settles-query_map_key q d e h)
        (Settles-choice (c == array16_code || c == array32_code || is_fixed_array c) _ _
          (Settles-query_array_index q d e h) (Settles-fail _ d))

-- What is left of the query is no longer than it was, and shorter by a key that is not empty.
length-split_dot : (s : Bytes) → length ((split_dot s).1) ≤ length s
unfolding split_dot
length-split_dot [] = omega arith
length-split_dot (c ∷ s) = elim (Bool-cases (c == 46)) [
  | inl dot ↦ rw dot (omega arith)
  | inr no_dot ↦ rw no_dot (omega (arith, length-split_dot s))
]

length-split_dot_key :
    (s : Bytes) → leb (length ((split_dot s).0)) 0 ≡ false → length ((split_dot s).1) < length s
unfolding split_dot
length-split_dot_key [] h = absurd (ground (arith, h))
length-split_dot_key (c ∷ s) h = elim (Bool-cases (c == 46)) [
  | inl dot ↦ rw dot (omega arith)
  | inr no_dot ↦ rw no_dot (omega (arith, length-split_dot s))
]

module _ (setup : Setup)
    (ext : (id : ℤ) (decoder : ℕ → Decoding Value) (n : ℕ)
      → setup.ext_types id ≡ some decoder
      → (d : Decoder) → d.depth ≤ depth_limit d
      → Settles d (decoder n d))
    (custom : (fn : ℕ) (d : Decoder)
      → d.depth ≤ depth_limit d
      → Settles d (setup.map_decoders fn d)) where
  Settles-query_fuel :
      (fuel : ℕ) (q : QueryResult) (d : Decoder)
      → length q.query_left < fuel
      → IsWithin d
      → Settles d (query_fuel setup fuel q d)
  unfolding query_fuel next_key
  Settles-query_fuel zero q d l h = absurd (omega (arith, l))
  Settles-query_fuel (suc fuel) q d l h =
      elim (Bool-cases (leb (length ((split_dot q.query_left).0)) 0)) [
        | inl ended ↦
            rw ended (Settles-map d _ (decode_interface_cond-Settles setup ext custom d h))
        | inr more ↦ rw more (
            Settles-bind d (Settles-Tracks d (Tracks-peek_code d)) λ c d' kept.
              Settles-query_by_code (query_fuel setup fuel) ((split_dot q.query_left).1)
                (λ q' s e h'.
                  Settles-query_fuel fuel q' s
                    (rw e (omega (arith, l, length-split_dot_key q.query_left more))) h')
                (next_key q) c d' refl (IsWithin-Kept d d' kept h))
      ]

  -- Within the depth limit, Query ends on every query and every input, with values or an error. It
  -- has taken the next bytes of the input; the depth, the limit, the options and the reader are as
  -- before; the dictionary has only grown at its end, and not past the greater of its old length
  -- and its bound. The decoders of extensions and the map decoders of the caller keep the same.
  pub query-Settles :
      (s : Bytes) (d : Decoder) → d.depth ≤ depth_limit d → Settles d (query setup s d)
  unfolding query
  query-Settles s d h =
      Settles-map d QueryResult.values (Settles-query_fuel (suc (length s)) _ d (omega arith) h)
