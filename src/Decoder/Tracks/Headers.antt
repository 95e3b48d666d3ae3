-- ===== src/Decoder/Tracks/Headers.antt =====
-- The guards, the words and the length headers keep the frame and record what they take.
use msgpack.Prelude.{ℕ, suc, Option, none, some, ltb, leb, ◌==◌, ◌&&◌, ◌||◌, ◌/◌, bit_and}
use msgpack.Prelude.Int.{ℤ, pos, negsuc}
use msgpack.Wire.Code.{
  nil_code, is_fixed_string, fixed_str_mask, fixed_array_low, fixed_array_high, fixed_array_mask,
  fixed_map_low, fixed_map_high, fixed_map_mask, map16_code, map32_code,
}
use msgpack.Outcome.{continue}
use msgpack.Decoder.{Decoder, Decoding, has_flag, disable_alloc_limit_flag}
use msgpack.Decoder.Read.{skip_n}
use msgpack.Decoder.Limit.{
  Kind, reject_by_input, container_limit, reject_oversized_container, reject_bytes_by_input,
  reject_oversized_bytes, max_int, uint32_to_int,
}
use msgpack.Decoder.Word.{uint8, uint16, uint32}
use msgpack.Decoder.Length.{checked_bytes, checked_container, bytes_len, array_len, map_len}
use msgpack.Decoder.Ext.{checked_len, parse_ext_len, skip_ext}
use msgpack.Decoder.Text.{skip_block, skip_bytes}
use msgpack.Decoder.Tracks.{
  Tracks, Tracks-pure, Tracks-fail, Tracks-if, Tracks-choice, Tracks-switch, Tracks-bind,
  Tracks-read_code, Tracks-read_n,
}

Tracks-reject_by_input :
    (n k : ℕ) (kind : Kind) (o : Option ℕ) (d : Decoder) → Tracks d (reject_by_input n k kind o d)
Tracks-reject_by_input n k kind (some remain) d =
    Tracks-if (ltb (remain / k) n) (Tracks-fail _ d) (Tracks-pure tt d)
Tracks-reject_by_input n k kind none d =
    Tracks-if (has_flag d.flags disable_alloc_limit_flag) (Tracks-pure tt d)
      (Tracks-if (ltb (container_limit kind) n) (Tracks-fail _ d) (Tracks-pure tt d))

pub Tracks-reject_oversized_container :
    (n k : ℕ) (kind : Kind) (d : Decoder) → Tracks d (reject_oversized_container n k kind d)
unfolding reject_oversized_container
Tracks-reject_oversized_container n k kind d =
    Tracks-if (n == 0 || k == 0) (Tracks-pure tt d) (Tracks-reject_by_input n k kind _ d)

Tracks-reject_bytes_by_input :
    (n : ℕ) (o : Option ℕ) (d : Decoder) → Tracks d (reject_bytes_by_input n o d)
Tracks-reject_bytes_by_input n none d = Tracks-pure tt d
Tracks-reject_bytes_by_input n (some remain) d =
    Tracks-choice (ltb remain n) _ _ (Tracks-fail _ d) (Tracks-pure tt d)

pub Tracks-reject_oversized_bytes : (n : ℕ) (d : Decoder) → Tracks d (reject_oversized_bytes n d)
unfolding reject_oversized_bytes
Tracks-reject_oversized_bytes n d =
    Tracks-if (n == 0) (Tracks-pure tt d) (Tracks-reject_bytes_by_input n _ d)

pub Tracks-uint32_to_int : (n : ℕ) (d : Decoder) → Tracks d (uint32_to_int n d)
unfolding uint32_to_int
Tracks-uint32_to_int n d = Tracks-choice (ltb max_int n) _ _ (Tracks-fail _ d) (Tracks-pure n d)

pub Tracks-uint8 : (d : Decoder) → Tracks d (uint8 d)
unfolding uint8
Tracks-uint8 d = Tracks-bind (Tracks-read_code d) λ c d' _. Tracks-pure c d'

pub Tracks-uint16 : (d : Decoder) → Tracks d (uint16 d)
unfolding uint16
Tracks-uint16 d = Tracks-bind (Tracks-read_n 2 d) λ _ d' _. Tracks-pure _ d'

pub Tracks-uint32 : (d : Decoder) → Tracks d (uint32 d)
unfolding uint32
Tracks-uint32 d = Tracks-bind (Tracks-read_n 4 d) λ _ d' _. Tracks-pure _ d'

Tracks-checked_bytes : (n : ℕ) (d : Decoder) → Tracks d (checked_bytes n d)
Tracks-checked_bytes n d =
    Tracks-bind (Tracks-reject_oversized_bytes n d) λ _ d' _. Tracks-pure (pos n) d'

Tracks-checked_container :
    (k : ℕ) (kind : Kind) (n : ℕ) (d : Decoder) → Tracks d (checked_container k kind n d)
Tracks-checked_container k kind n d =
    Tracks-bind (Tracks-reject_oversized_container n k kind d) λ _ d' _. Tracks-pure (pos n) d'

-- A 32-bit length, converted and then checked by `m`.
Tracks-sized32 :
    {A : Type 0} (m : ℕ → Decoding A)
    → ((n : ℕ) (d : Decoder) → Tracks d (m n d))
    → (n : ℕ) (d : Decoder) → Tracks d (continue (uint32_to_int n d) m)
Tracks-sized32 m h n d = Tracks-bind (Tracks-uint32_to_int n d) λ size d' _. h size d'

pub Tracks-bytes_len : (c : ℕ) (d : Decoder) → Tracks d (bytes_len c d)
unfolding bytes_len
Tracks-bytes_len c d = Tracks-choice (c == nil_code) _ _ (Tracks-pure (negsuc 0) d) (
    Tracks-choice (is_fixed_string c) _ _ (Tracks-checked_bytes (bit_and c fixed_str_mask) d) (
      Tracks-switch c _ _
        (
          (Tracks-bind (Tracks-uint8 d) λ n d' _. Tracks-checked_bytes n d'),
          (
            (Tracks-bind (Tracks-uint16 d) λ n d' _. Tracks-checked_bytes n d'),
            (
              (Tracks-bind (Tracks-uint32 d)
                  λ n d' _. Tracks-sized32 checked_bytes Tracks-checked_bytes n d'),
              tt,
            ),
          ),
        )
        (Tracks-fail _ d)))

pub Tracks-array_len : (c : ℕ) (d : Decoder) → Tracks d (array_len c d)
unfolding array_len
Tracks-array_len c d =
    let checked = Tracks-checked_container 1 Kind.array in
    Tracks-choice (c == nil_code) _ _ (Tracks-pure (negsuc 0) d) (
      Tracks-choice (leb fixed_array_low c && leb c fixed_array_high) _ _
        (checked (bit_and c fixed_array_mask) d)
        (Tracks-switch c _ _
          (
            (Tracks-bind (Tracks-uint16 d) λ n d' _. checked n d'),
            ((Tracks-bind (Tracks-uint32 d) λ n d' _. Tracks-sized32 _ checked n d'), tt),
          )
          (Tracks-fail _ d)))

pub Tracks-map_len : (c : ℕ) (d : Decoder) → Tracks d (map_len c d)
unfolding map_len
Tracks-map_len c d =
    let checked = Tracks-checked_container 2 Kind.map in
    Tracks-choice (c == nil_code) _ _ (Tracks-pure (negsuc 0) d) (
      Tracks-choice (leb fixed_map_low c && leb c fixed_map_high) _ _
        (checked (bit_and c fixed_map_mask) d)
        (Tracks-choice (c == map16_code) _ _ (Tracks-bind (Tracks-uint16 d) λ n d' _. checked n d')
          (Tracks-choice (c == map32_code) _ _
            (Tracks-bind (Tracks-uint32 d) λ n d' _. Tracks-sized32 _ checked n d')
            (Tracks-fail _ d))))

pub Tracks-parse_ext_len : (c : ℕ) (d : Decoder) → Tracks d (parse_ext_len c d)
unfolding parse_ext_len
Tracks-parse_ext_len c d =
    Tracks-switch c _ _
      (
        Tracks-pure 1 d,
        (
          Tracks-pure 2 d,
          (
            Tracks-pure 4 d,
            (
              Tracks-pure 8 d,
              (
                Tracks-pure 16 d,
                (
                  (Tracks-bind (Tracks-uint8 d) λ n d' _. checked n d'),
                  (
                    (Tracks-bind (Tracks-uint16 d) λ n d' _. checked n d'),
                    ((Tracks-bind (Tracks-uint32 d) λ n d' _. Tracks-sized32 _ checked n d'), tt),
                  ),
                ),
              ),
            ),
          ),
        ),
      )
      (Tracks-fail _ d)
  where
    checked : (n : ℕ) (d : Decoder) → Tracks d (checked_len n d)
    checked n d = Tracks-bind (Tracks-reject_oversized_bytes n d) λ _ d' _. Tracks-pure n d'

pub Tracks-skip_n : (n : ℕ) (d : Decoder) → Tracks d (skip_n n d)
unfolding skip_n
Tracks-skip_n n d = Tracks-bind (Tracks-read_n n d) λ _ d' _. Tracks-pure tt d'

pub Tracks-skip_ext : (c : ℕ) (d : Decoder) → Tracks d (skip_ext c d)
unfolding skip_ext
Tracks-skip_ext c d =
    Tracks-bind (Tracks-parse_ext_len c d)
      λ n d' _. Tracks-bind (Tracks-skip_n 1 d') λ _ d'' _. Tracks-skip_n n d''

Tracks-skip_block : (n : ℤ) (d : Decoder) → Tracks d (skip_block n d)
unfolding skip_block
Tracks-skip_block (pos ℕ.zero) d = Tracks-pure tt d
Tracks-skip_block (pos (suc n)) d = Tracks-skip_n (suc n) d
Tracks-skip_block (negsuc n) d = Tracks-pure tt d

pub Tracks-skip_bytes : (c : ℕ) (d : Decoder) → Tracks d (skip_bytes c d)
unfolding skip_bytes
Tracks-skip_bytes c d = Tracks-bind (Tracks-bytes_len c d) λ n d' _. Tracks-skip_block n d'
