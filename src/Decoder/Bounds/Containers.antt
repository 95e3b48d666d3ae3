-- ===== src/Decoder/Bounds/Containers.antt =====
-- The lengths of arrays and maps, of decode_slice.go and decode_map.go, that the guards let pass.
use msgpack.Prelude.{
  ℕ, ◌/◌, ◌≤◌, ◌≡◌, ◌∙◌, ap, Bool, true, false, ltb, leb, ◌==◌, ◌&&◌, ◌||◌, if◌then◌else◌, length,
  arith, bit_and, refl, Option, some, none, if_cases,
}
use mathlib.Core.Path.{subst}
use msgpack.Prelude.Int.{pos}
use msgpack.Wire.Code.{
  nil_code, fixed_array_low, fixed_array_high, fixed_array_mask, is_ext, fixed_map_low,
  fixed_map_high, fixed_map_mask, map16_code, map32_code,
}
use msgpack.Outcome.{Outcome, ok, continue}
use msgpack.Decoder.{Decoder, has_flag, disable_alloc_limit_flag}
use msgpack.Decoder.Limit.{
  Kind, container_limit, reject_by_input, reject_oversized_container, remaining_readable,
}
use msgpack.Decoder.Length.{checked_container, array_len, map_len, decode_array_len}
use msgpack.Decoder.Tracks.{
  Frame, Frame-trans, Tracks, Tracks-read_code, Tracks-times, Tracks-bind, Tracks-pure,
}
use msgpack.Decoder.Bounds.{
  Within, length_within, nil_header, refused, Within-choice, Within-switch, Within-bind, Within-run,
  after16, after32,
}
use msgpack.Decoder.Ext.{map_len_after, decode_map_len, skip_ext_header, ext_header_len}

-- What the guard allows a container to have: a share of the input where its length is known, and
-- a constant where it is not.
unfoldable pub capacity : ℕ → Kind → Decoder → ℕ
capacity min_bytes kind d = if d.sized then length d.unread / min_bytes else container_limit kind

abbrev Limited : Decoder → Type 0
Limited d = has_flag d.flags disable_alloc_limit_flag ≡ false

Limited-stable : (d d' : Decoder) → Frame d d' → Limited d → Limited d'
Limited-stable d d' fr h = ap (λ f. has_flag f disable_alloc_limit_flag) fr.flags_eq ∙ h

not_below : (a b : ℕ) → ltb a b ≡ false → b ≤ a
not_below a b h = ground arith

capacity_some :
    (sized : Bool) (len limit k remain : ℕ)
    → some remain ≡ (if sized then some len else none)
    → remain / k ≡ (if sized then len / k else limit)
capacity_some true len limit k remain e = cc
capacity_some false len limit k remain e = absurd (cc)

capacity_none :
    (sized : Bool) (len limit k : ℕ)
    → none ≡ (if sized then some len else none)
    → limit ≡ (if sized then len / k else limit)
capacity_none true len limit k e = absurd (cc)
capacity_none false len limit k e = refl

module _ (k : ℕ) (kind : Kind) (n : ℕ) (d : Decoder) where
  -- The length is returned where the guard passes.
  abbrev Accepts : Outcome Decoder (Unit {0}) → Type 0
  Accepts o = Within (capacity k kind) (continue o λ _ d'. ok (pos n) d')

  -- The guard's two ways, by whether the reader has a length.
  passed_input :
      (o : Option ℕ) → o ≡ remaining_readable d → Limited d → Accepts (reject_by_input n k kind o d)
  unfolding remaining_readable capacity
  passed_input (some remain) e h =
      if_cases Accepts (ltb (remain / k) n) (λ _. refused)
        λ f. length_within (
          subst (λ m. n ≤ m) (capacity_some d.sized _ (container_limit kind) k remain e)
            (not_below _ n f))
  passed_input none e h =
      if_cases Accepts (has_flag d.flags disable_alloc_limit_flag) (λ t. absurd (cc))
        λ _.
          if_cases Accepts (ltb (container_limit kind) n) (λ _. refused)
            λ f. length_within (
              subst (λ m. n ≤ m) (capacity_none d.sized _ (container_limit kind) k e)
                (not_below _ n f))

  Within-checked_container :
      1 ≤ k → Limited d → Within (capacity k kind) (checked_container k kind n d)
  unfolding reject_oversized_container
  Within-checked_container one h =
      if_cases Accepts (n == 0 || k == 0) (λ t. length_within (ground arith))
        (λ _. passed_input (remaining_readable d) refl h)

array_len_bound : (c : ℕ) (d : Decoder) → Limited d → Within (capacity 1 Kind.array) (array_len c d)
unfolding array_len
array_len_bound c d h =
    let bound = capacity 1 Kind.array in
    let check = checked_container 1 Kind.array in
    let one : 1 ≤ 1 = omega arith in
    let checked = λ (n : ℕ) (d' : Decoder) (h' : Limited d').
      Within-checked_container 1 Kind.array n d' one h' in
    Within-choice bound (c == nil_code) _ _ nil_header (
      Within-choice bound (leb fixed_array_low c && leb c fixed_array_high) _ _
        (checked (bit_and c fixed_array_mask) d h)
        (Within-switch bound c _ _
          (
            after16 bound Limited Limited-stable check checked d h,
            (after32 bound Limited Limited-stable check checked d h, tt),
          )
          refused))

map_len_bound : (c : ℕ) (d : Decoder) → Limited d → Within (capacity 2 Kind.map) (map_len c d)
unfolding map_len
map_len_bound c d h =
    let bound = capacity 2 Kind.map in
    let check = checked_container 2 Kind.map in
    let one : 1 ≤ 2 = omega arith in
    let checked =
      λ (n : ℕ) (d' : Decoder) (h' : Limited d'). Within-checked_container 2 Kind.map n d' one h' in
    Within-choice bound (c == nil_code) _ _ nil_header (
      Within-choice bound (leb fixed_map_low c && leb c fixed_map_high) _ _
        (checked (bit_and c fixed_map_mask) d h)
        (Within-choice bound (c == map16_code) _ _
          (after16 bound Limited Limited-stable check checked d h)
          (Within-choice bound (c == map32_code) _ _
            (after32 bound Limited Limited-stable check checked d h) refused)))

Tracks-skip_ext_header : (c : ℕ) (d : Decoder) → Tracks d (skip_ext_header c d)
unfolding skip_ext_header
Tracks-skip_ext_header c d = Tracks-bind (Tracks-read_code d) λ _ d' _.
    Tracks-times (λ _. Unit {0}) _ (λ _ _ _ _. tt)
      (λ d'' _. Tracks-bind (Tracks-read_code d'') λ _ d3 _. Tracks-pure tt d3) (ext_header_len c)
      d' tt

map_len_after_bound :
    (c : ℕ) (d : Decoder) → Limited d → Within (capacity 2 Kind.map) (map_len_after c d)
map_len_after_bound c d h =
    let bound = capacity 2 Kind.map in
    Within-choice bound (is_ext c) _ _
      (Within-bind bound (Tracks-skip_ext_header c d) λ _ d1 fr1.
        Within-bind bound (Tracks-read_code d1)
          λ c' d2 fr2. map_len_bound c' d2 (Limited-stable d d2 (Frame-trans fr1 fr2) h))
      (map_len_bound c d h)

-- A length that DecodeArrayLen returns, where the allocation limits are not disabled, is at most
-- the number of bytes left to read after the header if the reader has a Len method, and at most
-- sliceAllocLimit if not.
pub decode_array_len_bound :
    (d d' : Decoder) (n : ℕ)
    → has_flag d.flags disable_alloc_limit_flag ≡ false
    → decode_array_len d ≡ ok (pos n) d'
    → n ≤ capacity 1 Kind.array d'
unfolding decode_array_len
decode_array_len_bound d d' n h run =
    Within-run
      (Within-bind (capacity 1 Kind.array) (Tracks-read_code d)
        λ c d'' fr. array_len_bound c d'' (Limited-stable d d'' fr h))
      run

-- A length that DecodeMapLen returns, also after an extension header, where the allocation limits
-- are not disabled, is at most half the number of bytes left to read if the reader has a Len
-- method, and at most maxMapSize if not.
pub decode_map_len_bound :
    (d d' : Decoder) (n : ℕ)
    → has_flag d.flags disable_alloc_limit_flag ≡ false
    → decode_map_len d ≡ ok (pos n) d'
    → n ≤ capacity 2 Kind.map d'
unfolding decode_map_len
decode_map_len_bound d d' n h run =
    Within-run
      (Within-bind (capacity 2 Kind.map) (Tracks-read_code d)
        λ c d'' fr. map_len_after_bound c d'' (Limited-stable d d'' fr h))
      run
