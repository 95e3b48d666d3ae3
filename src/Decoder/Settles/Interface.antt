-- ===== src/Decoder/Settles/Interface.antt =====
-- DecodeInterface, strict and loose, on every input.
use msgpack.Prelude.{
  ℕ, suc, zero, ◌+◌, ◌≡◌, ◌≤◌, refl, Bool, true, false, [], ◌∷◌, Option, none, some, ltb, ◌==◌,
  Bool-cases, inl, inr, arith, if◌then◌else◌,
}
use msgpack.Prelude.Int.{ℤ}
use msgpack.Outcome.{Error, Outcome, ok, err, continue}
use msgpack.Wire.Code.{
  is_fixed_num, is_fixed_map, is_fixed_array, is_fixed_string, nil_code, false_code, true_code,
}
use msgpack.Dynamic.{Value}
use msgpack.Decoder.{
  Decoder, Decoding, Bytes, has_flag, loose_interface_decoding_flag, enter_depth, depth_limit,
}
use msgpack.Decoder.Read.{next_byte, read_code}
use msgpack.Decoder.Dynamic.{
  Setup, bool, decode_slice, map_by, map_default, ext_body, decode_interface_ext, map_again,
  interface_after, loose_after, interface_by_option, interface_fuel, decode_interface_cond,
}
use msgpack.Decoder.Tracks.{Tracks, Tracks-pure, Tracks-fail, Tracks-choice}
use msgpack.Decoder.Tracks.Headers.{Tracks-uint8, Tracks-uint16, Tracks-uint32}
use msgpack.Decoder.Settles.Numbers.{
  Tracks-uint64, Tracks-int8, Tracks-int16, Tracks-int32, Tracks-int64, Tracks-uint, Tracks-int,
}
use msgpack.Decoder.Settles.Strings.{Tracks-string, Tracks-ext_header, Settles-bytes}
use msgpack.Decoder.Settles.Steps.{deeper, Settles-leaving, Settles-again, Settles-next}
use msgpack.Decoder.Settles.Containers.{
  HasLevels, HasLevels-Kept, Settles-decode_slice, Settles-decode_map,
}
use msgpack.Decoder.Settles.{
  Settles, Settles-Tracks, Settles-pure, Settles-fail, Settles-choice, Settles-switch, Settles-bind,
  Settles-map,
}

pub Tracks-bool : (c : ℕ) (d : Decoder) → Tracks d (bool c d)
unfolding bool
Tracks-bool c d = Tracks-choice (c == nil_code) _ _ (Tracks-pure false d) (
    Tracks-choice (c == false_code) _ _ (Tracks-pure false d)
      (Tracks-choice (c == true_code) _ _ (Tracks-pure true d) (Tracks-fail _ d)))

module _ (setup : Setup)
    (ext : (id : ℤ) (decoder : ℕ → Decoding Value) (n : ℕ)
      → setup.ext_types id ≡ some decoder
      → (d : Decoder) → d.depth ≤ depth_limit d
      → Settles d (decoder n d))
    (custom : (fn : ℕ) (d : Decoder)
      → d.depth ≤ depth_limit d
      → Settles d (setup.map_decoders fn d)) where
  Settles-ext_body :
      (id : ℤ) (n : ℕ) (d : Decoder)
      → d.depth ≤ depth_limit d
      → Settles d (ext_body id (setup.ext_types id) n d)
  Settles-ext_body id n d h = go (setup.ext_types id) refl
    where
      go :
          (o : Option (ℕ → Decoding Value)) → setup.ext_types id ≡ o → Settles d (ext_body id o n d)
      go none e = Settles-fail _ d
      go (some decoder) e = ext id decoder n e d h

  module _ (fuel : ℕ) (one : Decoding Value)
      (body : (d : Decoder) → HasLevels fuel d → Settles d (one d)) where
    Settles-map_by :
        (o : Option ℕ) (d : Decoder)
        → HasLevels fuel d
        → Settles d (map_by setup.map_decoders o one d)
    Settles-map_by none d q = Settles-decode_map fuel one body d q
    Settles-map_by (some fn) d q = custom fn d q.within

    Settles-map_default :
        (d : Decoder) → HasLevels fuel d → Settles d (map_default setup.map_decoders one d)
    Settles-map_default d q = Settles-map_by d.map_decoder d q

    Settles-interface_ext :
        (c : ℕ) (d : Decoder) → HasLevels fuel d → Settles d (decode_interface_ext setup c d)
    unfolding decode_interface_ext
    Settles-interface_ext c d q =
        Settles-bind d (Settles-Tracks d (Tracks-ext_header c d))
          λ h d' kept. Settles-ext_body (h.0) (h.1) d' (HasLevels-Kept fuel d d' kept q).within

    module _ (d : Decoder) (c : ℕ) (rest : Bytes) (r : Option Bytes) (e : d.unread ≡ c ∷ rest)
        (q : HasLevels fuel d) where
      abbrev moved : Decoder
      moved = record d { unread = rest; recording = r }

      next : {A : Type 0} {o : Outcome Decoder A} → Settles moved o → Settles d o
      next h = Settles-next d c rest r e h

      levels : HasLevels fuel moved
      levels = record { within = q.within; enough = q.enough }

      mapped :
          {A : Type 0} {o : Outcome Decoder A} (f : A → Value)
          → Tracks moved o
          → Settles d (continue o λ a s. ok (f a) s)
      mapped f h = next (Settles-map moved f (Settles-Tracks moved h))

      again : Settles d (map_again setup one c moved)
      again =
          Settles-again d (c ∷ rest) r e
            (Settles-map_default _ (record { within = q.within; enough = q.enough }))

      items : Settles d (decode_slice one c moved)
      items = next (Settles-decode_slice fuel one body c moved levels)

      extended : Settles d (decode_interface_ext setup c moved)
      extended = next (Settles-interface_ext c moved levels)

      Settles-interface_after : Settles d (interface_after setup one c moved)
      unfolding interface_after
      Settles-interface_after =
          let text = mapped Value.text (Tracks-string c moved) in
          Settles-choice (is_fixed_num c) _ _ (next (Settles-pure _ moved)) (
            Settles-choice (is_fixed_map c) _ _ again (
              Settles-choice (is_fixed_array c) _ _ items (
                Settles-choice (is_fixed_string c) _ _ text (
                  Settles-switch c _ _
                    (
                      next (Settles-pure _ moved),
                      (
                        mapped _ (Tracks-bool c moved),
                        (
                          mapped _ (Tracks-uint32 moved),
                          (
                            mapped _ (Tracks-uint64 moved),
                            (
                              mapped _ (Tracks-uint8 moved),
                              (
                                mapped _ (Tracks-uint16 moved),
                                (
                                  mapped _ (Tracks-uint32 moved),
                                  (
                                    mapped _ (Tracks-uint64 moved),
                                    (
                                      mapped _ (Tracks-int8 moved),
                                      (
                                        mapped _ (Tracks-int16 moved),
                                        (
                                          mapped _ (Tracks-int32 moved),
                                          (
                                            mapped _ (Tracks-int64 moved),
                                            (
                                              next (Settles-map moved _ (Settles-bytes c moved)),
                                              (text, (items, (again, (extended, tt)))),
                                            ),
                                          ),
                                        ),
                                      ),
                                    ),
                                  ),
                                ),
                              ),
                            ),
                          ),
                        ),
                      ),
                    )
                    (next (Settles-fail _ moved))))))

      Settles-loose_after : Settles d (loose_after setup one c moved)
      unfolding loose_after
      Settles-loose_after =
          let text = mapped Value.text (Tracks-string c moved) in
          Settles-choice (is_fixed_num c) _ _ (next (Settles-pure _ moved)) (
            Settles-choice (is_fixed_map c) _ _ again (
              Settles-choice (is_fixed_array c) _ _ items (
                Settles-choice (is_fixed_string c) _ _ text (
                  Settles-switch c _ _
                    (
                      next (Settles-pure _ moved),
                      (
                        mapped _ (Tracks-bool c moved),
                        (
                          mapped _ (Tracks-uint32 moved),
                          (
                            mapped _ (Tracks-uint64 moved),
                            (
                              mapped _ (Tracks-uint setup.platform c moved),
                              (
                                mapped _ (Tracks-int setup.platform c moved),
                                (text, (items, (again, (extended, tt)))),
                              ),
                            ),
                          ),
                        ),
                      ),
                    )
                    (next (Settles-fail _ moved))))))

    -- The leading byte, if there is one, and what follows it.
    Settles-leading :
        (after : ℕ → Decoding Value) (d : Decoder)
        → ((c : ℕ) (rest : Bytes) (r : Option Bytes)
            → d.unread ≡ c ∷ rest
            → Settles d (after c (record d { unread = rest; recording = r })))
        → Settles d (continue (read_code d) after)
    unfolding read_code
    Settles-leading after d h = choose d.attached
      where
        go : (bs : Bytes) → d.unread ≡ bs → Settles d (continue (next_byte bs d) after)
        go [] e = Settles-fail _ d
        go (c ∷ rest) e = h c rest _ e

        choose :
            (b : Bool)
            → Settles d (continue (if b then next_byte d.unread d else err Error.eof d) after)
        choose true = go d.unread refl
        choose false = Settles-fail _ d

    Settles-by_option :
        (d : Decoder) → HasLevels fuel d → Settles d (interface_by_option setup one d)
    Settles-by_option d q = elim (Bool-cases (has_flag d.flags loose_interface_decoding_flag)) [
      | inl loose ↦ rw loose (
          Settles-leading (loose_after setup one) d
            λ c rest r e. Settles-loose_after d c rest r e q)
      | inr strict ↦ rw strict (
          Settles-leading (interface_after setup one) d
            λ c rest r e. Settles-interface_after d c rest r e q)
    ]

  Settles-interface_fuel :
      (fuel : ℕ) (d : Decoder) → HasLevels fuel d → Settles d (interface_fuel setup fuel d)
  unfolding interface_fuel enter_depth deeper
  Settles-interface_fuel zero d q = absurd (omega (arith, q.within, q.enough))
  Settles-interface_fuel (suc fuel) d q = elim (Bool-cases (ltb (depth_limit d) (d.depth + 1))) [
    | inl over ↦ rw over (Settles-fail _ d)
    | inr under ↦ rw under (
        Settles-leaving d (
          Settles-by_option fuel (interface_fuel setup fuel) (Settles-interface_fuel fuel)
            (deeper d)
            (record { within = ground (arith, under); enough = omega (arith, q.enough) })))
  ]

  -- Within the depth limit, decodeInterfaceCond ends on every input, with a value or an error. It has
  -- taken the next bytes of the input; the depth, the limit, the options and the reader are as
  -- before; the dictionary has only grown at its end, and not past the greater of its old length and
  -- its bound. The decoders of extensions and the map decoders of the caller keep the same.
  pub decode_interface_cond-Settles :
      (d : Decoder) → d.depth ≤ depth_limit d → Settles d (decode_interface_cond setup d)
  unfolding decode_interface_cond
  decode_interface_cond-Settles d h =
      Settles-interface_fuel (suc (depth_limit d)) d (record { within = h; enough = omega arith })
