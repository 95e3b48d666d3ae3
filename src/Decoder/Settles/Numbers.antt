-- ===== src/Decoder/Settles/Numbers.antt =====
-- Words, integers and floats read as integers, on every input.
use msgpack.Prelude.{ℕ, ◌==◌, not, ◌||◌, ◌&&◌, ltb, ◌^◌}
use msgpack.Wire.Code.{nil_code, is_fixed_num, float_code}
use msgpack.Outcome.{Outcome, ok, continue}
use msgpack.Float.{Float, not_finite, finite, magnitude, is_integral, Platform}
use msgpack.Decoder.{Decoder}
use msgpack.Decoder.Word.{uint64, int8, int16, int32, int64}
use msgpack.Decoder.Number.{float64, uint64_of_float, int64_of_float, uint, int}
use msgpack.Decoder.Tracks.{
  Tracks, Tracks-pure, Tracks-fail, Tracks-choice, Tracks-switch, Tracks-bind, Tracks-read_n,
}
use msgpack.Decoder.Tracks.Headers.{Tracks-uint8, Tracks-uint16, Tracks-uint32}

module _ {A B : Type 0} where
  -- What only maps the result of a read.
  pub Tracks-map :
      (f : A → B) {d : Decoder} {o : Outcome Decoder A}
      → Tracks d o
      → Tracks d (continue o λ a s. ok (f a) s)
  Tracks-map f h = Tracks-bind h λ a d' _. Tracks-pure (f a) d'

pub Tracks-uint64 : (d : Decoder) → Tracks d (uint64 d)
unfolding uint64
Tracks-uint64 d = Tracks-map _ (Tracks-read_n 8 d)

pub Tracks-int8 : (d : Decoder) → Tracks d (int8 d)
unfolding int8
Tracks-int8 d = Tracks-map _ (Tracks-uint8 d)

pub Tracks-int16 : (d : Decoder) → Tracks d (int16 d)
unfolding int16
Tracks-int16 d = Tracks-map _ (Tracks-uint16 d)

pub Tracks-int32 : (d : Decoder) → Tracks d (int32 d)
unfolding int32
Tracks-int32 d = Tracks-map _ (Tracks-uint32 d)

pub Tracks-int64 : (d : Decoder) → Tracks d (int64 d)
unfolding int64
Tracks-int64 d = Tracks-map _ (Tracks-uint64 d)

Tracks-float64 : (c : ℕ) (d : Decoder) → Tracks d (float64 c d)
unfolding float64
Tracks-float64 c d =
    Tracks-choice (c == float_code) _ _ (Tracks-map _ (Tracks-uint32 d))
      (Tracks-map _ (Tracks-uint64 d))

module _ (cpu : Platform) where
  Tracks-uint64_of_float : (c : ℕ) (f : Float) (d : Decoder) → Tracks d (uint64_of_float cpu c f d)
  unfolding uint64_of_float
  Tracks-uint64_of_float c not_finite d = Tracks-fail _ d
  Tracks-uint64_of_float c (finite neg m e) d =
      Tracks-choice (not (is_integral m e) || neg && not (m == 0) || ltb (2 ^ 64) (magnitude m e)) _
        _ (Tracks-fail _ d) (Tracks-pure _ d)

  Tracks-int64_of_float : (c : ℕ) (f : Float) (d : Decoder) → Tracks d (int64_of_float cpu c f d)
  unfolding int64_of_float
  Tracks-int64_of_float c not_finite d = Tracks-fail _ d
  Tracks-int64_of_float c (finite neg m e) d =
      Tracks-choice (not (is_integral m e) || ltb (2 ^ 63) (magnitude m e)) _ _ (Tracks-fail _ d)
        (Tracks-pure _ d)

  pub Tracks-uint : (c : ℕ) (d : Decoder) → Tracks d (uint cpu c d)
  unfolding uint
  Tracks-uint c d = Tracks-choice (c == nil_code) _ _ (Tracks-pure 0 d) (
      Tracks-choice (is_fixed_num c) _ _ (Tracks-pure _ d) (
        Tracks-switch c _ _
          (
            Tracks-map _ (Tracks-uint8 d),
            (
              Tracks-map _ (Tracks-int8 d),
              (
                Tracks-map _ (Tracks-uint16 d),
                (
                  Tracks-map _ (Tracks-int16 d),
                  (
                    Tracks-map _ (Tracks-uint32 d),
                    (
                      Tracks-map _ (Tracks-int32 d),
                      (
                        Tracks-uint64 d,
                        (
                          (Tracks-bind (Tracks-float64 c d)
                              λ f d' _. Tracks-uint64_of_float c f d'),
                          tt,
                        ),
                      ),
                    ),
                  ),
                ),
              ),
            ),
          )
          (Tracks-fail _ d)))

  pub Tracks-int : (c : ℕ) (d : Decoder) → Tracks d (int cpu c d)
  unfolding int
  Tracks-int c d = Tracks-choice (c == nil_code) _ _ (Tracks-pure _ d) (
      Tracks-choice (is_fixed_num c) _ _ (Tracks-pure _ d) (
        Tracks-switch c _ _
          (
            Tracks-map _ (Tracks-uint8 d),
            (
              Tracks-map _ (Tracks-uint8 d),
              (
                Tracks-map _ (Tracks-uint16 d),
                (
                  Tracks-map _ (Tracks-uint16 d),
                  (
                    Tracks-map _ (Tracks-uint32 d),
                    (
                      Tracks-map _ (Tracks-uint32 d),
                      (
                        Tracks-map _ (Tracks-uint64 d),
                        (
                          (Tracks-bind (Tracks-float64 c d) λ f d' _. Tracks-int64_of_float c f d'),
                          tt,
                        ),
                      ),
                    ),
                  ),
                ),
              ),
            ),
          )
          (Tracks-fail _ d)))
