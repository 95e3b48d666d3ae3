-- ===== src/Decoder/Settles/Builtin.antt =====
-- The extension types that the package registers itself satisfy what is assumed of registered ones.
use msgpack.Prelude.{ℕ, ◌≡◌, ◌≤◌, Option, some, if_cases, length}
use mathlib.Core.Path.{subst}
use msgpack.Prelude.Int.{ℤ}
use msgpack.Time.{time_ext_id}
use msgpack.Dynamic.{Value}
use msgpack.Decoder.{Decoder, Decoding, depth_limit}
use msgpack.Decoder.Time.{equal_ids, time_block}
use msgpack.Decoder.Intern.{is_intern_id}
use msgpack.Decoder.Builtin.{time_decoder, decode_interned_string_ext, built_in}
use msgpack.Decoder.Tracks.{Tracks-bind, Tracks-read_n, Tracks-switch, Tracks-pure, Tracks-fail}
use msgpack.Decoder.Settles.{Settles, Settles-Tracks, Settles-map, Settles-bind}
use msgpack.Decoder.Settles.Strings.{Tracks-index, Tracks-at_index}

Settles-time_decoder : (n : ℕ) (d : Decoder) → Settles d (time_decoder n d)
unfolding time_decoder time_block
Settles-time_decoder n d = Settles-map d Value.time (
    Settles-Tracks d (
      Tracks-bind (Tracks-read_n n d) λ b d' _.
        Tracks-switch (length b) _ _ (Tracks-pure _ d', (Tracks-pure _ d', (Tracks-pure _ d', tt)))
          (Tracks-fail _ d')))

Settles-interned_ext : (n : ℕ) (d : Decoder) → Settles d (decode_interned_string_ext n d)
unfolding decode_interned_string_ext
Settles-interned_ext n d =
    Settles-bind d (Settles-Tracks d (Tracks-index n d))
      λ idx d' _. Settles-map d' Value.text (Settles-Tracks d' (Tracks-at_index idx d'))

-- Every entry of a place in the table ends like a decoder of the package.
abbrev pub AreSettled : Option (ℕ → Decoding Value) → Type 0
AreSettled o =
    (decoder : ℕ → Decoding Value) (n : ℕ)
    → o ≡ some decoder
    → (d : Decoder) → d.depth ≤ depth_limit d
    → Settles d (decoder n d)

pub AreSettled-some :
    (f : ℕ → Decoding Value) → ((n : ℕ) (d : Decoder) → Settles d (f n d)) → AreSettled (some f)
AreSettled-some f h decoder n e d _ =
    subst (λ (g : ℕ → Decoding Value). Settles d (g n d)) {x = f} {y = decoder} (cc) (h n d)

pub AreSettled-built_in : (id : ℤ) → AreSettled (built_in id)
AreSettled-built_in id =
    if_cases AreSettled (equal_ids id time_ext_id)
      (λ _. AreSettled-some time_decoder Settles-time_decoder)
      λ _.
        if_cases AreSettled (is_intern_id id)
          (λ _. AreSettled-some decode_interned_string_ext Settles-interned_ext)
          λ _ decoder n e. absurd (cc)
