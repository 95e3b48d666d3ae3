-- ===== src/RoundTrip/Intern.antt =====
-- Interned strings: the two dictionaries stay in step, and every string is read back.
use msgpack.Prelude.{
  ℕ, ◌^◌, ◌<◌, ◌≤◌, ◌≡◌, ◌∙◌, refl, ◌++◌, List, Bool, true, arith, length, Option, some, none, inl,
  inr, ◌⊎◌,
}
use msgpack.Outcome.{ok}
use msgpack.Decoder.{Decoder, Bytes}
use msgpack.Decoder.Intern.{decode_interned_string}
use msgpack.Encoder.{Encoder}
use msgpack.Encoder.Intern.{lookup, encode_interned_string, max_dict_len}
use msgpack.RoundTrip.Runs.{feed, taken}
use msgpack.RoundTrip.Header.{string_form}
use msgpack.RoundTrip.Dictionary.{
  Synced, Synced-lookup, Synced-learned, learned, remembered, learned_bound, learn_lem,
  remember_lem,
}
use msgpack.RoundTrip.Text.{Writes-encode_normal_string}
use msgpack.RoundTrip.InternRead.{read_plain, read_index, index_written, index_form}

Option-cases : {A : Type 0} (o : Option A) → ((a : A) × (o ≡ some a)) ⊎ (o ≡ none)
Option-cases (some a) = inl (a, refl)
Option-cases none = inr refl

-- What one exchange of a string leaves: the same bytes written and read, the dictionaries in step.
abbrev pub StaysSynced : Bytes → Bool → Encoder → Decoder → Type 0
StaysSynced s intern e d =
    (bs : Bytes) × (m : List (Bytes × ℕ)) × (ds : List Bytes) × (encode_interned_string s intern e
      ≡ ok tt (record e { out = e.out ++ bs; dict = m }))
    × (decode_interned_string intern (feed bs d) ≡ ok s (record (taken bs d) { dict = ds }))
    × Synced m ds
    × (length ds ≤ max_dict_len)

module _ (s : Bytes) (intern : Bool) (e : Encoder) (d : Decoder) (h : d.attached ≡ true)
    (sync : Synced e.dict d.dict) (small_dict : length d.dict ≤ max_dict_len) where
  exchange_index : (i : ℕ) → lookup s e.dict ≡ some i → StaysSynced s intern e d
  unfolding encode_interned_string decode_interned_string
  exchange_index i found =
      let at = Synced-lookup s i sync found in
      (
        index_form i,
        e.dict,
        d.dict,
        rw found (index_written i (omega (arith, at.0, small_dict)) e),
        read_index intern i s d h at.0 at.1 (omega (arith, at.0, small_dict)),
        sync,
        small_dict,
      )

  exchange_plain : lookup s e.dict ≡ none → length s < 2 ^ 32 → StaysSynced s intern e d
  unfolding encode_interned_string decode_interned_string
  exchange_plain missing l = (
    string_form (length s) ++ s,
    remembered s intern e.dict,
    learned s intern d.dict,
    rw
        (
          missing,
          remember_lem s intern e,
          Writes-encode_normal_string s l (record e { dict = remembered s intern e.dict }),
        )
        refl,
    read_plain s intern d h l ∙ learn_lem s intern (taken (string_form (length s) ++ s) d),
    Synced-learned s intern sync,
    learned_bound s intern d.dict small_dict,
  )

-- Where the dictionaries are in step and within their bound, and the decoder has a reader, a string of
-- less than 2^32 bytes that encodeInternedString writes, in full or as its index, is read
-- back by decodeInternedString before any further input, and the dictionaries are in step and
-- within their bound again.
pub decode_interned_string-encode_interned_string :
    (s : Bytes) (intern : Bool) (e : Encoder) (d : Decoder)
    → length s < 2 ^ 32
    → d.attached ≡ true
    → Synced e.dict d.dict
    → length d.dict ≤ max_dict_len
    → StaysSynced s intern e d
decode_interned_string-encode_interned_string s intern e d l h sync small_dict =
    let result = lookup s e.dict in
    elim (Option-cases result) [
      | inl (i, found) ↦ exchange_index s intern e d h sync small_dict i found
      | inr missing ↦ exchange_plain s intern e d h sync small_dict missing l
    ]
