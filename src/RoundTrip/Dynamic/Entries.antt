-- ===== src/RoundTrip/Dynamic/Entries.antt =====
-- The entries of a map with distinct keys, one after the other.
use msgpack.Prelude.{
  Option, ℕ, ◌*◌, ◌^◌, ◌<◌, ◌≤◌, ◌≡◌, ◌∙◌, refl, sym, ap, false, [], ◌++◌, length, length-append,
  arith,
}
use mathlib.Core.Path.{ap₂, subst}
use msgpack.Outcome.{ok, ◌>>=◌}
use msgpack.Dynamic.{Value, Entries, no_entries, entry, count_entries, assign}
use msgpack.Dynamic.Canonical.{canonical, canonical_entries, Absent, HasDistinctKeys}
use msgpack.Dynamic.Sorting.{AllEntries, same_sym}
use msgpack.Decoder.{Bytes}
use msgpack.Decoder.Read.{read_code}
use msgpack.Decoder.Text.{string}
use msgpack.Decoder.Intern.{decode_string}
use msgpack.Decoder.Dynamic.{Setup, decode_entries, interface_fuel}
use msgpack.Encoder.Intern.{same, encode_string}
use msgpack.Encoder.Dynamic.{encode, encode_fields, fields_of}
use msgpack.RoundTrip.Header.{string_form}
use msgpack.RoundTrip.Text.{Reads-string}
use msgpack.RoundTrip.Dynamic.Yields.{
  YieldsUnset, YieldsWith, Yields-of_Reads, Yields-bind, Emits, Emits-bind, Emits-nothing,
}
use msgpack.RoundTrip.Dynamic.Leaves.{IsDirect, Sent}
use msgpack.RoundTrip.Dynamic.Text.{Emits-encode_string, 1-le-string_form}

-- Entries put behind others.
append_entries : Entries → Entries → Entries
append_entries no_entries fs = fs
append_entries (entry k v es) fs = entry k v (append_entries es fs)

append_entries_one :
    (es fs : Entries) (k : Bytes) (v : Value)
    → append_entries (append_entries es (entry k v no_entries)) fs
      ≡ append_entries es (entry k v fs)
unfolding append_entries
append_entries_one no_entries fs k v = refl
append_entries_one (entry j u es) fs k v = ap (entry j u) (append_entries_one es fs k v)

append_entries_none : (es : Entries) → append_entries es no_entries ≡ es
unfolding append_entries
append_entries_none no_entries = refl
append_entries_none (entry k v es) = ap (entry k v) (append_entries_none es)

-- A new key goes to the end.
assign-Absent :
    (k : Bytes) (v : Value) (es : Entries)
    → Absent k es
    → assign k v es ≡ append_entries es (entry k v no_entries)
unfolding assign append_entries
assign-Absent k v no_entries a = refl
assign-Absent k v (entry j u es) a = rw (a.0) (ap (entry j u) (assign-Absent k v es (a.1)))

Absent-append_entries :
    (j k : Bytes) (v : Value) (es : Entries)
    → Absent j es
    → same k j ≡ false
    → Absent j (append_entries es (entry k v no_entries))
unfolding append_entries
Absent-append_entries j k v no_entries a h = (h, tt)
Absent-append_entries j k v (entry i u es) a h = (a.0, Absent-append_entries j k v es (a.1) h)

-- No key of the first occurs in the second.
abbrev Disjoint : Entries → Entries → Type 0
Disjoint es acc = AllEntries (λ j _. Absent j acc) es

Disjoint-append_entries :
    (k : Bytes) (v : Value) (es acc : Entries)
    → Disjoint es acc
    → Absent k es
    → Disjoint es (append_entries acc (entry k v no_entries))
Disjoint-append_entries k v no_entries acc h a = tt
Disjoint-append_entries k v (entry j u es) acc h a = (
  Absent-append_entries j k v acc (h.0) (same_sym k j ∙ a.0),
  Disjoint-append_entries k v es acc (h.1) (a.1),
)

Disjoint-no_entries : (es : Entries) → Disjoint es no_entries
Disjoint-no_entries no_entries = tt
Disjoint-no_entries (entry k v es) = (tt, Disjoint-no_entries es)

-- A key of less than 2^32 bytes, and a value that is read back.
abbrev pub SentEntry : Setup → ℕ → ℕ → Bytes → Value → Type 0
SentEntry setup flags k key v = (length key < 2 ^ 32) × Sent setup flags k v

-- The entries are read after those of `acc`.
abbrev Collected : Setup → ℕ → ℕ → Entries → Type 0
Collected setup flags k es =
    (bs : Bytes) × (ws : Entries) × Emits flags (encode_fields (fields_of setup.platform es)) bs
    × ((acc : Entries) (fuel : ℕ)
        → Disjoint es acc
        → k ≤ fuel
        → YieldsUnset k (decode_entries (count_entries es) (interface_fuel setup fuel) acc) bs
            (append_entries acc ws))
    × (canonical_entries ws ≡ canonical_entries es)
    × (2 * count_entries es ≤ length bs)

pub Yields-decode_string :
    {P : Option ℕ → Type 0} (k : ℕ) (s : Bytes)
    → length s < 2 ^ 32
    → YieldsWith P k decode_string (string_form (length s) ++ s) s
unfolding decode_string
Yields-decode_string k s h d p room = rw (p.direct) (
    Yields-of_Reads k (read_code >>= string) (string_form (length s) ++ s) s (Reads-string s h) d p
      room)

module _ (setup : Setup) (flags k : ℕ) (direct : IsDirect flags) where
  Collected-entry :
      (key : Bytes) (v : Value) (es : Entries)
      → SentEntry setup flags k key v
      → Absent key es
      → Collected setup flags k es
      → Collected setup flags k (entry key v es)
  unfolding encode encode_fields decode_entries canonical
  Collected-entry key v es (h, (bs, w, emits, yields, e, l)) absent
        (cs, ws, emits', yields', e', l') =
      let front = string_form (length key) ++ key in
      (
        front ++ (bs ++ cs),
        entry key w ws,
        Emits-bind flags (encode_string key) _ front (bs ++ cs)
            (Emits-encode_string flags key direct h)
            (Emits-bind flags (encode setup.platform v)
              (encode_fields (fields_of setup.platform es)) bs cs emits emits'),
        (λ acc fuel apart enough.
            let one = interface_fuel setup fuel in
            let result = append_entries acc (entry key w ws) in
            Yields-bind k decode_string _ front (bs ++ cs) key result (Yields-decode_string k key h)
              (Yields-bind k one _ bs cs w result (yields fuel enough) (
                subst (λ m. YieldsUnset k (decode_entries (count_entries es) one m) cs result)
                  (sym (assign-Absent key w acc (apart.0)))
                  (subst
                    (λ r.
                      YieldsUnset k
                        (decode_entries (count_entries es) one
                          (append_entries acc (entry key w no_entries)))
                        cs r)
                    (append_entries_one acc ws key w)
                    (yields' (append_entries acc (entry key w no_entries)) fuel
                      (Disjoint-append_entries key w es acc (apart.1) absent) enough))))),
        ap₂ (entry key) e e',
        omega (
          arith,
          1-le-string_form (length key) key,
          length-append {0} front (bs ++ cs),
          length-append {0} bs cs,
          l,
          l',
        ),
      )

  Collected-entries :
      (es : Entries)
      → AllEntries (SentEntry setup flags k) es
      → HasDistinctKeys es
      → Collected setup flags k es
  unfolding encode encode_fields decode_entries canonical
  Collected-entries no_entries h distinct = (
    [],
    no_entries,
    Emits-nothing flags,
    (λ acc fuel _ _ d _ _. ap (λ es. ok es d) (sym (append_entries_none acc))),
    refl,
    omega arith,
  )
  Collected-entries (entry key v es) h distinct =
      Collected-entry key v es (h.0) (distinct.0) (Collected-entries es (h.1) (distinct.1))

-- Entries that are decoded into an empty map.
abbrev pub SentEntries : Setup → ℕ → ℕ → Entries → Type 0
SentEntries setup flags k es =
    (bs : Bytes) × (ws : Entries) × Emits flags (encode_fields (fields_of setup.platform es)) bs
    × ((fuel : ℕ)
        → k ≤ fuel
        → YieldsUnset k (decode_entries (count_entries es) (interface_fuel setup fuel) no_entries)
            bs ws)
    × (canonical_entries ws ≡ canonical_entries es)
    × (2 * count_entries es ≤ length bs)

pub SentEntries-AllEntries :
    (setup : Setup) (flags k : ℕ) (es : Entries)
    → IsDirect flags
    → AllEntries (SentEntry setup flags k) es
    → HasDistinctKeys es
    → SentEntries setup flags k es
unfolding append_entries
SentEntries-AllEntries setup flags k es direct h distinct =
    let (bs, ws, emits, yields, e, l) = Collected-entries setup flags k direct es h distinct in
    (bs, ws, emits, (λ fuel enough. yields no_entries fuel (Disjoint-no_entries es) enough), e, l)
