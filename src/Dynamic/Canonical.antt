-- ===== src/Dynamic/Canonical.antt =====
-- What a Go value stands for in MessagePack: integers without their width, nil for each nil, and
-- maps by increasing keys. Also which values the wire format can carry, and how deep they nest.
use Prim.Native.Nat.{max}
use msgpack.Prelude.{ℕ, suc, ◌^◌, ◌<◌, ◌≡◌, false, none, some, length, if◌then◌else◌}
use msgpack.Prelude.Int.{pos}
use msgpack.Decoder.{Bytes}
use msgpack.Encoder.Value.{word, FitsInt, FitsUint}
use msgpack.Encoder.Intern.{same}
use msgpack.Float.{quiet}
use msgpack.Dynamic.{
  Value, Items, Entries, no_items, item, no_entries, entry, count_items, count_entries,
}
use msgpack.Dynamic.Order.{le_bytes}

unfoldable pub insert_entry : Bytes → Value → Entries → Entries
unfolding le_bytes
insert_entry k v no_entries = entry k v no_entries
insert_entry k v (entry j u es) =
    if le_bytes k j then entry k v (entry j u es) else entry j u (insert_entry k v es)

unfoldable pub sort_entries : Entries → Entries
unfolding insert_entry
sort_entries no_entries = no_entries
sort_entries (entry k v es) = insert_entry k v (sort_entries es)

unfoldable mutual
  unfolding sort_entries

  pub canonical : Value → Value
  canonical Value.nil = Value.nil
  canonical Value.nil_slice = Value.nil
  canonical Value.nil_map = Value.nil
  canonical (Value.bool b) = Value.bool b
  canonical (Value.int w z) = Value.int word z
  canonical (Value.uint w n) = Value.int word (pos n)
  canonical (Value.float32 n) = Value.float32 n
  canonical (Value.float64 n) = Value.float64 n
  canonical (Value.text s) = Value.text s
  canonical (Value.bytes none) = Value.nil
  canonical (Value.bytes (some b)) = Value.bytes (some b)
  canonical (Value.time t) = Value.time t
  canonical (Value.slice vs) = Value.slice (canonical_items vs)
  canonical (Value.map es) = Value.map (sort_entries (canonical_entries es))

  pub canonical_items : Items → Items
  canonical_items no_items = no_items
  canonical_items (item v vs) = item (canonical v) (canonical_items vs)

  pub canonical_entries : Entries → Entries
  canonical_entries no_entries = no_entries
  canonical_entries (entry k v es) = entry k (canonical v) (canonical_entries es)

-- No entry has the key.
abbrev pub Absent : Bytes → Entries → Type 0
Absent k no_entries = Unit {0}
Absent k (entry j v es) = (same j k ≡ false) × Absent k es

-- As in every Go map, no key occurs twice.
abbrev pub HasDistinctKeys : Entries → Type 0
HasDistinctKeys no_entries = Unit {0}
HasDistinctKeys (entry k v es) = Absent k es × HasDistinctKeys es

-- Not a signalling NaN of 32 bits, which as an element is made quiet.
abbrev pub IsQuiet : Value → Type 0
IsQuiet (Value.float32 n) = quiet n ≡ n
IsQuiet _ = Unit {0}

-- Lengths below 2^32, numbers within their kind, and no time, which only a registered extension
-- decoder reads back.
unfoldable mutual
  pub IsEncodable : Value → Type 0
  IsEncodable Value.nil = Unit {0}
  IsEncodable Value.nil_slice = Unit {0}
  IsEncodable Value.nil_map = Unit {0}
  IsEncodable (Value.bool b) = Unit {0}
  IsEncodable (Value.int w z) = FitsInt w z
  IsEncodable (Value.uint w n) = FitsUint w n
  IsEncodable (Value.float32 n) = n < 2 ^ 32
  IsEncodable (Value.float64 n) = n < 2 ^ 64
  IsEncodable (Value.text s) = length s < 2 ^ 32
  IsEncodable (Value.bytes none) = Unit {0}
  IsEncodable (Value.bytes (some b)) = length b < 2 ^ 32
  IsEncodable (Value.time t) = ⊥
  IsEncodable (Value.slice vs) = (count_items vs < 2 ^ 32) × AreEncodable vs
  IsEncodable (Value.map es) =
      (count_entries es < 2 ^ 32) × HasDistinctKeys es × EntriesEncodable es

  pub AreEncodable : Items → Type 0
  AreEncodable no_items = Unit {0}
  AreEncodable (item v vs) = IsEncodable v × IsQuiet v × AreEncodable vs

  pub EntriesEncodable : Entries → Type 0
  EntriesEncodable no_entries = Unit {0}
  EntriesEncodable (entry k v es) = (length k < 2 ^ 32) × IsEncodable v × EntriesEncodable es

-- The levels of depth that decoding enters.
unfoldable mutual
  pub rank : Value → ℕ
  rank Value.nil = 1
  rank Value.nil_slice = 1
  rank Value.nil_map = 1
  rank (Value.bool b) = 1
  rank (Value.int w z) = 1
  rank (Value.uint w n) = 1
  rank (Value.float32 n) = 1
  rank (Value.float64 n) = 1
  rank (Value.text s) = 1
  rank (Value.bytes b) = 1
  rank (Value.time t) = 1
  rank (Value.slice vs) = suc (rank_items vs)
  rank (Value.map es) = suc (rank_entries es)

  pub rank_items : Items → ℕ
  rank_items no_items = 0
  rank_items (item v vs) = max (rank v) (rank_items vs)

  pub rank_entries : Entries → ℕ
  rank_entries no_entries = 0
  rank_entries (entry k v es) = max (rank v) (rank_entries es)
