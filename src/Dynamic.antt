-- ===== src/Dynamic.antt =====
-- The values of type `any` that DecodeInterface returns and Encode takes, and Go maps with string
-- keys. `slice` is []any, `map` is map[string]any; the nil ones are constructors of their own. The
-- entries of a map stand in the order in which one iteration visits them.
pub mod Order
pub mod Canonical
pub mod Sorting
pub mod Reordering
use msgpack.Prelude.{ℕ, suc, Bool, Option, if◌then◌else◌}
use msgpack.Prelude.Int.{ℤ}
use msgpack.Decoder.{Bytes}
use msgpack.Encoder.Value.{Width}
use msgpack.Encoder.Intern.{same}
use msgpack.Time.{Time}

-- Floats are their bit patterns.
mutual
  pub data Value : Type 0 where
    nil nil_slice nil_map : Value
    bool : Bool → Value
    int : Width → ℤ → Value
    uint : Width → ℕ → Value
    float32 float64 : ℕ → Value
    text : Bytes → Value
    bytes : Option Bytes → Value
    time : Time → Value
    slice : Items → Value
    map : Entries → Value

  pub data Items : Type 0 where
    no_items : Items
    item : Value → Items → Items

  pub data Entries : Type 0 where
    no_entries : Entries
    entry : Bytes → Value → Entries → Entries

-- `len(s)` and `len(m)`
abbrev pub count_items : Items → ℕ
count_items no_items = 0
count_items (item v vs) = suc (count_items vs)

abbrev pub count_entries : Entries → ℕ
count_entries no_entries = 0
count_entries (entry k v es) = suc (count_entries es)

-- `m[key] = value`
unfoldable pub assign : Bytes → Value → Entries → Entries
unfolding same
assign key value no_entries = entry key value no_entries
assign key value (entry k v es) =
    if same k key then entry k value es else entry k v (assign key value es)
