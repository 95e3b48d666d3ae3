-- ===== src/Encoder.antt =====
-- pkg/msgpack/encode.go: the Encoder's state, its options, and the writes.
pub mod Number
pub mod Value
pub mod Length
pub mod Text
pub mod Intern
pub mod Time
pub mod Float
pub mod Dynamic
pub mod Strings
pub mod Reflect
pub mod Marshal
use msgpack.Prelude.{ℕ, ◌/◌, ◌%◌, Bool, List, [], ◌∷◌, ◌++◌}
use msgpack.Outcome.{ok, Action}
use msgpack.Decoder.{Bytes, put_flag, use_interned_strings_flag}

-- `out` is what the writer holds. The writer is the growing buffer of Marshal, AppendMarshal and
-- Append (`appendWriter`), whose writes never fail. The scratch buffers are not fields: each write
-- fills them anew.
pub record Encoder : Type 0 where
  pub out : Bytes
  pub dict : List (Bytes × ℕ)
  pub struct_tag : Bytes
  pub flags : ℕ

abbrev pub Encoding : Type 0 → Type 0
Encoding A = Action Encoder A

abbrev pub sort_map_keys_flag : ℕ
sort_map_keys_flag = 1

abbrev pub array_encoded_structs_flag : ℕ
array_encoded_structs_flag = 2

abbrev pub use_compact_ints_flag : ℕ
use_compact_ints_flag = 4

abbrev pub use_compact_floats_flag : ℕ
use_compact_floats_flag = 8

abbrev pub omit_empty_flag : ℕ
omit_empty_flag = 32

unfoldable pub set_sort_map_keys : Bool → Encoder → Encoder
set_sort_map_keys on e = record e { flags = put_flag on sort_map_keys_flag e.flags }

unfoldable pub set_custom_struct_tag : Bytes → Encoder → Encoder
set_custom_struct_tag tag e = record e { struct_tag = tag }

unfoldable pub set_omit_empty : Bool → Encoder → Encoder
set_omit_empty on e = record e { flags = put_flag on omit_empty_flag e.flags }

unfoldable pub use_array_encoded_structs : Bool → Encoder → Encoder
use_array_encoded_structs on e = record e { flags = put_flag on array_encoded_structs_flag e.flags }

unfoldable pub use_compact_ints : Bool → Encoder → Encoder
use_compact_ints on e = record e { flags = put_flag on use_compact_ints_flag e.flags }

unfoldable pub use_compact_floats : Bool → Encoder → Encoder
use_compact_floats on e = record e { flags = put_flag on use_compact_floats_flag e.flags }

unfoldable pub use_interned_strings : Bool → Encoder → Encoder
use_interned_strings on e = record e { flags = put_flag on use_interned_strings_flag e.flags }

-- The writer is replaced by an empty buffer.
unfoldable pub reset_writer : Encoder → Encoder
reset_writer e = record e { dict = []; out = [] }

unfoldable pub reset_dict : List (Bytes × ℕ) → Encoder → Encoder
unfolding reset_writer
reset_dict dict e = record (reset_writer e) { flags = 0; struct_tag = []; dict = dict }

unfoldable pub reset : Encoder → Encoder
unfolding reset_dict
reset e = reset_dict [] e

-- `e.write(b)` and `e.writeString(s)`
unfoldable pub write : Bytes → Encoding (Unit {0})
write b e = ok tt (record e { out = e.out ++ b })

unfoldable pub write_code : ℕ → Encoding (Unit {0})
unfolding write
write_code c = write (c ∷ [])
