-- ===== src/Decoder.antt =====
-- pkg/msgpack/decode.go: the Decoder's state, its options, and the nesting depth.
pub mod Read
pub mod Limit
pub mod Word
pub mod Number
pub mod Float
pub mod Length
pub mod Ext
pub mod Text
pub mod Intern
pub mod Skip
pub mod Time
pub mod Tracks
pub mod Settles
pub mod Bounds
pub mod Pool
pub mod Dynamic
pub mod Builtin
pub mod Query
pub mod Strings
pub mod Reflect
pub mod Unmarshal
use msgpack.Prelude.{
  ℕ, ◌+◌, ◌-◌, Bool, true, false, not, List, [], Option, none, some, ◌==◌, ltb, if◌then◌else◌,
  bit_and, bit_or, ◌^◌,
}
use msgpack.Prelude.Int.{ℤ, pos, leb_ℤ, pos_part}
use msgpack.Outcome.{Error, Outcome, ok, err, Action}

abbrev pub Bytes : Type 0
Bytes = List ℕ

-- `attached` is `d.r != nil`, `unread` the bytes that the reader still has, and `sized` says that
-- it has the method Len. `map_decoder` says which of the caller's functions SetMapDecoder has set,
-- by its number among them (see Setup). `recording` is `d.rec`. The scratch buffer `d.buf` is not a field: what a
-- read returns does not depend on its capacity (see Reader).
pub record Decoder : Type 0 where
  pub attached : Bool
  pub sized : Bool
  pub unread : Bytes
  pub map_decoder : Option ℕ
  pub recording : Option Bytes
  pub dict : List Bytes
  pub struct_tag : Bytes
  pub depth : ℕ
  pub max_depth : ℕ
  pub flags : ℕ

abbrev pub Decoding : Type 0 → Type 0
Decoding A = Action Decoder A

abbrev pub bytes_alloc_limit : ℕ
bytes_alloc_limit = 1_048_576

abbrev pub slice_alloc_limit : ℕ
slice_alloc_limit = 1_000_000

abbrev pub max_map_size : ℕ
max_map_size = 1_000_000

abbrev pub default_decode_depth_limit : ℕ
default_decode_depth_limit = 10_000

abbrev pub loose_interface_decoding_flag : ℕ
loose_interface_decoding_flag = 1

abbrev pub disallow_unknown_fields_flag : ℕ
disallow_unknown_fields_flag = 2

abbrev pub use_preallocate_values : ℕ
use_preallocate_values = 4

abbrev pub disable_alloc_limit_flag : ℕ
disable_alloc_limit_flag = 8

abbrev pub use_interned_strings_flag : ℕ
use_interned_strings_flag = 16

-- `flags & flag != 0`
abbrev pub has_flag : ℕ → ℕ → Bool
has_flag flags flag = not (bit_and flags flag == 0)

-- `flags |= flag`, or `flags &= ^flag` on a uint32
abbrev pub put_flag : Bool → ℕ → ℕ → ℕ
put_flag on flag flags = if on then bit_or flags flag else bit_and flags (2 ^ 32 - 1 - flag)

-- What a reader given to the decoder has: nothing for a nil reader.
pub data Source : Type 0 where
  nil_reader : Source
  len_reader plain_reader : Bytes → Source

unfoldable pub reset_reader : Source → Decoder → Decoder
reset_reader nil_reader d = record d {
  map_decoder = none;
  dict = [];
  attached = false;
  sized = false;
  unread = [];
}
reset_reader (len_reader bs) d = record d {
  map_decoder = none;
  dict = [];
  attached = true;
  sized = true;
  unread = bs;
}
reset_reader (plain_reader bs) d = record d {
  map_decoder = none;
  dict = [];
  attached = true;
  sized = false;
  unread = bs;
}

unfoldable pub reset_dict : Source → List Bytes → Decoder → Decoder
unfolding reset_reader
reset_dict r dict d = record (reset_reader r d) {
  flags = 0;
  struct_tag = [];
  dict = dict;
  depth = 0;
}

unfoldable pub reset : Source → Decoder → Decoder
unfolding reset_dict
reset r d = reset_dict r [] d

unfoldable pub new_decoder : Source → Decoder
unfolding reset
new_decoder r = reset r (record {
  attached = false;
  sized = false;
  unread = [];
  map_decoder = none;
  recording = none;
  dict = [];
  struct_tag = [];
  depth = 0;
  max_depth = default_decode_depth_limit;
  flags = 0;
})

-- The decoder that PutDecoder hands to the pool, and that GetDecoder may take from it.
unfoldable pub put_decoder : Decoder → Decoder
put_decoder d = record d { attached = false; sized = false; unread = [] }

abbrev restore_dict : List Bytes → Outcome Decoder (Unit {0}) → Outcome Decoder (Unit {0})
restore_dict old (ok u d) = ok u (record d { dict = old })
restore_dict old (err e d) = err e (record d { dict = old })
restore_dict old Outcome.stuck = Outcome.stuck

-- `fn` runs with another dictionary, and the old one is put back however it ends.
unfoldable pub with_dict : List Bytes → Decoding (Unit {0}) → Decoding (Unit {0})
with_dict dict fn d = restore_dict d.dict (fn (record d { dict = dict }))

unfoldable pub set_map_decoder : Option ℕ → Decoder → Decoder
set_map_decoder fn d = record d { map_decoder = fn }

unfoldable pub use_loose_interface_decoding : Bool → Decoder → Decoder
use_loose_interface_decoding on d = record d {
  flags = put_flag on loose_interface_decoding_flag d.flags;
}

unfoldable pub disallow_unknown_fields : Bool → Decoder → Decoder
disallow_unknown_fields on d = record d { flags = put_flag on disallow_unknown_fields_flag d.flags }

unfoldable pub use_interned_strings : Bool → Decoder → Decoder
use_interned_strings on d = record d { flags = put_flag on use_interned_strings_flag d.flags }

unfoldable pub use_preallocated : Bool → Decoder → Decoder
use_preallocated on d = record d { flags = put_flag on use_preallocate_values d.flags }

unfoldable pub disable_alloc_limit : Bool → Decoder → Decoder
disable_alloc_limit on d = record d { flags = put_flag on disable_alloc_limit_flag d.flags }

unfoldable pub set_custom_struct_tag : Bytes → Decoder → Decoder
set_custom_struct_tag tag d = record d { struct_tag = tag }

unfoldable pub set_decode_depth_limit : ℤ → Decoder → Decoder
set_decode_depth_limit limit d =
    if leb_ℤ limit (pos 0)
    then record d { max_depth = default_decode_depth_limit }
    else record d { max_depth = pos_part limit }

-- The limit that `enterDepth` applies; a zero field stands for the default.
abbrev pub depth_limit : Decoder → ℕ
depth_limit d = if d.max_depth == 0 then default_decode_depth_limit else d.max_depth

unfoldable pub enter_depth : Decoding (Unit {0})
enter_depth d =
    if ltb (depth_limit d) (d.depth + 1)
    then err (Error.depth_exceeds_limit (depth_limit d)) d
    else ok tt (record d { depth = d.depth + 1 })

unfoldable pub leave_depth : Decoder → Decoder
leave_depth d = record d { depth = d.depth - 1 }
