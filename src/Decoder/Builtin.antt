-- ===== src/Decoder/Builtin.antt =====
-- pkg/msgpack/time.go, intern.go: the extension types that the package registers itself.
use msgpack.Prelude.{ℕ, Option, none, some, if◌then◌else◌}
use msgpack.Prelude.Int.{ℤ}
use msgpack.Outcome.{◌>>=◌, pure}
use msgpack.Time.{time_ext_id}
use msgpack.Dynamic.{Value}
use msgpack.Decoder.{Decoding}
use msgpack.Decoder.Time.{equal_ids, time_block}
use msgpack.Decoder.Intern.{is_intern_id, decode_interned_string_index, interned_string_at_index}

-- `timeDecoder`, with the new time as a value.
unfoldable pub time_decoder : ℕ → Decoding Value
time_decoder ext_len = do tm ← time_block ext_len; pure (Value.time tm)

unfoldable pub decode_interned_string_ext : ℕ → Decoding Value
decode_interned_string_ext ext_len = do
  idx ← decode_interned_string_index ext_len
  s ← interned_string_at_index idx
  pure (Value.text s)

-- The table extTypes as the two functions init leave it.
abbrev pub built_in : ℤ → Option (ℕ → Decoding Value)
built_in id =
    if equal_ids id time_ext_id
    then some time_decoder
    else if is_intern_id id
    then some decode_interned_string_ext
    else none
