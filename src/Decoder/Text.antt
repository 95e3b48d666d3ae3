-- ===== src/Decoder/Text.antt =====
-- pkg/msgpack/decode_string.go: strings and byte strings. A Go string is its bytes.
use msgpack.Prelude.{ℕ, suc, [], Option, none, some}
use msgpack.Prelude.Int.{ℤ, pos, negsuc}
use msgpack.Outcome.{◌>>=◌, pure}
use msgpack.Decoder.{Decoding, Bytes}
use msgpack.Decoder.Read.{read_code, read_n, read_block, skip_n}
use msgpack.Decoder.Length.{bytes_len}

unfoldable pub string_with_len : ℤ → Decoding Bytes
string_with_len (pos ℕ.zero) = pure []
string_with_len (pos (suc n)) = read_n (suc n)
string_with_len (negsuc n) = pure []

unfoldable pub string : ℕ → Decoding Bytes
string c = do n ← bytes_len c; string_with_len n

unfoldable pub bytes_with_len : ℤ → Decoding (Option Bytes)
bytes_with_len (negsuc n) = pure none
bytes_with_len (pos n) = do b ← read_block n; pure (some b)

-- A nil slice is `none`.
unfoldable pub bytes : ℕ → Decoding (Option Bytes)
bytes c = do n ← bytes_len c; bytes_with_len n

unfoldable pub decode_bytes : Decoding (Option Bytes)
decode_bytes = do c ← read_code; bytes c

unfoldable pub skip_block : ℤ → Decoding (Unit {0})
skip_block (pos ℕ.zero) = pure tt
skip_block (pos (suc n)) = skip_n (suc n)
skip_block (negsuc n) = pure tt

unfoldable pub skip_bytes : ℕ → Decoding (Unit {0})
skip_bytes c = do n ← bytes_len c; skip_block n
