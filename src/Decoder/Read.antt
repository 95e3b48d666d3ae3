-- ===== src/Decoder/Read.antt =====
-- pkg/msgpack/decode.go: reading codes and blocks of bytes, with the recording of what is read.
use msgpack.Prelude.{ℕ, [], ◌∷◌, ◌++◌, Option, none, some, length, take, drop, ltb, if◌then◌else◌}
use msgpack.Outcome.{Error, ok, err, ◌>>=◌, pure}
use msgpack.Decoder.{Decoding, Bytes}

-- `if d.rec != nil { d.rec = append(d.rec, bs...) }`
abbrev pub note : Bytes → Option Bytes → Option Bytes
note bs none = none
note bs (some r) = some (r ++ bs)

-- `d.s.ReadByte()` on a reader that is there.
abbrev pub next_byte : Bytes → Decoding ℕ
next_byte [] d = err Error.eof d
next_byte (c ∷ rest) d = ok c (record d { unread = rest; recording = note (c ∷ []) d.recording })

unfoldable pub read_code : Decoding ℕ
read_code d = if d.attached then next_byte d.unread d else err Error.eof d

abbrev pub first_byte : Bytes → Decoding ℕ
first_byte [] d = err Error.eof d
first_byte (c ∷ rest) d = ok c d

unfoldable pub peek_code : Decoding ℕ
peek_code d = if d.attached then first_byte d.unread d else err Error.eof d

-- A read of `n` bytes; on a short input it takes what is left, and records nothing.
unfoldable pub read_n : ℕ → Decoding Bytes
read_n n d =
    if d.attached
    then if ltb (length d.unread) n
      then err Error.eof (record d { unread = [] })
      else ok (take n d.unread)
          (record d { unread = drop n d.unread; recording = note (take n d.unread) d.recording })
    else err Error.eof d

unfoldable pub skip_n : ℕ → Decoding (Unit {0})
skip_n n = do _ ← read_n n; pure tt

-- The functions `readN(d.r, b, n)` and `readNGrow(d.r, b, n)`, which bypass the recording.
unfoldable pub read_block : ℕ → Decoding Bytes
read_block n d =
    if ltb (length d.unread) n
    then err Error.eof (record d { unread = [] })
    else ok (take n d.unread) (record d { unread = drop n d.unread })
