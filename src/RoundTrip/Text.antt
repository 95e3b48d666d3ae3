-- ===== src/RoundTrip/Text.antt =====
-- Strings and byte strings are read back, whatever follows them.
use msgpack.Prelude.{
  ℕ, ◌+◌, ◌^◌, ◌<◌, ◌≤◌, ◌≡◌, ◌∙◌, refl, ◌∷◌, ◌++◌, [], true, false, leb, ltb, arith, length,
  length-append, take-append_all, drop-append_all, append_assoc, if_cases, Option, some, none, ap,
}
use mathlib.Core.Option.{get_or}
use msgpack.Prelude.Int.{ℤ, pos}
use msgpack.Bits.{bit_and_31}
use msgpack.Outcome.{ok, switch, continue_assoc, ◌>>=◌}
use msgpack.Decoder.Intern.{reads_interned, decode_string, temp_with_len}
use msgpack.Encoder.Length.{encode_string_len, encode_bytes_len}
use msgpack.Wire.Code.{
  nil_code, is_fixed_string, bin8_code, bin16_code, bin32_code, str8_code, str16_code, str32_code,
}
use msgpack.Decoder.{Decoder, Decoding, Bytes}
use msgpack.Decoder.Read.{read_code, read_block}
use msgpack.Decoder.Limit.{reject_oversized_bytes, remaining_readable}
use msgpack.Decoder.Length.{checked_bytes, bytes_len}
use msgpack.Decoder.Text.{string, string_with_len, decode_bytes, bytes, bytes_with_len}
use msgpack.Encoder.{Encoder, write, write_code}
use msgpack.Encoder.Text.{encode_normal_string, encode_bytes, encode_nil}
use msgpack.RoundTrip.Runs.{
  Writes, Reads, ReadsAt, Writes-bind, Reads-ReadsAt, ReadsAt-bind, ReadsAt-guard, ReadsAt-code,
  Reads-read_n, Reads-pure, Exchanged, not_short, taken_plain, Reads-read_code, feed, taken,
}
use msgpack.RoundTrip.Header.{
  string_form, bytes_form, Writes-encode_string_len, Writes-encode_bytes_len, read8, read16, read32,
}

-- The guard passes where the input still has `l` bytes.
Reads-checked_bytes :
    (d : Decoder) (l : ℕ) → l ≤ length d.unread → ReadsAt d (checked_bytes l) [] (pos l)
unfolding reject_oversized_bytes remaining_readable
Reads-checked_bytes d l h = ReadsAt-guard d (checked_bytes l) (pos l) λ r. ground arith

module _ (d : Decoder) (attached : d.attached ≡ true) (l : ℕ) (room : l ≤ length d.unread) where
  abbrev Header : Bytes → Type 0
  Header bs = ReadsAt d (read_code >>= bytes_len) bs (pos l)

  abbrev passes : ReadsAt d (checked_bytes l) [] (pos l)
  passes = Reads-checked_bytes d l room

  read_fixed : l < 32 → ReadsAt d (bytes_len (160 + l)) [] (pos l)
  unfolding bytes_len is_fixed_string
  read_fixed h r = ground (arith, bit_and_31 (160 + l), passes r)

  read_string_form : l < 2 ^ 32 → Header (string_form l)
  unfolding bytes_len is_fixed_string switch string_form
  read_string_form h =
      let after = ReadsAt-code d bytes_len in
      if_cases Header (ltb l 32)
        (λ t. after (160 + l) [] (pos l) attached (read_fixed (ground arith)))
        λ _.
          if_cases Header (ltb l 256)
            (λ t. after str8_code _ (pos l) attached (read8 d attached checked_bytes l passes))
            λ _.
              if_cases Header (leb l 65535)
                (λ t.
                  after str16_code _ (pos l) attached
                    (read16 d attached checked_bytes l passes (ground arith)))
                λ _.
                  after str32_code _ (pos l) attached (read32 d attached checked_bytes l passes h)

  read_bytes_form : l < 2 ^ 32 → Header (bytes_form l)
  unfolding bytes_len is_fixed_string switch bytes_form
  read_bytes_form h =
      let after = ReadsAt-code d bytes_len in
      if_cases Header (ltb l 256)
        (λ t. after bin8_code _ (pos l) attached (read8 d attached checked_bytes l passes))
        λ _.
          if_cases Header (leb l 65535)
            (λ t.
              after bin16_code _ (pos l) attached
                (read16 d attached checked_bytes l passes (ground arith)))
            λ _. after bin32_code _ (pos l) attached (read32 d attached checked_bytes l passes h)

-- Where `length s` bytes are to be read, `s` is.
pub Reads-string_with_len : (s : Bytes) → Reads (string_with_len (pos (length s))) s s
unfolding string_with_len
Reads-string_with_len [] d h = Reads-pure [] d h
Reads-string_with_len (x ∷ s) d h = Reads-read_n (x ∷ s) d h

-- A length header and what is read by the length.
length_run :
    (f : ℤ → Decoding Bytes) (d : Decoder)
    → (read_code >>= λ c. bytes_len c >>= f) d ≡ ((read_code >>= bytes_len) >>= f) d
length_run f d = continue_assoc (read_code d) bytes_len f

bytes_run :
    (d : Decoder) → (read_code >>= bytes) d ≡ ((read_code >>= bytes_len) >>= bytes_with_len) d
unfolding bytes
bytes_run d = continue_assoc (read_code d) bytes_len bytes_with_len

room_of_append : (s rest : Bytes) → length s ≤ length (s ++ rest)
room_of_append s rest = omega (arith, length-append {0} s rest)

-- Whatever reads the bytes, it does so behind the header too.
pub Reads-string_form :
    (f : ℤ → Decoding Bytes) (s : Bytes)
    → length s < 2 ^ 32
    → Reads (f (pos (length s))) s s
    → Reads (read_code >>= λ c. bytes_len c >>= f) (string_form (length s) ++ s) s
Reads-string_form f s h reads d a =
    length_run f _
    ∙ ReadsAt-bind d (read_code >>= bytes_len) f (string_form (length s)) s (pos (length s)) s
        (read_string_form (feed s d) a (length s) (room_of_append s d.unread) h)
        (Reads-ReadsAt d (f (pos (length s))) s s a reads) d.recording

pub Reads-string :
    (s : Bytes) → length s < 2 ^ 32 → Reads (read_code >>= string) (string_form (length s) ++ s) s
unfolding string
Reads-string s h = Reads-string_form string_with_len s h (Reads-string_with_len s)

-- The same for decodeStringTemp.
pub Reads-temp_with_len :
    (s : Bytes)
    → length s < 2 ^ 32
    → Reads (read_code >>= λ c. bytes_len c >>= temp_with_len) (string_form (length s) ++ s) s
unfolding temp_with_len
Reads-temp_with_len s h = Reads-string_form temp_with_len s h (Reads-read_n s)

pub Writes-encode_normal_string :
    (s : Bytes) → length s < 2 ^ 32 → Writes (encode_normal_string s) (string_form (length s) ++ s)
unfolding encode_normal_string write
Writes-encode_normal_string s h =
    Writes-bind (encode_string_len (length s)) (write s) (string_form (length s)) s
      (Writes-encode_string_len (length s) h) (λ _. refl)

-- A string of less than 2^32 bytes that encodeNormalString writes is read back by DecodeString,
-- before any further input, where the decoder has a reader and no interning is on.
pub decode_string-encode_normal_string :
    (s : Bytes) (e : Encoder) (d : Decoder)
    → length s < 2 ^ 32
    → d.attached ≡ true
    → reads_interned d ≡ false
    → Exchanged (encode_normal_string s) decode_string e d s
unfolding decode_string
decode_string-encode_normal_string s e d h a plain = (
  string_form (length s) ++ s,
  Writes-encode_normal_string s h e,
  rw plain (Reads-string s h d a),
)

-- What the reader gives past the recording, with the recording on for nothing.
Reads-bytes_with_len :
    (s : Bytes) (d : Decoder) → bytes_with_len (pos (length s)) (feed s d) ≡ ok (some s) d
unfolding bytes_with_len read_block
Reads-bytes_with_len s d =
    rw (not_short s d.unread, take-append_all s d.unread, drop-append_all s d.unread)

header_of_bytes :
    (s : Bytes) (d : Decoder)
    → length s < 2 ^ 32
    → d.attached ≡ true
    → (read_code >>= bytes_len) (feed (bytes_form (length s) ++ s) d)
      ≡ ok (pos (length s)) (taken (bytes_form (length s)) (feed s d))
header_of_bytes s d h a =
    rw append_assoc
      (read_bytes_form (feed s d) a (length s) (room_of_append s d.unread) h d.recording)

pub nil_written : Writes encode_nil (nil_code ∷ [])
unfolding encode_nil write_code write
nil_written e = refl

block_written : (s : Bytes) → Writes (write s) s
unfolding write
block_written s e = refl

pub nil_read :
    (d : Decoder)
    → d.attached ≡ true
    → (read_code >>= bytes) (feed (nil_code ∷ []) d) ≡ ok none (taken (nil_code ∷ []) d)
unfolding bytes bytes_len bytes_with_len
nil_read d a = rw (Reads-read_code nil_code d a)

-- A byte slice that is not nil, written and read.
pub Writes-encode_bytes :
    (s : Bytes) → length s < 2 ^ 32 → Writes (encode_bytes (some s)) (bytes_form (length s) ++ s)
unfolding encode_bytes
Writes-encode_bytes s h =
    Writes-bind (encode_bytes_len (length s)) (write s) (bytes_form (length s)) s
      (Writes-encode_bytes_len (length s) h) (block_written s)

pub bytes_read :
    (s : Bytes) (d : Decoder)
    → length s < 2 ^ 32
    → d.attached ≡ true
    → d.recording ≡ none
    → (read_code >>= bytes) (feed (bytes_form (length s) ++ s) d) ≡ ok (some s) d
bytes_read s d h a r =
    bytes_run (feed (bytes_form (length s) ++ s) d)
    ∙ rw (header_of_bytes s d h a, taken_plain (bytes_form (length s)) (feed s d) r)
        (Reads-bytes_with_len s d)

-- A byte slice of less than 2^32 bytes that EncodeBytes writes is read back by DecodeBytes, before
-- any further input, where the decoder has a reader and is not recording; the nil slice too.
pub decode_bytes-encode_bytes :
    (v : Option Bytes) (e : Encoder) (d : Decoder)
    → length (get_or v []) < 2 ^ 32
    → d.attached ≡ true
    → d.recording ≡ none
    → (bs : Bytes) × (encode_bytes v e ≡ ok tt (record e { out = e.out ++ bs }))
      × (decode_bytes (feed bs d) ≡ ok v d)
unfolding encode_bytes decode_bytes
decode_bytes-encode_bytes none e d h a r =
    (nil_code ∷ [], nil_written e, nil_read d a ∙ ap (ok none) (taken_plain (nil_code ∷ []) d r))
decode_bytes-encode_bytes (some s) e d h a r =
    (bytes_form (length s) ++ s, Writes-encode_bytes s h e, bytes_read s d h a r)
