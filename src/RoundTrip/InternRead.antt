-- ===== src/RoundTrip/InternRead.antt =====
-- An interned string is read back in full, or by its index.
use msgpack.Prelude.{
  ℕ, ◌+◌, ◌%◌, ◌^◌, ◌<◌, ◌≡◌, refl, ◌∷◌, ◌++◌, [], Bool, true, false, leb, ltb, if◌then◌else◌,
  arith, length, append_assoc, if_cases, if_cases₂, get_or,
}
use msgpack.Bits.{bit_and_31}
use msgpack.Outcome.{ok, switch, ◌>>=◌}
use msgpack.Wire.Code.{
  is_fixed_string, str8_code, str16_code, str32_code, fix_ext1_code, fix_ext2_code,
}
use msgpack.Decoder.{Decoder, Decoding, Bytes}
use msgpack.Decoder.Read.{read_code}
use msgpack.Decoder.Limit.{uint32_to_int}
use msgpack.Decoder.Word.{uint8, uint16, uint32}
use msgpack.Decoder.Ext.{parse_ext_len, ext_header}
use msgpack.Decoder.Intern.{
  learn, interned_after, decode_interned_string_with_len, decode_interned_string_index,
  interned_string_at_index,
}
use msgpack.Encoder.{write, write_code}
use msgpack.Encoder.Number.{write1, write2, bytes16, bytes32}
use msgpack.Encoder.Intern.{encode_interned_string_index}
use msgpack.RoundTrip.Runs.{Writes, Reads, feed, taken, note_twice, Reads-read_code, Reads-pure}
use msgpack.RoundTrip.Word.{Reads-uint8, Reads-uint16, Reads-uint32}
use msgpack.RoundTrip.Header.{string_form}
use msgpack.RoundTrip.Text.{Reads-string_with_len}

-- A string of that length comes next, and is learned.
string_read :
    (s : Bytes) (intern : Bool) (d : Decoder)
    → d.attached ≡ true
    → decode_interned_string_with_len (length s) intern (feed s d) ≡ learn s intern (taken s d)
unfolding decode_interned_string_with_len
string_read [] true d h = Reads-pure [] d h
string_read [] false d h = Reads-pure [] d h
string_read (x ∷ s) intern d h = rw (Reads-string_with_len (x ∷ s) d h) refl

small : (n : ℕ) (d : Decoder) → n < 2 ^ 32 → uint32_to_int n d ≡ ok n d
unfolding uint32_to_int
small n d h = ground arith

module _ (s : Bytes) (intern : Bool) where
  after_code :
      (d : Decoder) (c : ℕ) (bs : Bytes)
      → d.attached ≡ true
      → interned_after intern c (feed (bs ++ s) (taken (c ∷ []) d))
        ≡ learn s intern (taken (bs ++ s) (taken (c ∷ []) d))
      → (read_code >>= interned_after intern) (feed (c ∷ bs ++ s) d)
        ≡ learn s intern (taken (c ∷ bs ++ s) d)
  after_code d c bs h e =
      rw (Reads-read_code c (feed (bs ++ s) d) h, e, note_twice (c ∷ []) (bs ++ s) d.recording) refl

  after_word :
      (d : Decoder) (word : Decoding ℕ) (bs : Bytes)
      → d.attached ≡ true
      → Reads word bs (length s)
      → (word >>= λ n. decode_interned_string_with_len n intern) (feed (bs ++ s) d)
        ≡ learn s intern (taken (bs ++ s) d)
  after_word d word bs h reads =
      rw
        (
          append_assoc,
          reads (feed s d) h,
          string_read s intern (taken bs d) h,
          note_twice bs s d.recording,
        )
        refl

  after_long :
      (d : Decoder)
      → d.attached ≡ true
      → length s < 2 ^ 32
      → (uint32 >>= λ n. uint32_to_int n >>= λ size. decode_interned_string_with_len size intern)
          (feed (bytes32 (length s) ++ s) d)
        ≡ learn s intern (taken (bytes32 (length s) ++ s) d)
  after_long d h l =
      rw
        (
          append_assoc,
          Reads-uint32 (length s) l (feed s d) h,
          small (length s) (feed s (taken (bytes32 (length s)) d)) l,
          string_read s intern (taken (bytes32 (length s)) d) h,
          note_twice (bytes32 (length s)) s d.recording,
        )
        refl

  -- What the dictionary gains, and nothing else.
  abbrev pub ReadsString : Decoder → Bytes → Type 0
  ReadsString d form =
      (read_code >>= interned_after intern) (feed (form ++ s) d)
      ≡ learn s intern (taken (form ++ s) d)

  read_fixed :
      (d : Decoder) → d.attached ≡ true → length s < 32 → ReadsString d ((160 + length s) ∷ [])
  unfolding is_fixed_string
  read_fixed d h l = after_code d (160 + length s) [] h (
      ground (
        arith,
        bit_and_31 (160 + length s),
        string_read s intern (taken ((160 + length s) ∷ []) d) h,
      ))

  pub read_plain :
      (d : Decoder) → d.attached ≡ true → length s < 2 ^ 32 → ReadsString d (string_form (length s))
  unfolding string_form is_fixed_string switch uint32_to_int
  read_plain d h l =
      if_cases (ReadsString d) (ltb (length s) 32) (λ t. read_fixed d h (ground arith))
        λ _.
          if_cases (ReadsString d) (ltb (length s) 256)
            (λ t. after_code d str8_code (length s ∷ []) h (
              after_word (taken (str8_code ∷ []) d) uint8 (length s ∷ []) h
                (Reads-uint8 (length s))))
            λ _.
              if_cases (ReadsString d) (leb (length s) 65535)
                (λ t. after_code d str16_code (bytes16 (length s)) h (
                  after_word (taken (str16_code ∷ []) d) uint16 (bytes16 (length s)) h
                    (Reads-uint16 (length s) (ground arith))))
                λ _.
                  after_code d str32_code (bytes32 (length s)) h
                    (after_long (taken (str32_code ∷ []) d) h l)

-- The index of a string in the dictionary, as an extension.
abbrev pub index_form : ℕ → Bytes
index_form i = if leb i 255 then fix_ext1_code ∷ 128 ∷ i ∷ [] else fix_ext2_code ∷ 128 ∷ bytes16 i

at_index :
    (i : ℕ) (s : Bytes) (d : Decoder)
    → i < length d.dict
    → get_or d.dict i [] ≡ s
    → interned_string_at_index i d ≡ ok s d
unfolding interned_string_at_index
at_index i s d h e = ground arith

module _ (intern : Bool) (i : ℕ) (s : Bytes) (d : Decoder) (h : d.attached ≡ true)
    (bound : i < length d.dict) (entry : get_or d.dict i [] ≡ s) where
  abbrev pub ReadsIndex : Bytes → Type 0
  ReadsIndex form = (read_code >>= interned_after intern) (feed form d) ≡ ok s (taken form d)

  read_index1 : ReadsIndex (fix_ext1_code ∷ 128 ∷ i ∷ [])
  unfolding switch is_fixed_string ext_header parse_ext_len decode_interned_string_index
  read_index1 =
      let d1 = taken (fix_ext1_code ∷ []) d in
      let d2 = taken (128 ∷ []) d1 in
      let d3 = taken (i ∷ []) d2 in
      rw
        (
          Reads-read_code fix_ext1_code (feed (128 ∷ i ∷ []) d) h,
          Reads-read_code 128 (feed (i ∷ []) d1) h,
          Reads-uint8 i d2 h,
          at_index i s d3 bound entry,
          note_twice (fix_ext1_code ∷ []) (128 ∷ []) d.recording,
          note_twice (fix_ext1_code ∷ 128 ∷ []) (i ∷ []) d.recording,
        )
        refl

  read_index2 : i < 2 ^ 16 → ReadsIndex (fix_ext2_code ∷ 128 ∷ bytes16 i)
  unfolding switch is_fixed_string ext_header parse_ext_len decode_interned_string_index
  read_index2 small_index =
      let d1 = taken (fix_ext2_code ∷ []) d in
      let d2 = taken (128 ∷ []) d1 in
      let d3 = taken (bytes16 i) d2 in
      rw
        (
          Reads-read_code fix_ext2_code (feed (128 ∷ bytes16 i) d) h,
          Reads-read_code 128 (feed (bytes16 i) d1) h,
          Reads-uint16 i small_index d2 h,
          at_index i s d3 bound entry,
          note_twice (fix_ext2_code ∷ []) (128 ∷ []) d.recording,
          note_twice (fix_ext2_code ∷ 128 ∷ []) (bytes16 i) d.recording,
        )
        refl

  pub read_index : i < 2 ^ 16 → ReadsIndex (index_form i)
  read_index small_index =
      if_cases ReadsIndex (leb i 255) (λ _. read_index1) (λ _. read_index2 small_index)

index_low : (w i : ℕ) → i < 2 ^ w → i % 2 ^ w ≡ i
index_low w i h = grind arith

pub index_written : (i : ℕ) → i < 2 ^ 16 → Writes (encode_interned_string_index i) (index_form i)
unfolding encode_interned_string_index write_code write write1 write2
index_written i h =
    if_cases₂ Writes (leb i 255) (λ t e. rw (append_assoc, index_low 8 i (ground arith)) refl)
      λ _.
        if_cases (λ m. Writes m (fix_ext2_code ∷ 128 ∷ bytes16 i)) (leb i 65535)
          (λ t e. rw (append_assoc, index_low 16 i h) refl) (λ f. absurd (ground arith))
