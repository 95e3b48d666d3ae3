-- ===== src/RoundTrip/Runs.antt =====
-- Runs of a writing and of a reading method, and how they compose.
use msgpack.Prelude.{
  ℕ, ◌≡◌, ◌∙◌, refl, sym, ap, true, false, [], ◌∷◌, ◌++◌, append_assoc, append-nil, Option, none,
  some, length, length-append, take-append_all, drop-append_all, arith, ltb,
}
use msgpack.Outcome.{Outcome, ok, ◌>>=◌}
use msgpack.Decoder.{Decoder, Decoding, Bytes}
use msgpack.Decoder.Read.{note, read_code, read_n}
use msgpack.Encoder.{Encoder, Encoding}

-- The method succeeds on every encoder, and appends `bs` to the output.
abbrev pub Writes : Encoding (Unit {0}) → Bytes → Type 0
Writes m bs = (e : Encoder) → m e ≡ ok tt (record e { out = e.out ++ bs })

abbrev pub feed : Bytes → Decoder → Decoder
feed bs d = record d { unread = bs ++ d.unread }

abbrev pub taken : Bytes → Decoder → Decoder
taken bs d = record d { recording = note bs d.recording }

-- Before any input that follows, the method takes `bs` and returns `a`, and changes nothing else
-- but the recording.
abbrev pub Reads : {A : Type 0} → Decoding A → Bytes → A → Type 0
Reads m bs a = (d : Decoder) → d.attached ≡ true → m (feed bs d) ≡ ok a (taken bs d)

pub Writes-bind :
    (m k : Encoding (Unit {0})) (bs cs : Bytes)
    → Writes m bs
    → Writes k cs
    → Writes (m >>= λ _. k) (bs ++ cs)
Writes-bind m k bs cs hm hk e = rw (hm e, hk, append_assoc)

note_nil : (r : Option Bytes) → r ≡ note [] r
note_nil none = refl
note_nil (some r) = rw append-nil

pub note_twice : (bs cs : Bytes) (r : Option Bytes) → note cs (note bs r) ≡ note (bs ++ cs) r
note_twice bs cs none = refl
note_twice bs cs (some r) = rw append_assoc

pub Reads-bind :
    {A B : Type 0} (m : Decoding A) (f : A → Decoding B) (bs cs : Bytes) (a : A) (b : B)
    → Reads m bs a
    → Reads (f a) cs b
    → Reads (m >>= f) (bs ++ cs) b
Reads-bind m f bs cs a b hm hf d h =
    rw (append_assoc, hm (feed cs d) h, hf (taken bs d) h, note_twice bs cs d.recording)

pub Reads-map :
    {A B : Type 0} (m : Decoding A) (f : A → B) (bs : Bytes) (a : A)
    → Reads m bs a
    → Reads (m >>= λ x. Outcome.ok (f x)) bs (f a)
Reads-map m f bs a hm d h = rw (hm d h)

pub Reads-read_code : (c : ℕ) → Reads read_code (c ∷ []) c
unfolding read_code
Reads-read_code c d h = rw h

pub not_short : (bs cs : Bytes) → ltb (length (bs ++ cs)) (length bs) ≡ false
not_short bs cs = ground (arith, length-append bs cs)

pub Reads-read_n : (bs : Bytes) → Reads (read_n (length bs)) bs bs
unfolding read_n
Reads-read_n bs d h =
    rw (h, not_short bs d.unread, take-append_all bs d.unread, drop-append_all bs d.unread)

-- A leading byte, and what the method does after it.
pub Reads-code :
    {A : Type 0} (f : ℕ → Decoding A) (c : ℕ) (bs : Bytes) (a : A)
    → Reads (f c) bs a
    → Reads (read_code >>= f) (c ∷ bs) a
Reads-code f c bs a h = Reads-bind read_code f (c ∷ []) bs c a (Reads-read_code c) h

pub Reads-pure : {A : Type 0} (a : A) → Reads (λ d. ok a d) [] a
Reads-pure a d h = ap (λ r. ok a (record d { recording = r })) (note_nil d.recording)

-- The same before the input of one decoder `d`, whatever has been recorded: what the guards on
-- lengths need.
abbrev pub ReadsAt : {A : Type 0} → Decoder → Decoding A → Bytes → A → Type 0
ReadsAt d m bs a =
    (r : Option Bytes)
    → m (feed bs (record d { recording = r })) ≡ ok a (taken bs (record d { recording = r }))

pub Reads-ReadsAt :
    {A : Type 0} (d : Decoder) (m : Decoding A) (bs : Bytes) (a : A)
    → d.attached ≡ true
    → Reads m bs a
    → ReadsAt d m bs a
Reads-ReadsAt d m bs a h hm r = hm (record d { recording = r }) h

pub ReadsAt-bind :
    {A B : Type 0} (d : Decoder) (m : Decoding A) (f : A → Decoding B) (bs cs : Bytes) (a : A)
    (b : B)
    → ReadsAt (feed cs d) m bs a
    → ReadsAt d (f a) cs b
    → ReadsAt d (m >>= f) (bs ++ cs) b
ReadsAt-bind d m f bs cs a b hm hf r = rw (append_assoc, hm r, hf (note bs r), note_twice bs cs r)

pub ReadsAt-code :
    {A : Type 0} (d : Decoder) (f : ℕ → Decoding A) (c : ℕ) (bs : Bytes) (a : A)
    → d.attached ≡ true
    → ReadsAt d (f c) bs a
    → ReadsAt d (read_code >>= f) (c ∷ bs) a
ReadsAt-code d f c bs a h hf =
    ReadsAt-bind d read_code f (c ∷ []) bs c a
      (Reads-ReadsAt (feed bs d) read_code (c ∷ []) c h (Reads-read_code c)) hf

-- A guard that passes takes nothing.
pub ReadsAt-guard :
    {A : Type 0} (d : Decoder) (m : Decoding A) (a : A)
    → ((r : Option Bytes) → m (record d { recording = r }) ≡ ok a (record d { recording = r }))
    → ReadsAt d m [] a
ReadsAt-guard d m a h r = h r ∙ ap (λ q. ok a (record d { recording = q })) (note_nil r)

-- On the encoder `e` the method writes bytes, from which `read` gets `a` on the decoder `d`.
abbrev pub Exchanged :
    {A : Type 0} → Encoding (Unit {0}) → Decoding A → Encoder → Decoder → A → Type 0
Exchanged m read e d a =
    (bs : Bytes) × (m e ≡ ok tt (record e { out = e.out ++ bs }))
    × (read (feed bs d) ≡ ok a (taken bs d))

-- A decoder that does not record is as it was.
pub taken_plain : (bs : Bytes) (d : Decoder) → d.recording ≡ none → taken bs d ≡ d
taken_plain bs d r =
    ap (λ q. record d { recording = note bs q }) r ∙ ap (λ q. record d { recording = q }) (sym r)
