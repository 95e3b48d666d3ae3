-- ===== src/RoundTrip/Dynamic/Yields.antt =====
-- Decoding before any further input by a decoder with plain options, at some depth, and encoding by
-- an encoder with given options.
use msgpack.Prelude.{
  ℕ, zero, suc, ◌+◌, ◌≤◌, ◌≡◌, ◌∙◌, ap, refl, sym, true, false, [], ◌∷◌, ◌++◌, append_assoc,
  append-nil, Option, none, arith,
}
use msgpack.Outcome.{Outcome, ok, ◌>>=◌, ◌>>◌}
use msgpack.Dynamic.{Value}
use msgpack.Decoder.{
  Decoder, Decoding, Bytes, has_flag, loose_interface_decoding_flag, enter_depth, leave_depth,
  depth_limit,
}
use msgpack.Decoder.Read.{read_code}
use msgpack.Decoder.Intern.{reads_interned}
use msgpack.Decoder.Skip.{leaving}
use msgpack.Decoder.Dynamic.{Setup, interface_after, interface_fuel}
use msgpack.Encoder.{Encoder, Encoding}
use msgpack.RoundTrip.Runs.{Reads, feed, taken_plain, Reads-read_code}

-- The reader is there and has a Len method; nothing is recorded, interned or decoded loosely; and
-- `P` holds of the choice of a map decoder.
pub record IsPlainWith (P : Option ℕ → Type 0) (d : Decoder) : Type 0 where
  pub attached : d.attached ≡ true
  pub sized : d.sized ≡ true
  pub silent : d.recording ≡ none
  pub direct : reads_interned d ≡ false
  pub strict : has_flag d.flags loose_interface_decoding_flag ≡ false
  pub allowed : P d.map_decoder

-- The same with any map decoder.
abbrev pub IsPlain : Decoder → Type 0
IsPlain d = IsPlainWith (λ _. Unit {0}) d

abbrev pub IsUnset : Option ℕ → Type 0
IsUnset fn = fn ≡ none

-- A plain decoder with `k` levels of depth left takes `bs` and returns `a`, and is as before.
abbrev pub YieldsWith : {A : Type 0} → (Option ℕ → Type 0) → ℕ → Decoding A → Bytes → A → Type 0
YieldsWith P k m bs a =
    (d : Decoder) → IsPlainWith P d → d.depth + k ≤ depth_limit d → m (feed bs d) ≡ ok a d

-- The same with any map decoder, and with none.
abbrev pub Yields : {A : Type 0} → ℕ → Decoding A → Bytes → A → Type 0
Yields = YieldsWith (λ _. Unit {0})

abbrev pub YieldsUnset : {A : Type 0} → ℕ → Decoding A → Bytes → A → Type 0
YieldsUnset = YieldsWith IsUnset

module _ {P : Option ℕ → Type 0} where
  pub Yields-of_Reads :
      {A : Type 0} (k : ℕ) (m : Decoding A) (bs : Bytes) (a : A)
      → Reads m bs a
      → YieldsWith P k m bs a
  Yields-of_Reads k m bs a h d p room = h d p.attached ∙ ap (ok a) (taken_plain bs d p.silent)

  pub IsPlain-feed : (bs : Bytes) (d : Decoder) → IsPlainWith P d → IsPlainWith P (feed bs d)
  IsPlain-feed bs d p = record {
    attached = p.attached;
    sized = p.sized;
    silent = p.silent;
    direct = p.direct;
    strict = p.strict;
    allowed = p.allowed;
  }

  pub Yields-bind :
      {A B : Type 0} (k : ℕ) (m : Decoding A) (f : A → Decoding B) (bs cs : Bytes) (a : A) (b : B)
      → YieldsWith P k m bs a
      → YieldsWith P k (f a) cs b
      → YieldsWith P k (m >>= f) (bs ++ cs) b
  Yields-bind k m f bs cs a b hm hf d p room =
      rw (append_assoc, hm (feed cs d) (IsPlain-feed cs d p) room) (hf d p room)

  pub Yields-map :
      {A B : Type 0} (k : ℕ) (m : Decoding A) (f : A → B) (bs : Bytes) (a : A)
      → YieldsWith P k m bs a
      → YieldsWith P k (m >>= λ x. Outcome.ok (f x)) bs (f a)
  Yields-map k m f bs a hm d p room = rw (hm d p room)

  pub Yields-pure : {A : Type 0} (k : ℕ) (a : A) → YieldsWith P k (λ d. ok a d) [] a
  Yields-pure k a d p room = refl

  pub Yields-code :
      {A : Type 0} (k : ℕ) (f : ℕ → Decoding A) (c : ℕ) (bs : Bytes) (a : A)
      → YieldsWith P k (f c) bs a
      → YieldsWith P k (read_code >>= f) (c ∷ bs) a
  Yields-code k f c bs a h =
      Yields-bind k read_code f (c ∷ []) bs c a
        (Yields-of_Reads k read_code (c ∷ []) c (Reads-read_code c)) h

  -- The other way round: past the leading byte.
  pub Yields-after :
      {A : Type 0} (k : ℕ) (f : ℕ → Decoding A) (c : ℕ) (bs : Bytes) (a : A)
      → YieldsWith P k (read_code >>= f) (c ∷ bs) a
      → YieldsWith P k (f c) bs a
  Yields-after k f c bs a h d p room =
      sym (rw (Reads-read_code c (feed bs d) p.attached, p.silent) refl) ∙ h d p room

-- One level deeper.
abbrev pub deeper : Decoder → Decoder
deeper d = record d { depth = d.depth + 1 }

pub IsPlain-deeper :
    {P : Option ℕ → Type 0} (d : Decoder) → IsPlainWith P d → IsPlainWith P (deeper d)
IsPlain-deeper d p = record {
  allowed = p.allowed;
  attached = p.attached;
  sized = p.sized;
  silent = p.silent;
  direct = p.direct;
  strict = p.strict;
}

pub entered :
    (d : Decoder) (bs : Bytes) (k : ℕ)
    → d.depth + suc k ≤ depth_limit d
    → enter_depth (feed bs d) ≡ ok tt (feed bs (deeper d))
unfolding enter_depth
entered d bs k h = ground arith

left_again : (w : Value) (d : Decoder) → leaving (ok w (deeper d)) ≡ ok w d
unfolding leave_depth
left_again w d = ap (λ n. ok w (record d { depth = n })) (omega arith)

module _ (setup : Setup) where
  -- With `k` levels and as much fuel, the bytes are read as the value.
  abbrev pub YieldsValue : ℕ → Bytes → Value → Type 0
  YieldsValue k bs w = (fuel : ℕ) → k ≤ fuel → YieldsUnset k (interface_fuel setup fuel) bs w

  abbrev pub Body : ℕ → Bytes → Value → Type 0
  Body k bs w =
      (fuel : ℕ)
      → k ≤ fuel
      → YieldsUnset k (read_code >>= interface_after setup (interface_fuel setup fuel)) bs w

  pub YieldsValue-suc : (k : ℕ) (bs : Bytes) (w : Value) → Body k bs w → YieldsValue (suc k) bs w
  unfolding interface_fuel
  YieldsValue-suc k bs w body zero enough d p room = absurd (omega (arith, enough))
  YieldsValue-suc k bs w body (suc fuel) enough d p room =
      rw
        (
          entered d bs k room,
          p.strict,
          body fuel (omega (arith, enough)) (deeper d) (IsPlain-deeper d p) (omega (arith, room)),
        )
        (left_again w d)

-- An encoder with the options `flags` and no dictionary appends `bs`.
abbrev pub Emits : ℕ → Encoding (Unit {0}) → Bytes → Type 0
Emits flags m bs =
    (e : Encoder) → e.flags ≡ flags → e.dict ≡ [] → m e ≡ ok tt (record e { out = e.out ++ bs })

pub Emits-bind :
    (flags : ℕ) (m k : Encoding (Unit {0})) (bs cs : Bytes)
    → Emits flags m bs
    → Emits flags k cs
    → Emits flags (m >> k) (bs ++ cs)
Emits-bind flags m k bs cs hm hk e hf hd =
    rw (hm e hf hd, hk (record e { out = e.out ++ bs }) hf hd, append_assoc) refl

pub Emits-nothing : (flags : ℕ) → Emits flags (λ e. ok tt e) []
Emits-nothing flags e hf hd = ap (λ o. ok tt (record e { out = o })) (sym (append-nil e.out))
