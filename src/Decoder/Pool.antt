-- ===== src/Decoder/Pool.antt =====
-- pkg/msgpack/decode.go: what a decoder brings along from the pool.
use msgpack.Prelude.{◌≡◌, ◌∙◌, sym, ap, refl, none, true}
use msgpack.Float.{Platform}
use msgpack.Decoder.Unmarshal.{Argument, decode, put_back, unmarshal}
use msgpack.Decoder.{
  Bytes, use_preallocated, Decoder, Source, nil_reader, len_reader, plain_reader, reset_reader,
  reset_dict, reset, new_decoder, put_decoder,
}

-- What a decoder that has been put into the pool is after a reset, where it does not record.
again_new :
    (r : Source) (d : Decoder)
    → d.recording ≡ none
    → reset r (put_decoder d) ≡ record (new_decoder r) { max_depth = d.max_depth }
unfolding reset reset_dict reset_reader new_decoder put_decoder
again_new nil_reader d h = rw h refl
again_new (len_reader bs) d h = rw h refl
again_new (plain_reader bs) d h = rw h refl

-- Of two decoders that have been put into the pool, neither of which records, Unmarshal does not
-- see how they were used before, but for the depth limit: whatever map decoder, dictionary, options,
-- struct tag, depth and input they were left with, with the same limit both give the same result and
-- the same decoder for the pool. And a decoder from the pool that is reset to a reader is a new
-- decoder on that reader, but for the depth limit, which Reset leaves as the last use set it.
pub reset-put_decoder :
    (cpu : Platform) (bs : Bytes) (v : Argument) (r : Source) (d d' : Decoder)
    → d.recording ≡ none
    → d'.recording ≡ none
    → d.max_depth ≡ d'.max_depth
    → (unmarshal cpu bs v (put_decoder d) ≡ unmarshal cpu bs v (put_decoder d'))
      × (reset r (put_decoder d) ≡ record (new_decoder r) { max_depth = d.max_depth })
unfolding unmarshal
reset-put_decoder cpu bs v r d d' h h' same = (
  ap (λ s. put_back cpu (decode cpu v (use_preallocated true s)))
      (again_new (len_reader bs) d h
        ∙ ap (λ n. record (new_decoder (len_reader bs)) { max_depth = n }) same
        ∙ sym (again_new (len_reader bs) d' h')),
  again_new r d h,
)
