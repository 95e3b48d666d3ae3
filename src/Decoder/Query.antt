-- ===== src/Decoder/Query.antt =====
-- pkg/msgpack/decode_query.go: the values at a path of map keys and array indices, such as
-- `key1.0.key2`, where `*` stands for each index.
use msgpack.Prelude.{
  ℕ, zero, suc, ◌+◌, ◌-◌, ◌*◌, ◌^◌, ◌==◌, ◌&&◌, ◌||◌, leb, ltb, Bool, true, false, List, [], ◌∷◌,
  ◌++◌, length, Option, none, some, if◌then◌else◌,
}
use msgpack.Prelude.Int.{ℤ, pos, negsuc}
use msgpack.Outcome.{Error, stuck, ◌>>=◌, ◌>>◌, pure, fail, times}
use msgpack.Wire.Code.{
  is_fixed_map, is_fixed_array, map16_code, map32_code, array16_code, array32_code,
}
use msgpack.Dynamic.{Value}
use msgpack.Encoder.Intern.{same}
use msgpack.Decoder.{Decoding, Bytes}
use msgpack.Decoder.Read.{peek_code}
use msgpack.Decoder.Length.{decode_array_len}
use msgpack.Decoder.Ext.{decode_map_len}
use msgpack.Decoder.Intern.{decode_string_temp}
use msgpack.Decoder.Skip.{skip}
use msgpack.Decoder.Dynamic.{Setup, decode_interface_cond}

pub record QueryResult : Type 0 where
  pub query_left : Bytes
  pub key : Bytes
  pub values : List Value
  pub has_asterisk : Bool

-- What stands before and after the first dot.
unfoldable pub split_dot : Bytes → Bytes × Bytes
split_dot [] = ([], [])
split_dot (c ∷ s) = let parts = split_dot s in if c == 46 then ([], s) else (c ∷ parts.0, parts.1)

unfoldable pub next_key : QueryResult → QueryResult
unfolding split_dot
next_key q = record q { query_left = (split_dot q.query_left).1; key = (split_dot q.query_left).0 }

-- strconv.Atoi
abbrev pub digits : Bytes → ℕ → Option ℕ
digits [] n = some n
digits (c ∷ s) n =
    let rest = digits s (n * 10 + (c - 48)) in if leb 48 c && leb c 57 then rest else none

abbrev pub unsigned : Bytes → Option ℕ
unsigned [] = none
unsigned (c ∷ s) = digits (c ∷ s) 0

abbrev pub non_negative : Option ℕ → Option ℤ
non_negative none = none
non_negative (some n) = if ltb n (2 ^ 63) then some (pos n) else none

abbrev pub non_positive : Option ℕ → Option ℤ
non_positive none = none
non_positive (some zero) = some (pos 0)
non_positive (some (suc n)) = if ltb n (2 ^ 63) then some (negsuc n) else none

unfoldable pub atoi : Bytes → Option ℤ
atoi [] = none
atoi (c ∷ s) =
    if c == 45
    then non_positive (unsigned s)
    else if c == 43
    then non_negative (unsigned s)
    else non_negative (unsigned (c ∷ s))

-- `i == ind`
abbrev pub is_index : ℕ → ℤ → Bool
is_index i (pos n) = i == n
is_index i (negsuc n) = false

unfoldable pub skip_next : ℕ → Decoding (Unit {0})
skip_next n = times n skip

-- After the wanted element, the `n` values behind it are passed over for the sake of `*`.
abbrev pub finish : ℕ → QueryResult → Decoding QueryResult
finish n q = if q.has_asterisk then (do skip_next n; pure q) else pure q

-- A recursive call of `query` is the argument `again`.
abbrev pub found : (QueryResult → Decoding QueryResult) → ℕ → QueryResult → Decoding QueryResult
found again n q = do q' ← again q; finish n q'

-- The loop over the entries, `n` of which are left.
unfoldable pub find_key :
    (QueryResult → Decoding QueryResult) → ℕ → QueryResult → Decoding QueryResult
unfolding same
find_key again zero q = pure q
find_key again (suc n) q = do
  key ← decode_string_temp
  if same key q.key then found again (n * 2) q else (do skip; find_key again n q)

abbrev pub map_key : (QueryResult → Decoding QueryResult) → QueryResult → ℤ → Decoding QueryResult
map_key again q (negsuc n) = pure q
map_key again q (pos n) = find_key again n q

unfoldable pub query_map_key :
    (QueryResult → Decoding QueryResult) → QueryResult → Decoding QueryResult
query_map_key again q = do n ← decode_map_len; map_key again q n

-- The same query for each of `n` elements.
unfoldable pub query_each :
    (QueryResult → Decoding QueryResult) → Bytes → ℕ → QueryResult → Decoding QueryResult
query_each again query zero q = pure q
query_each again query (suc n) q = do
  q' ← again (record q { query_left = query })
  query_each again query n q'

-- The loop over the elements, at index `i`, with `n` left.
unfoldable pub find_index :
    (QueryResult → Decoding QueryResult) → ℤ → ℕ → ℕ → QueryResult → Decoding QueryResult
find_index again ind i zero q = pure q
find_index again ind i (suc n) q =
    if is_index i ind then found again n q else (do skip; find_index again ind (suc i) n q)

abbrev pub at_index :
    (QueryResult → Decoding QueryResult) → ℕ → QueryResult → Option ℤ → Decoding QueryResult
at_index again n q none = fail (Error.invalid_index q.key)
at_index again n q (some ind) = find_index again ind 0 n q

abbrev pub array_index :
    (QueryResult → Decoding QueryResult) → QueryResult → ℤ → Decoding QueryResult
array_index again q (negsuc n) = pure q
array_index again q (pos n) =
    if same q.key (42 ∷ [])
    then (do
      q' ← query_each again q.query_left n (record q { has_asterisk = true })
      pure (record q' { has_asterisk = false }))
    else at_index again n q (atoi q.key)

unfoldable pub query_array_index :
    (QueryResult → Decoding QueryResult) → QueryResult → Decoding QueryResult
unfolding atoi same
query_array_index again q = do n ← decode_array_len; array_index again q n

unfoldable pub query_by_code :
    (QueryResult → Decoding QueryResult) → QueryResult → ℕ → Decoding QueryResult
query_by_code again q c =
    if c == map16_code || c == map32_code || is_fixed_map c
    then query_map_key again q
    else if c == array16_code || c == array32_code || is_fixed_array c
    then query_array_index again q
    else fail (Error.unsupported_query c q.key)

module _ (setup : Setup) where
  abbrev pub query_key : (QueryResult → Decoding QueryResult) → QueryResult → Decoding QueryResult
  query_key again q =
      if leb (length q.key) 0
      then (do v ← decode_interface_cond setup; pure (record q { values = q.values ++ v ∷ [] }))
      else (do c ← peek_code; query_by_code again q c)

  -- The method `query`; each key takes one unit of fuel.
  unfoldable pub query_fuel : ℕ → QueryResult → Decoding QueryResult
  query_fuel zero q d = stuck
  query_fuel (suc fuel) q d = query_key (query_fuel fuel) (next_key q) d

  -- A key that is not empty takes at least one byte of the query, so a fuel of one more than its
  -- length is enough.
  unfoldable pub query : Bytes → Decoding (List Value)
  query s = do
    q ←
        query_fuel (suc (length s))
          (record { query_left = s; key = []; values = []; has_asterisk = false })
    pure q.values
