-- ===== src/Runner/Capture.antt =====
-- `_BoundedCapture`, `_join_truncated`, `_truncate` and the loop of `_drain_stream` of
-- src/e2h/runner.py. Bytes and characters are numbers.
pub mod View
pub mod Bounds
use e2h.Prelude.{
  ℕ, zero, suc, ◌+◌, ◌-◌, ◌*◌, ◌/◌, ◌≤◌, Bool, true, false, String, Option, none, some, List, [],
  ◌∷◌, ◌++◌, ltb, leb, eqb, length, take, drop, if◌then◌else◌, codes,
}

-- `_OUTPUT_MARKER`
abbrev pub output_marker : List ℕ
output_marker = codes "\n... <output truncated> ...\n"

-- The limits are set by `__init__` and never change.
pub record BoundedCapture : Type 0 where
  pub char_limit : ℕ
  pub byte_limit : ℕ
  pub head_limit : ℕ
  pub tail_limit : ℕ
  pub head : List ℕ
  pub tail : List ℕ
  pub total_bytes : ℕ
  pub error : Option String

-- `__init__`
unfoldable pub new_capture : ℕ → BoundedCapture
new_capture char_limit = record {
  char_limit = char_limit;
  byte_limit = char_limit * 4;
  head_limit = char_limit * 4 / 2;
  tail_limit = char_limit * 4 - char_limit * 4 / 2;
  head = [];
  tail = [];
  total_bytes = 0;
  error = none;
}

abbrev pub retained_bytes : BoundedCapture → ℕ
retained_bytes c = length c.head + length c.tail

abbrev is_empty : List ℕ → Bool
is_empty [] = true
is_empty (x ∷ xs) = false

-- The second half of `feed`: what the head has no room for goes to the tail, which keeps its end.
unfoldable pub feed_tail : BoundedCapture → List ℕ → BoundedCapture
feed_tail c [] = c
feed_tail c (b ∷ chunk) =
    if eqb c.tail_limit 0
    then c
    else let tail = c.tail ++ (b ∷ chunk) in
      record c { tail = drop (length tail - c.tail_limit) tail }

-- `feed`
unfoldable pub feed : BoundedCapture → List ℕ → BoundedCapture
unfolding feed_tail
feed c chunk =
    let counted = record c { total_bytes = c.total_bytes + length chunk } in
    let room = c.head_limit - length c.head in
    if ltb (length c.head) c.head_limit
    then feed_tail (record counted { head = c.head ++ take room chunk }) (drop room chunk)
    else feed_tail counted chunk

-- The slice `text[-n:]` for `n` above zero.
abbrev pub last_n : ℕ → List ℕ → List ℕ
last_n n text = drop (length text - n) text

unfoldable pub join_truncated : List ℕ → List ℕ → ℕ → List ℕ × Bool
join_truncated head tail limit =
    let remaining = limit - length output_marker in
    let head_chars = remaining / 2 in
    let tail_chars = remaining - head_chars in
    let suffix = if eqb tail_chars 0 then [] else last_n tail_chars tail in
    (take head_chars head ++ (output_marker ++ suffix), true)

unfoldable pub truncate : List ℕ → ℕ → List ℕ × Bool
unfolding join_truncated
truncate value limit =
    if leb (length value) limit then (value, false) else join_truncated value value limit

-- `decode("utf-8", errors="replace")` is the standard library's.
module _ (decode : List ℕ → List ℕ) where
  unfoldable pub render : BoundedCapture → List ℕ × Bool
  unfolding truncate join_truncated
  render c =
      if leb c.total_bytes c.byte_limit
      then truncate (decode (c.head ++ c.tail)) c.char_limit
      else join_truncated (decode c.head) (decode c.tail) c.char_limit

-- What the stream gives to `_drain_stream`: chunks, then its end or an error of a read.
pub record Stream : Type 0 where
  pub chunks : List (List ℕ)
  pub read_error : Option String

unfoldable pub feed_all : BoundedCapture → List (List ℕ) → BoundedCapture
unfolding feed
feed_all c [] = c
feed_all c (chunk ∷ chunks) = feed_all (feed c chunk) chunks

unfoldable pub drain_stream : Stream → BoundedCapture → BoundedCapture
unfolding feed_all
drain_stream stream c =
    let fed = feed_all c stream.chunks in
    elim stream.read_error [ none ↦ fed | some message ↦ record fed { error = some message } ]
