-- ===== src/Runner/Capture/View.antt =====
-- What a capture of src/e2h/runner.py holds of the bytes that it was fed, however they were cut
-- into chunks: the first ones and the last ones.
use e2h.Prelude.{
  ℕ, zero, suc, ◌+◌, ◌-◌, ◌*◌, ◌/◌, ◌≤◌, ◌<◌, ◌≡◌, refl, sym, ap, ◌∙◌, List, [], ◌∷◌, ◌++◌, ltb,
  eqb, length, take, drop, length-append, length-take, length-drop, append-nil, append_assoc, arith,
  Bool-cases, inl, inr, min,
}
use e2h.Runner.Capture.{BoundedCapture, new_capture, feed, feed_tail, feed_all, last_n}

module _ {A : Type 0} where
  pub take_all : (n : ℕ) (xs : List A) → length xs ≤ n → take n xs ≡ xs
  take_all zero [] h = refl
  take_all zero (x ∷ xs) h = absurd (omega arith)
  take_all (suc n) [] h = refl
  take_all (suc n) (x ∷ xs) h = ap (λ t. x ∷ t) (take_all n xs (omega arith))

  pub drop_all : (n : ℕ) (xs : List A) → length xs ≤ n → drop n xs ≡ []
  drop_all zero [] h = refl
  drop_all zero (x ∷ xs) h = absurd (omega arith)
  drop_all (suc n) [] h = refl
  drop_all (suc n) (x ∷ xs) h = drop_all n xs (omega arith)

  take_within : (n m : ℕ) (xs ys : List A) → n ≡ length xs + m → take n (xs ++ ys) ≡ xs ++ take m ys
  take_within n m [] ys e = ap (λ k. take k ys) (omega arith)
  take_within zero m (x ∷ xs) ys e = absurd (omega arith)
  take_within (suc n) m (x ∷ xs) ys e = ap (λ t. x ∷ t) (take_within n m xs ys (omega arith))

  take_beyond : (n : ℕ) (xs ys : List A) → n ≤ length xs → take n (xs ++ ys) ≡ take n xs
  take_beyond zero xs ys h = refl
  take_beyond (suc n) [] ys h = absurd (omega arith)
  take_beyond (suc n) (x ∷ xs) ys h = ap (λ t. x ∷ t) (take_beyond n xs ys (omega arith))

  drop_within : (n m : ℕ) (xs ys : List A) → n ≡ length xs + m → drop n (xs ++ ys) ≡ drop m ys
  drop_within n m [] ys e = ap (λ k. drop k ys) (omega arith)
  drop_within zero m (x ∷ xs) ys e = absurd (omega arith)
  drop_within (suc n) m (x ∷ xs) ys e = drop_within n m xs ys (omega arith)

  drop_beyond : (n : ℕ) (xs ys : List A) → n ≤ length xs → drop n (xs ++ ys) ≡ drop n xs ++ ys
  drop_beyond zero xs ys h = refl
  drop_beyond (suc n) [] ys h = absurd (omega arith)
  drop_beyond (suc n) (x ∷ xs) ys h = drop_beyond n xs ys (omega arith)

  drop-drop : (a b c : ℕ) (xs : List A) → c ≡ b + a → drop a (drop b xs) ≡ drop c xs
  drop-drop a zero c xs e = ap (λ k. drop k xs) (omega arith)
  drop-drop a (suc b) c [] e = drop_all a [] (omega arith) ∙ sym (drop_all c [] (omega arith))
  drop-drop a (suc b) zero (x ∷ xs) e = absurd (omega arith)
  drop-drop a (suc b) (suc c) (x ∷ xs) e = drop-drop a b c xs (omega arith)

-- The end of a text that grows needs only the end that was kept.
last_n-append : (n : ℕ) (xs ys : List ℕ) → last_n n (last_n n xs ++ ys) ≡ last_n n (xs ++ ys)
last_n-append n xs ys =
    let dropped = length xs - n in
    let kept = last_n n xs in
    sym (ap (last_n n) (drop_beyond dropped xs ys (omega arith)))
    ∙ drop-drop (length (drop dropped (xs ++ ys)) - n) dropped (length (xs ++ ys) - n) (xs ++ ys)
        (omega (arith, length-drop dropped (xs ++ ys), length-append xs ys))

last_none : (n : ℕ) (xs : List ℕ) → n ≡ 0 → last_n n xs ≡ []
last_none n xs e = drop_all (length xs - n) xs (omega arith)

-- Half of the byte budget is for the start of the output, the rest for its end.
abbrev pub head_budget : ℕ → ℕ
head_budget limit = limit * 4 / 2

abbrev pub tail_budget : ℕ → ℕ
tail_budget limit = limit * 4 - limit * 4 / 2

-- The capture holds what its bytes determine, under the limits of its construction.
pub record Views (limit : ℕ) (c : BoundedCapture) (bytes : List ℕ) : Type 0 where
  pub char_limit : c.char_limit ≡ limit
  pub byte_limit : c.byte_limit ≡ limit * 4
  pub head_limit : c.head_limit ≡ head_budget limit
  pub tail_limit : c.tail_limit ≡ tail_budget limit
  pub head : c.head ≡ take (head_budget limit) bytes
  pub tail : c.tail ≡ last_n (tail_budget limit) (drop (head_budget limit) bytes)
  pub total : c.total_bytes ≡ length bytes

pub new_capture-Views : (limit : ℕ) → Views limit (new_capture limit) []
unfolding new_capture
new_capture-Views limit = record {
  char_limit = refl;
  byte_limit = refl;
  head_limit = refl;
  tail_limit = refl;
  head = sym (take_all (head_budget limit) [] (omega arith));
  tail = sym (
      ap (last_n (tail_budget limit)) (drop_all (head_budget limit) [] (omega arith))
      ∙ drop_all (0 - tail_budget limit) [] (omega arith));
  total = refl;
}

feed_tail-tail :
    (c : BoundedCapture) (chunk xs : List ℕ)
    → c.tail ≡ last_n c.tail_limit xs
    → (feed_tail c chunk).tail ≡ last_n c.tail_limit (xs ++ chunk)
unfolding feed_tail
feed_tail-tail c [] xs h = h ∙ ap (last_n c.tail_limit) (sym (append-nil xs))
feed_tail-tail c (b ∷ chunk) xs h = elim (Bool-cases (eqb c.tail_limit 0)) [
  | inl none_kept ↦ rw none_kept (
      let e : c.tail_limit ≡ 0 = ground arith in
      h ∙ last_none c.tail_limit xs e ∙ sym (last_none c.tail_limit (xs ++ b ∷ chunk) e))
  | inr some_kept ↦
      rw some_kept (
        ap (λ t. last_n c.tail_limit (t ++ b ∷ chunk)) h
        ∙ last_n-append c.tail_limit xs (b ∷ chunk))
]

-- All but the tail stays.
feed_tail-rest :
    (c : BoundedCapture) (chunk : List ℕ)
    → (d : List ℕ) × (feed_tail c chunk ≡ record c { tail = d })
unfolding feed_tail
feed_tail-rest c [] = (c.tail, refl)
feed_tail-rest c (b ∷ chunk) = elim (Bool-cases (eqb c.tail_limit 0)) [
  | inl none_kept ↦ (c.tail, rw none_kept)
  | inr some_kept ↦
      (drop (length (c.tail ++ b ∷ chunk) - c.tail_limit) (c.tail ++ b ∷ chunk), rw some_kept)
]

feed_tail-Views :
    (limit : ℕ) (c : BoundedCapture) (chunk xs bytes : List ℕ)
    → (c.char_limit ≡ limit)
      × (c.byte_limit ≡ limit * 4)
      × (c.head_limit ≡ head_budget limit)
      × (c.tail_limit ≡ tail_budget limit)
    → c.head ≡ take (head_budget limit) bytes
    → c.tail ≡ last_n (tail_budget limit) xs
    → xs ++ chunk ≡ drop (head_budget limit) bytes
    → c.total_bytes ≡ length bytes
    → Views limit (feed_tail c chunk) bytes
feed_tail-Views limit c chunk xs bytes (cl, bl, hl, tl) h t e n =
    let (d, same) = feed_tail-rest c chunk in
    record {
      char_limit = ap (λ x. x.char_limit) same ∙ cl;
      byte_limit = ap (λ x. x.byte_limit) same ∙ bl;
      head_limit = ap (λ x. x.head_limit) same ∙ hl;
      tail_limit = ap (λ x. x.tail_limit) same ∙ tl;
      head = ap (λ x. x.head) same ∙ h;
      tail =
          feed_tail-tail c chunk xs (t ∙ ap (λ k. last_n k xs) (sym tl))
          ∙ ap (λ k. last_n k (xs ++ chunk)) tl
          ∙ ap (last_n (tail_budget limit)) e;
      total = ap (λ x. x.total_bytes) same ∙ n;
    }

-- One more chunk is seen as if its bytes had come with the others.
pub feed-Views :
    (limit : ℕ) (c : BoundedCapture) (bytes chunk : List ℕ)
    → Views limit c bytes
    → Views limit (feed c chunk) (bytes ++ chunk)
unfolding feed
feed-Views limit c bytes chunk v =
    let counted = record c { total_bytes = c.total_bytes + length chunk } in
    let room = c.head_limit - length c.head in
    let H = head_budget limit in
    let total : c.total_bytes + length chunk ≡ length (bytes ++ chunk) =
      omega (arith, v.total, length-append bytes chunk) in
    let held : length c.head ≡ min H (length bytes) = ap length v.head ∙ length-take H bytes in
    elim (Bool-cases (ltb (length c.head) c.head_limit)) [
      | inl room_left ↦ rw room_left (
          let short : length bytes < H = ground (arith, held, v.head_limit) in
          feed_tail-Views limit (record counted { head = c.head ++ take room chunk })
            (drop room chunk) [] (bytes ++ chunk)
            (v.char_limit, v.byte_limit, v.head_limit, v.tail_limit)
            (ap (λ t. t ++ take room chunk) (v.head ∙ take_all H bytes (omega arith))
              ∙ sym (take_within H room bytes chunk (omega (arith, held, v.head_limit))))
            (v.tail ∙ ap (last_n (tail_budget limit)) (drop_all H bytes (omega arith)))
            (sym (drop_within H room bytes chunk (omega (arith, held, v.head_limit)))) total)
      | inr full ↦ rw full (
          let long : H ≤ length bytes = ground (arith, held, v.head_limit) in
          feed_tail-Views limit counted chunk (drop H bytes) (bytes ++ chunk)
            (v.char_limit, v.byte_limit, v.head_limit, v.tail_limit)
            (v.head ∙ sym (take_beyond H bytes chunk long)) v.tail
            (sym (drop_beyond H bytes chunk long)) total)
    ]

-- `b"".join(chunks)`
abbrev pub concat : List (List ℕ) → List ℕ
concat [] = []
concat (chunk ∷ chunks) = chunk ++ concat chunks

feed_all-from :
    (limit : ℕ) (chunks : List (List ℕ)) (c : BoundedCapture) (bytes : List ℕ)
    → Views limit c bytes
    → Views limit (feed_all c chunks) (bytes ++ concat chunks)
unfolding feed_all
feed_all-from limit [] c bytes v = rw (append-nil) v
feed_all-from limit (chunk ∷ chunks) c bytes v =
    rw (← append_assoc) (
      feed_all-from limit chunks (feed c chunk) (bytes ++ chunk) (feed-Views limit c bytes chunk v))

-- However the output is cut into chunks, the capture keeps its first bytes up to half of the
-- budget, the last bytes of the rest up to the other half, and the number of all bytes.
pub feed_all-Views :
    (limit : ℕ) (chunks : List (List ℕ))
    → Views limit (feed_all (new_capture limit) chunks) (concat chunks)
feed_all-Views limit chunks =
    feed_all-from limit chunks (new_capture limit) [] (new_capture-Views limit)
