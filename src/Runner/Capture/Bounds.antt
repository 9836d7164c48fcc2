-- ===== src/Runner/Capture/Bounds.antt =====
-- The text that a capture of src/e2h/runner.py reports, and its flag.
use e2h.Prelude.{
  ℕ, ◌+◌, ◌-◌, ◌*◌, ◌/◌, ◌≤◌, ◌≡◌, ap, ◌∙◌, List, [], ◌++◌, ltb, leb, eqb, length, take, drop,
  length-append, length-take, length-drop, take-append-drop, arith, if◌then◌else◌, Bool-cases, inl,
  inr,
}
use e2h.Runner.Capture.{
  BoundedCapture, new_capture, feed_all, last_n, output_marker, join_truncated, truncate, render,
}
use e2h.Runner.Capture.View.{head_budget, tail_budget, Views, concat, feed_all-Views}

length-last_n-le : (n : ℕ) (xs : List ℕ) → length (last_n n xs) ≤ n
length-last_n-le n xs = omega (arith, length-drop (length xs - n) xs)

join_truncated-le :
    (head tail : List ℕ) (limit : ℕ)
    → length output_marker ≤ limit
    → length (join_truncated head tail limit).0 ≤ limit
unfolding join_truncated
join_truncated-le head tail limit h =
    let remaining = limit - length output_marker in
    let tail_chars = remaining - remaining / 2 in
    let suffix = if eqb tail_chars 0 then [] else last_n tail_chars tail in
    let short : length suffix ≤ tail_chars = ground (arith, length-last_n-le tail_chars tail) in
    omega (
      arith,
      short,
      length-append (take (remaining / 2) head) (output_marker ++ suffix),
      length-append output_marker suffix,
      length-take (remaining / 2) head,
    )

truncate-le :
    (value : List ℕ) (limit : ℕ)
    → length output_marker ≤ limit
    → length (truncate value limit).0 ≤ limit
unfolding truncate
truncate-le value limit h = elim (Bool-cases (leb (length value) limit)) [
  | inl fits ↦ rw fits (ground arith)
  | inr over ↦ rw over (join_truncated-le value value limit h)
]

truncate_flag : (value : List ℕ) (limit : ℕ) → (truncate value limit).1 ≡ ltb limit (length value)
unfolding truncate
truncate_flag value limit = ground arith

truncate_short :
    (value : List ℕ) (limit : ℕ) → length value ≤ limit → (truncate value limit).0 ≡ value
unfolding truncate
truncate_short value limit h = ground arith

module _ (decode : List ℕ → List ℕ) where
  -- If the limit has room for the marker, the reported text is no longer than the limit.
  pub length-render-le :
      (c : BoundedCapture)
      → length output_marker ≤ c.char_limit
      → length (render decode c).0 ≤ c.char_limit
  unfolding render
  length-render-le c h = elim (Bool-cases (leb c.total_bytes c.byte_limit)) [
    | inl fits ↦ rw fits (truncate-le (decode (c.head ++ c.tail)) c.char_limit h)
    | inr over ↦ rw over (join_truncated-le (decode c.head) (decode c.tail) c.char_limit h)
  ]

  -- Within the byte budget nothing is lost.
  Views-whole :
      (limit : ℕ) (c : BoundedCapture) (bytes : List ℕ)
      → Views limit c bytes
      → length bytes ≤ limit * 4
      → c.head ++ c.tail ≡ bytes
  Views-whole limit c bytes v h =
      let rest = drop (head_budget limit) bytes in
      let kept : length rest ≤ tail_budget limit =
        omega (arith, length-drop (head_budget limit) bytes) in
      let none_dropped : length rest - tail_budget limit ≡ 0 = omega (arith, kept) in
      let all_kept : last_n (tail_budget limit) rest ≡ rest = ap (λ k. drop k rest) none_dropped in
      ap (λ l. l ++ c.tail) v.head
      ∙ ap (λ l. take (head_budget limit) bytes ++ l) (v.tail ∙ all_kept)
      ∙ take-append-drop (head_budget limit) bytes

  module _ (shrinks : (bytes : List ℕ) → length bytes ≤ 4 * length (decode bytes)) where
    -- The flag is set exactly when the decoded output has more characters than the limit.
    render_flag :
        (limit : ℕ) (c : BoundedCapture) (bytes : List ℕ)
        → Views limit c bytes
        → (render decode c).1 ≡ ltb limit (length (decode bytes))
    unfolding render join_truncated
    render_flag limit c bytes v = elim (Bool-cases (leb c.total_bytes c.byte_limit)) [
      | inl fits ↦
          rw
            (
              fits,
              Views-whole limit c bytes v (ground (arith, v.total, v.byte_limit)),
              v.char_limit,
            )
            (truncate_flag (decode bytes) limit)
      | inr over ↦ rw over (ground (arith, v.total, v.byte_limit, shrinks bytes))
    ]

    render_short :
        (limit : ℕ) (c : BoundedCapture) (bytes : List ℕ)
        → Views limit c bytes
        → length (decode bytes) ≤ limit
        → (render decode c).0 ≡ decode bytes
    unfolding render
    render_short limit c bytes v h = elim (Bool-cases (leb c.total_bytes c.byte_limit)) [
      | inl fits ↦
          rw
            (
              fits,
              Views-whole limit c bytes v (ground (arith, v.total, v.byte_limit)),
              v.char_limit,
            )
            (truncate_short (decode bytes) limit h)
      | inr over ↦ absurd (ground (arith, v.total, v.byte_limit, shrinks bytes))
    ]

    -- For a decoder that reads at most four bytes for each character: however the output is cut
    -- into chunks, the report is flagged as truncated exactly when the decoded output has more
    -- characters than the limit, and is the decoded output when it has not.
    pub capture_exact :
        (limit : ℕ) (chunks : List (List ℕ))
        → ((render decode (feed_all (new_capture limit) chunks)).1
            ≡ ltb limit (length (decode (concat chunks))))
          × (length (decode (concat chunks)) ≤ limit
              → (render decode (feed_all (new_capture limit) chunks)).0 ≡ decode (concat chunks))
    capture_exact limit chunks =
        let v = feed_all-Views limit chunks in (render_flag limit _ _ v, render_short limit _ _ v)

-- However much is fed, the capture holds at most four bytes for each character of the limit.
pub retained_le :
    (limit : ℕ) (chunks : List (List ℕ))
    → length (feed_all (new_capture limit) chunks).head
        + length (feed_all (new_capture limit) chunks).tail
      ≤ limit * 4
retained_le limit chunks =
    let v = feed_all-Views limit chunks in
    let bytes = concat chunks in
    omega (
      arith,
      ap length v.head,
      ap length v.tail,
      length-take (head_budget limit) bytes,
      length-last_n-le (tail_budget limit) (drop (head_budget limit) bytes),
    )
