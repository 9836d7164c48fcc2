-- ===== src/Tests/Captures.antt =====
-- Captures of short outputs.
use e2h.Prelude.{ℕ, ◌+◌, ◌*◌, ◌≤◌, ◌≡◌, List, [], ◌∷◌, ltb, length, arith, codes}
use e2h.Runner.Capture.{new_capture, feed_all, render}
use e2h.Runner.Capture.View.{Views, concat, feed_all-Views}
use e2h.Runner.Capture.Bounds.{length-render-le, capture_exact, retained_le}
use e2h.Tests.Samples.{bytes_as_characters}

abbrev two_chunks : List (List ℕ)
two_chunks = codes "building" ∷ codes " done" ∷ []

feed_all-Views_example : Views 2 (feed_all (new_capture 2) two_chunks) (concat two_chunks)
feed_all-Views_example = feed_all-Views 2 two_chunks

length-render-le_example :
    length (render bytes_as_characters (feed_all (new_capture 40) two_chunks)).0 ≤ 40
unfolding feed_all new_capture
length-render-le_example =
    length-render-le bytes_as_characters (feed_all (new_capture 40) two_chunks) (omega arith)

capture_exact_example :
    ((render bytes_as_characters (feed_all (new_capture 2) two_chunks)).1
      ≡ ltb 2 (length (concat two_chunks)))
    × (length (concat two_chunks) ≤ 2
        → (render bytes_as_characters (feed_all (new_capture 2) two_chunks)).0 ≡ concat two_chunks)
capture_exact_example = capture_exact bytes_as_characters (λ bytes. omega arith) 2 two_chunks

retained_le_example :
    length (feed_all (new_capture 1) two_chunks).head
      + length (feed_all (new_capture 1) two_chunks).tail
    ≤ 1 * 4
retained_le_example = retained_le 1 two_chunks
