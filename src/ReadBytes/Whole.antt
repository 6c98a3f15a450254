-- ===== src/ReadBytes/Whole.antt =====
-- Nothing is lost, whatever the segments and interruptions.
use ece.Prelude.{
  length-drop, ◌%◌, take-drop, ◌^◌, length-take, some, add32, ltb, ◌≤◌, inl, inr, take_past,
  drop_past, ltb→lt, ltb→ge, Bool-cases, append_assoc, length-append, drop-append, append-nil, ◌∙◌,
  take-append, ap, sym, take, arith, take, ◌-◌, take, refl, length, ◌<◌, take, [], ◌∷◌, List, suc,
  zero, drop, [], take, ◌≡◌, ◌++◌, Bytes, List, ℕ,
}
use ece.ReadBytes.{
  Received, Received, leave, Arrival, Result, Read, read_loop, readnbytes, receive, receive_step,
}

-- All bytes that come.
unfoldable pub stream : List Arrival → Bytes
stream [] = []
stream (Arrival.segment b bs ∷ arrivals) = b ∷ bs ++ stream arrivals
stream (Arrival.interrupted ∷ arrivals) = stream arrivals
stream (Arrival.failed ∷ arrivals) = stream arrivals

-- No `read` fails, but for interruptions.
abbrev pub Sound : List Arrival → Type 0
Sound [] = Unit
Sound (Arrival.segment b bs ∷ arrivals) = Sound arrivals
Sound (Arrival.interrupted ∷ arrivals) = Sound arrivals
Sound (Arrival.failed ∷ arrivals) = ⊥

abbrev pub ReadsOn : ℕ → Bytes → List Arrival → Read → Type 0
ReadsOn left buffer arrivals r =
    (r.buffer ≡ buffer ++ take left (stream arrivals))
    × (stream r.rest ≡ drop left (stream arrivals))
    × Sound r.rest

stream-leave :
    (bs : Bytes) (arrivals : List Arrival) → stream (leave bs arrivals) ≡ bs ++ stream arrivals
unfolding stream
stream-leave [] arrivals = refl
stream-leave (b ∷ bs) arrivals = refl

leave-Sound : (bs : Bytes) (arrivals : List Arrival) → Sound arrivals → Sound (leave bs arrivals)
leave-Sound [] arrivals h = h
leave-Sound (b ∷ bs) arrivals h = h

-- A segment that is longer than what is asked for.
segment_cut :
    (left : ℕ) (x buffer : Bytes) (arrivals : List Arrival)
    → left < length x
    → Sound arrivals
    → (buffer ++ take left x ≡ buffer ++ take left (x ++ stream arrivals))
      × (stream (leave (drop left x) arrivals) ≡ drop left (x ++ stream arrivals))
      × Sound (leave (drop left x) arrivals)
segment_cut left x buffer arrivals long h =
    let none_left : left - length x ≡ 0 = omega arith in
    (
      ap (λ l. buffer ++ l)
          (sym (take-append left x (stream arrivals) ∙ rw none_left (append-nil (take left x)))),
      stream-leave (drop left x) arrivals
          ∙ sym (rw (drop-append left x (stream arrivals), none_left) refl),
      leave-Sound (drop left x) arrivals h,
    )

-- The rest of the loop behind a segment that was taken whole.
segment_whole :
    (left : ℕ) (x buffer : Bytes) (arrivals : List Arrival) (r : Read)
    → length x ≤ left
    → ReadsOn (left - length x) (buffer ++ x) arrivals r
    → (r.buffer ≡ buffer ++ take left (x ++ stream arrivals))
      × (stream r.rest ≡ drop left (x ++ stream arrivals))
      × Sound r.rest
segment_whole left x buffer arrivals r fits h = (
  rw (take_past left x (stream arrivals) fits) (h.0 ∙ append_assoc buffer x _),
  rw (drop_past left x (stream arrivals) fits) h.1,
  h.2,
)

read_loop-ReadsOn :
    (n left : ℕ) (buffer : Bytes) (arrivals : List Arrival)
    → left ≤ n
    → Sound arrivals
    → ReadsOn left buffer arrivals (read_loop n left buffer arrivals)
      × ((read_loop n left buffer arrivals).result
          ≡ Result.returned (n - (left - length (stream arrivals))))
unfolding read_loop stream
read_loop-ReadsOn n zero buffer arrivals le h =
    ((sym (append-nil buffer), refl, h), ap Result.returned (omega arith))
read_loop-ReadsOn n (suc left) buffer [] le h =
    ((sym (append-nil buffer), refl, h), ap Result.returned (omega arith))
read_loop-ReadsOn n (suc left) buffer (Arrival.interrupted ∷ arrivals) le h =
    read_loop-ReadsOn n (suc left) buffer arrivals le h
read_loop-ReadsOn n (suc left) buffer (Arrival.failed ∷ arrivals) le h = absurd h
read_loop-ReadsOn n (suc left) buffer (Arrival.segment b bs ∷ arrivals) le h =
    let x = b ∷ bs in
    let joined = length-append x (stream arrivals) in
    elim (Bool-cases (ltb (suc left) (length x))) [
      | inl e ↦
          let long : suc left < length x = ltb→lt (suc left) (length x) e in
          rw e (segment_cut (suc left) x buffer arrivals long h, ap Result.returned (omega arith))
      | inr e ↦
          let fits : length x ≤ suc left = ltb→ge (suc left) (length x) e in
          let g =
            read_loop-ReadsOn n (suc left - length x) (buffer ++ x) arrivals (omega arith) h in
          rw e (
            segment_whole (suc left) x buffer arrivals
                (read_loop n (suc left - length x) (buffer ++ x) arrivals) fits g.0,
            g.1 ∙ ap Result.returned (omega arith),
          )
    ]

-- If no `read` fails, `readnbytes` returns the number of bytes asked for, or of all that come if these
-- are fewer, with the first so many bytes in the buffer and the others still to come.
pub readnbytes-take :
    (n : ℕ) (arrivals : List Arrival)
    → Sound arrivals
    → ((readnbytes n arrivals).result ≡ Result.returned (length (take n (stream arrivals))))
      × ((readnbytes n arrivals).buffer ≡ take n (stream arrivals))
      × (stream (readnbytes n arrivals).rest ≡ drop n (stream arrivals))
unfolding readnbytes
readnbytes-take n arrivals h =
    let g = read_loop-ReadsOn n n [] arrivals (omega arith) h in
    (g.1 ∙ ap Result.returned (omega (arith, length-take n (stream arrivals))), g.0.0, g.0.1)

readnbytes-Sound :
    (n : ℕ) (arrivals : List Arrival) → Sound arrivals → Sound (readnbytes n arrivals).rest
unfolding readnbytes
readnbytes-Sound n arrivals h = (read_loop-ReadsOn n n [] arrivals (omega arith) h).0.2

-- One round of the loop of `main`; `next` is the rest of it.
step_end :
    (next : Bytes → ℕ → List Arrival → Received) (file : Bytes) (total : ℕ) (r : Read)
    → r.result ≡ Result.returned 0
    → receive_step next file total r ≡ some (file, total)
unfolding receive_step
step_end next file total r e = rw (e, receive_step) refl

step_more :
    (next : Bytes → ℕ → List Arrival → Received) (file : Bytes) (total : ℕ) (r : Read) (c : ℕ)
    (x : Bytes)
    → r.result ≡ Result.returned (length (c ∷ x))
    → r.buffer ≡ c ∷ x
    → receive_step next file total r ≡ next (file ++ (c ∷ x)) (add32 total (length (c ∷ x))) r.rest
unfolding receive_step
step_more next file total r c x e f = rw (e, f, receive_step) refl

receive-stream :
    (fuel : ℕ) (s file : Bytes) (total : ℕ) (arrivals : List Arrival)
    → stream arrivals ≡ s
    → Sound arrivals
    → total < 2 ^ 32
    → length s < fuel
    → receive fuel file total arrivals ≡ some (file ++ s, add32 total (length s))
unfolding receive
receive-stream zero s file total arrivals e h small enough = ground arith
receive-stream (suc fuel) [] file total arrivals e h small enough =
    step_end (receive fuel) file total (readnbytes 1024 arrivals)
      (rw e at ((readnbytes-take 1024 arrivals h).0))
    ∙ rw (append-nil file) (ap (λ n. some (file, n)) (omega arith))
receive-stream (suc fuel) (c ∷ s) file total arrivals e h small enough =
    let r = readnbytes 1024 arrivals in
    let g = readnbytes-take 1024 arrivals h in
    let x = take 1024 (c ∷ s) in
    let y = drop 1024 (c ∷ s) in
    let whole : x ++ y ≡ c ∷ s = take-drop 1024 (c ∷ s) in
    step_more (receive fuel) file total r c (take 1023 s) (rw e at g.0) (rw e at g.1)
    ∙ receive-stream fuel y (file ++ x) (add32 total (length x)) r.rest (rw e at (g.2))
        (readnbytes-Sound 1024 arrivals h) (omega arith) (omega (arith, length-drop 1023 s))
    ∙ rw (append_assoc file x y, whole)
        (ap (λ n. some (file ++ (c ∷ s), n)) (omega (arith, length-append x y, ap length whole)))

-- If no `read` fails, the loop of `main` ends, in fewer rounds than one more than there are bytes; the
-- file then holds all bytes that came, in order, and `count` is their number in an `int`.
pub receive-file :
    (fuel : ℕ) (arrivals : List Arrival)
    → Sound arrivals
    → length (stream arrivals) < fuel
    → receive fuel [] 0 arrivals ≡ some (stream arrivals, length (stream arrivals) % 2 ^ 32)
receive-file fuel arrivals h enough =
    receive-stream fuel (stream arrivals) [] 0 arrivals refl h (omega arith) enough
    ∙ ap (λ total. some (stream arrivals, total)) (omega arith)
