-- ===== src/SharedMemory/Filled.antt =====
-- A segment that holds a text, with zeros behind it.
use ece.Prelude.{
  ℕ, zero, suc, ◌+◌, ◌-◌, ◌≡◌, ◌<◌, refl, ap, ◌∙◌, arith, some, [], ◌∷◌, ◌++◌, Bytes, length, take,
  drop, append-nil, length-append, take_past, drop_past,
}
use ece.CString.{c_string}
use ece.CString.Lines.Whole.{IsText}
use ece.SharedMemory.{shm_size, zeros, strlen, put_text}

-- The segment with the text `t`.
abbrev pub filled : Bytes → Bytes
filled t = t ++ zeros (shm_size - length t)

length-zeros : (n : ℕ) → length (zeros n) ≡ n
unfolding zeros
length-zeros zero = refl
length-zeros (suc n) = ap suc (length-zeros n)

drop-zeros : (m n : ℕ) → drop m (zeros n) ≡ zeros (n - m)
unfolding zeros
drop-zeros zero n = let e : n - 0 ≡ n = omega arith in rw e refl
drop-zeros (suc m) zero = let e : 0 - suc m ≡ 0 = omega arith in rw e refl
drop-zeros (suc m) (suc n) = let e : suc n - suc m ≡ n - m = omega arith in rw e (drop-zeros m n)

strlen-text : (t rest : Bytes) → IsText t → strlen (t ++ 0 ∷ rest) ≡ some (length t)
unfolding strlen
strlen-text [] rest h = refl
strlen-text (c ∷ t) rest h = ground (arith, strlen-text t rest h.1)

c_string-text_end : (t rest : Bytes) → IsText t → c_string (t ++ 0 ∷ rest) ≡ t
unfolding c_string
c_string-text_end [] rest h = refl
c_string-text_end (c ∷ t) rest h = ground (arith, c_string-text_end t rest h.1)

zeros-first : (n : ℕ) → 0 < n → zeros n ≡ 0 ∷ zeros (n - 1)
unfolding zeros
zeros-first zero h = absurd (omega arith)
zeros-first (suc n) h = let e : suc n - 1 ≡ n = omega arith in rw e refl

-- There is at least one zero.
filled-zero :
    (t : Bytes) → length t < shm_size → filled t ≡ t ++ 0 ∷ zeros (shm_size - length t - 1)
filled-zero t h = ap (λ z. t ++ z) (zeros-first (shm_size - length t) (omega arith))

pub strlen-filled :
    (t : Bytes) → IsText t → length t < shm_size → strlen (filled t) ≡ some (length t)
strlen-filled t h small = rw (filled-zero t small) (strlen-text t _ h)

pub c_string-filled : (t : Bytes) → IsText t → length t < shm_size → c_string (filled t) ≡ t
c_string-filled t h small = rw (filled-zero t small) (c_string-text_end t _ h)

length-filled : (t : Bytes) → length t < shm_size → length (filled t) ≡ shm_size
length-filled t small =
    omega (arith, length-append t (zeros (shm_size - length t)), length-zeros (shm_size - length t))

take-filled : (t : Bytes) → take (length t) (filled t) ≡ t
take-filled t =
    let e : length t - length t ≡ 0 = omega arith in
    rw (take_past (length t) t (zeros (shm_size - length t)) (omega arith), e) (append-nil t)

drop-filled : (t : Bytes) (k : ℕ) → drop (length t + k) (filled t) ≡ zeros (shm_size - length t - k)
drop-filled t k =
    let e : length t + k - length t ≡ k = omega arith in
    rw (drop_past (length t + k) t (zeros (shm_size - length t)) (omega arith), e)
      (drop-zeros k (shm_size - length t))

fits :
    (shm text : Bytes) (off : ℕ)
    → off + length text < length shm
    → put_text shm off text ≡ some (take off shm ++ text ++ 0 ∷ drop (off + length text + 1) shm)
unfolding put_text
fits shm text off h = ground arith

-- Another text at the end of the first one.
pub put_text-filled :
    (t u : Bytes)
    → length t + length u < shm_size
    → put_text (filled t) (length t) u ≡ some (filled (t ++ u))
put_text-filled t u small =
    let both : length (t ++ u) ≡ length t + length u = length-append t u in
    let e : length t + length u + 1 ≡ length t + (length u + 1) = omega arith in
    let k : shm_size - length t - (length u + 1) ≡ shm_size - (length t + length u) - 1 =
      omega arith in
    fits (filled t) u (length t) (omega (arith, length-filled t (omega arith)))
    ∙ rw
        (
          e,
          take-filled t,
          drop-filled t (length u + 1),
          filled-zero (t ++ u) (omega (arith, both)),
          both,
          k,
        )
        refl
