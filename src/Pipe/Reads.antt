-- ===== src/Pipe/Reads.antt =====
-- What the reads of ipc_code/pipe/pipe.c bring: messages and the response.
use ece.Prelude.{
  ◌&&◌, ◌==◌, not, Holds, ℕ, zero, suc, ◌*◌, ◌≤◌, ◌≡◌, refl, ap, ◌∙◌, arith, [], ◌∷◌, ◌++◌,
  append_assoc, Bytes, codes, length, take, take_all, drop, drop_all,
}
use ece.CString.{c_string}
use ece.CString.Decimal.{show_ℕ}
use ece.Pipe.{
  is_terminated, Bool, true, print_response, take_response, turn_child, Child, State, hello,
  response,
}

-- That many messages.
abbrev pub copies : ℕ → Bytes
copies zero = []
copies (suc k) = hello ++ copies k

abbrev pub InRange : ℕ → Type 0
InRange num = (1 ≤ num) × (num ≤ 5)

pub copies-suc : (k : ℕ) → copies k ++ hello ≡ copies (suc k)
copies-suc zero = refl
copies-suc (suc k) = append_assoc hello (copies k) hello ∙ ap (λ q. hello ++ q) (copies-suc k)

length-copies : (k : ℕ) → length (copies k) ≡ 14 * k
length-copies zero = refl
length-copies (suc k) = omega (arith, length-copies k)

pub take-copies : (k : ℕ) → k ≤ 5 → take 1024 (copies k) ≡ copies k
take-copies k h = take_all 1024 (copies k) (omega (arith, length-copies k))

pub drop-copies : (k : ℕ) → k ≤ 5 → drop 1024 (copies k) ≡ []
drop-copies k h = drop_all 1024 (copies k) (omega (arith, length-copies k))

abbrev pub no_nul : Bytes → Bool
no_nul [] = true
no_nul (c ∷ m) = not (c == 0) && no_nul m

-- A text with its NUL, and anything behind it.
pub c_string-nul :
    (m rest : Bytes)
    → no_nul m ≡ true
    → (c_string ((m ++ 0 ∷ []) ++ rest) ≡ m) × (is_terminated ((m ++ 0 ∷ []) ++ rest) ≡ true)
unfolding c_string
c_string-nul [] rest h = (refl, ground arith)
c_string-nul (c ∷ m) rest h = ground (arith, c_string-nul m rest)

response-lem :
    (num : ℕ)
    → InRange num
    → (no_nul (response num) ≡ true) × (length (response num ++ 0 ∷ []) ≡ 20)
unfolding show_ℕ
response-lem zero h = absurd (omega arith)
response-lem (suc zero) h = (refl, refl)
response-lem (suc (suc zero)) h = (refl, refl)
response-lem (suc (suc (suc zero))) h = (refl, refl)
response-lem (suc (suc (suc (suc zero)))) h = (refl, refl)
response-lem (suc (suc (suc (suc (suc zero))))) h = (refl, refl)
response-lem (suc (suc (suc (suc (suc (suc n)))))) h = absurd (omega arith)

-- What the child does with the response.
abbrev pub Answered : Bytes → State → State → Type 0
Answered m s s' =
    (s'.child ≡ Child.ended)
    × (s'.parent ≡ s.parent)
    × (s'.pipe ≡ s.pipe)
    × (s'.num ≡ s.num)
    × (s'.stdout ≡ s.stdout ++ codes "----------\n" ∷ (codes "Response: " ++ m ++ codes "\n") ∷ [])

print_response-nul :
    (m : Bytes) (s : State) → no_nul m ≡ true → Answered m s (print_response (m ++ 0 ∷ []) s)
unfolding print_response
print_response-nul m s h =
    let e = c_string-nul m (drop (length (m ++ 0 ∷ [])) s.child_buf) h in
    rw (e.1, e.0) (refl, refl, refl, refl, refl)

take_response-nul :
    (m : Bytes) (s : State) → no_nul m ≡ true → Holds (take_response (m ++ 0 ∷ []) s) (Answered m s)
unfolding take_response
take_response-nul [] s h = print_response-nul [] s h
take_response-nul (c ∷ m) s h = print_response-nul (c ∷ m) s h

pub response-Answered :
    (s : State)
    → InRange s.num
    → s.pipe2 ≡ response s.num ++ 0 ∷ []
    → Holds (turn_child Child.awaiting s) (Answered (response s.num) s)
unfolding turn_child
response-Answered s h e =
    let (n, l) = response-lem s.num h in
    let t : take 1024 s.pipe2 ≡ response s.num ++ 0 ∷ [] =
      take_all 1024 s.pipe2 (omega (arith, l, ap length e)) ∙ e in
    rw t (take_response-nul (response s.num) s n)
