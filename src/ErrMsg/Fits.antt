-- ===== src/ErrMsg/Fits.antt =====
-- When a message fits its array.
use ece.Prelude.{
  ◌-◌, ◌≡◌, ◌<◌, ◌≤◌, ◌⊎◌, inl, inr, refl, ap, ◌∙◌, arith, Bool, true, false, some, none, [], ◌∷◌,
  ◌++◌, Bytes, codes, length, length-append, length-take, take_all,
}
use native.Mathlib.Decide.{dec_lt}
use ece.ErrMsg.{maxline, vsnprintf, add_error, add_newline, err_doit}

-- The whole message, without its newline.
abbrev pub message : Bool → Bytes → Bytes → Bytes
message false error text = text
message true error text = text ++ (codes ": " ++ error)

add_newline-fits :
    (buf : Bytes) → length buf < maxline - 1 → add_newline buf ≡ some (buf ++ b'\n' ∷ [])
unfolding add_newline
add_newline-fits buf h = ground arith

add_newline-none : (buf : Bytes) → maxline - 1 ≤ length buf → add_newline buf ≡ none
unfolding add_newline
add_newline-none buf h = ground arith

stored_short :
    (errnoflag : Bool) (error text : Bytes)
    → length (message errnoflag error text) < maxline - 1
    → add_error errnoflag error (vsnprintf maxline text) ≡ message errnoflag error text
unfolding add_error
stored_short false error text h = take_all (maxline - 1) text (omega arith)
stored_short true error text h =
    let total = length-append text (codes ": " ++ error) in
    rw (take_all (maxline - 1) text (omega (arith, total))) (
      ap (λ s. text ++ s)
        (take_all (maxline - length text - 1) (codes ": " ++ error) (omega (arith, total))))

stored_long :
    (errnoflag : Bool) (error text : Bytes)
    → maxline - 1 ≤ length (message errnoflag error text)
    → maxline - 1 ≤ length (add_error errnoflag error (vsnprintf maxline text))
unfolding add_error
stored_long false error text h = omega (arith, length-take (maxline - 1) text)
stored_long true error text h =
    let buf = vsnprintf maxline text in
    let rest = codes ": " ++ error in
    omega (
      arith,
      length-append text rest,
      length-take (maxline - 1) text,
      length-append buf (vsnprintf (maxline - length buf) rest),
      length-take (maxline - length buf - 1) rest,
    )

err_doit_lem :
    (errnoflag : Bool) (error text : Bytes)
    → err_doit errnoflag error text
      ≡ add_newline (add_error errnoflag error (vsnprintf maxline text))
unfolding err_doit
err_doit_lem errnoflag error text = refl

-- A message of less than 4095 bytes is written whole, with a newline; any longer one makes `strcat` write
-- one byte behind the array.
pub err_doit_cases :
    (errnoflag : Bool) (error text : Bytes)
    → ((length (message errnoflag error text) < maxline - 1)
        × (err_doit errnoflag error text ≡ some (message errnoflag error text ++ b'\n' ∷ [])))
      ⊎ ((maxline - 1 ≤ length (message errnoflag error text))
          × (err_doit errnoflag error text ≡ none))
err_doit_cases errnoflag error text =
    elim (dec_lt (length (message errnoflag error text)) (maxline - 1)) [
      | yes short ↦ inl (
        short,
        err_doit_lem errnoflag error text
            ∙ (ap add_newline (stored_short errnoflag error text short)
                ∙ add_newline-fits (message errnoflag error text) short),
      )
      | no long ↦
          let much : maxline - 1 ≤ length (message errnoflag error text) = omega arith in
          inr (
            much,
            err_doit_lem errnoflag error text
                ∙ add_newline-none _ (stored_long errnoflag error text much),
          )
    ]
