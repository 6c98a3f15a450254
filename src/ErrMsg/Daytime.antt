-- ===== src/ErrMsg/Daytime.antt =====
-- `main` of Lecture5/daytime/daytimetcpcli.c.
use ece.Prelude.{Bool, not, true, false, List, [], ◌∷◌, ◌++◌, Bytes, codes, ℕ, if◌then◌else◌}
use ece.CString.{c_string}
use ece.ErrMsg.{Run, exit, print, err_sys, err_quit}

-- What a `read` comes to: at least one byte, of which at most MAXLINE are taken, and whether `fputs` can
-- print them; or an error. Behind the last entry it returns 0.
pub data Arrival : Type 0 where
  segment : (first : ℕ) → (more : Bytes) → (shown : Bool) → Arrival
  failed : Arrival

-- The loop. `error` is the text of `errno`.
unfoldable pub copy : Bytes → List Arrival → Run
copy error [] = exit 0
copy error (Arrival.failed ∷ arrivals) = err_sys (codes "read error") error
copy error (Arrival.segment b bs true ∷ arrivals) = print (c_string (b ∷ bs)) (copy error arrivals)
copy error (Arrival.segment b bs false ∷ arrivals) = err_sys (codes "fputs error") error

-- Which of the calls before the loop succeed.
pub record Replies : Type 0 where
  pub socket : Bool
  pub inet_pton : Bool
  pub connect : Bool

unfoldable pub ask : Replies → Bytes → Bytes → List Arrival → Run
ask r error address arrivals =
    if not r.socket
    then err_sys (codes "socket error") error
    else if not r.inet_pton
    then err_quit (codes "inet_pton error for " ++ address)
    else if not r.connect
    then err_sys (codes "connect error") error
    else copy error arrivals

unfoldable pub main : Replies → Bytes → Bytes → List Bytes → List Arrival → Run
main r error program (address ∷ []) arrivals = ask r error address arrivals
main r error program args arrivals =
    err_quit (codes "usage: " ++ (program ++ codes " <IPaddress>\n"))
