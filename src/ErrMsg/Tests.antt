-- ===== src/ErrMsg/Tests.antt =====
-- A session of the shell, a message, and the theorems at them.
use ece.Prelude.{
  ◌≡◌, ◌<◌, ◌≤◌, ◌-◌, ◌⊎◌, refl, some, none, true, [], ◌∷◌, ◌++◌, List, Bytes, Option, codes,
  length,
}
use ece.ErrMsg.{maxline, err_doit}
use ece.ErrMsg.Fits.{err_doit_cases, message}
use ece.ErrMsg.Shell
use ece.ErrMsg.Shell.Runs.{script}
use ece.ErrMsg.Directory

err_doit_cases_example :
    ((length (message true (codes "EOF") (codes "read error")) < maxline - 1)
      × (err_doit true (codes "EOF") (codes "read error")
          ≡ some (message true (codes "EOF") (codes "read error") ++ b'\n' ∷ [])))
    ⊎ ((maxline - 1 ≤ length (message true (codes "EOF") (codes "read error")))
        × (err_doit true (codes "EOF") (codes "read error") ≡ none))
err_doit_cases_example = err_doit_cases true (codes "EOF") (codes "read error")

-- One command that runs, and one that is not there.
abbrev typed : List (Bytes × Option Bytes)
typed = (codes "ls", none) ∷ (codes "lx", some (codes "No such file or directory")) ∷ []

script_test : script typed ≡ codes "ls\nlx\n"
unfolding script
script_test = refl

listing :
    (Directory.main (codes "." ∷ []) (some (codes "a" ∷ codes "b" ∷ [])) []).stdout ≡ codes "a\nb\n"
unfolding Directory.main Directory.list_directory Directory.list_entries
listing = refl
