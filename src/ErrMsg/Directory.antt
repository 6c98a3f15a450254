-- ===== src/ErrMsg/Directory.antt =====
-- `main` of Lecture4/directory/main.c.
use ece.Prelude.{Option, some, none, List, [], ◌∷◌, ◌++◌, Bytes, codes}
use ece.ErrMsg.{Run, exit, print, err_sys, err_quit}

-- The loop around `readdir`.
unfoldable pub list_entries : List Bytes → Run
list_entries [] = exit 0
list_entries (d_name ∷ entries) = print (d_name ++ b'\n' ∷ []) (list_entries entries)

-- What `opendir` gives: the entries that are read, or the text of an error.
unfoldable pub list_directory : Bytes → Option (List Bytes) → Bytes → Run
list_directory name none error = err_sys (codes "can't open " ++ name) error
list_directory name (some entries) error = list_entries entries

-- `argv` from 1 on.
unfoldable pub main : List Bytes → Option (List Bytes) → Bytes → Run
main (name ∷ []) opened error = list_directory name opened error
main args opened error = err_quit (codes "a single argument (the directory name) is required")
