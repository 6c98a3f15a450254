-- ===== src/BoundedBuffer/Queue.antt =====
-- What the buffer of Homework2/level3.c promises: a queue that holds `buffer_size` numbers at most.
use ece.Prelude.{ℕ, List, [], ◌∷◌, ◌++◌, Option, some, none, length, ltb, ◌==◌, if◌then◌else◌}
use ece.BoundedBuffer.{buffer_size}

-- What a step of a thread does to the queue: it puts a number, it takes one, or it does neither.
pub data Call : Type 0 where
  puts : (v : ℕ) → Call
  takes : (v : ℕ) → Call
  silent : Call

-- The queue after a call; `none`: a queue does not allow the call. A number is put at the end if there
-- is room, and the number taken is the first one.
unfoldable pub accepts : Call → List ℕ → Option (List ℕ)
accepts (Call.puts v) q = if ltb (length q) buffer_size then some (q ++ v ∷ []) else none
accepts (Call.takes v) [] = none
accepts (Call.takes v) (x ∷ q) = if x == v then some q else none
accepts Call.silent q = some q

unfoldable pub accepts_all : List Call → List ℕ → Option (List ℕ)
accepts_all [] q = some q
accepts_all (c ∷ cs) q = elim (accepts c q) [ none ↦ none | some q' ↦ accepts_all cs q' ]
