-- ===== src/Pipe.antt =====
-- ipc_code/pipe/pipe.c: a child writes five messages into a pipe, its parent counts what its reads bring
-- and writes the count into a second pipe. A `read` takes what is there, up to its count; a `write` of
-- these few bytes is one step. stdout is a terminal, and `sleep` is left out. Neither call of `pipe`
-- fails, nor does a `read`.
pub mod Reads
pub mod Counted
pub mod Ends
pub mod Length
mod Tests
use ece.Prelude.{
  ℕ, zero, suc, ◌+◌, Bool, true, false, Option, some, none, List, [], ◌∷◌, ◌++◌, Bytes, codes,
  length, take, drop, ltb, if◌then◌else◌,
}
use ece.CString.{c_string}
use ece.CString.Decimal.{show_ℕ}

-- The child: with that many messages left to write; in front of the `read` from the second pipe; at its
-- end. `undefined`: it prints a text without a NUL. `absent`: `fork` has failed.
pub data Child : Type 0 where
  writing : (n : ℕ) → Child
  awaiting : Child
  ended : Child
  undefined : Child
  absent : Child

-- The parent: in front of its first `close`; in the loop around `read`; behind it; in `wait`; at its end.
-- `killed`: by SIGPIPE, as it wrote into a pipe that nobody reads.
pub data Parent : Type 0 where
  opening : Parent
  reading : Parent
  replying : Parent
  waiting : Parent
  finished : Parent
  undefined : Parent
  killed : Parent

-- `buf` is an array in each process, not initialised. stdout is kept line by line.
pub record State : Type 0 where
  pub child : Child
  pub parent : Parent
  pub pipe : Bytes
  pub pipe2 : Bytes
  pub num : ℕ
  pub child_buf : Bytes
  pub parent_buf : Bytes
  pub stdout : List Bytes

-- `hello`, which is written with its NUL.
abbrev pub text : Bytes
text = codes "Hello, World!"

abbrev pub hello : Bytes
hello = text ++ 0 ∷ []

-- `buf` behind a `read` into it.
abbrev pub fill : Bytes → Bytes → Bytes
fill buf bytes = bytes ++ drop (length bytes) buf

abbrev pub is_terminated : Bytes → Bool
is_terminated buf = ltb (length (c_string buf)) (length buf)

-- Whether nobody but the parent can write into the first pipe, or read from the second.
abbrev pub writes : Child → Bool
writes (Child.writing n) = true
writes _ = false

abbrev pub is_over : Child → Bool
is_over (Child.writing n) = false
is_over Child.awaiting = false
is_over _ = true

-- Whether the parent has closed its end of the second pipe.
abbrev pub has_replied : Parent → Bool
has_replied Parent.opening = false
has_replied Parent.reading = false
has_replied Parent.replying = false
has_replied _ = true

-- The response, with the bytes that `read` gave; 0 of them at the end of the pipe.
unfoldable pub print_response : Bytes → State → State
unfolding c_string
print_response bytes s =
    let buf = fill s.child_buf bytes in
    if is_terminated buf
    then record s {
      child = Child.ended;
      pipe2 = drop 1024 s.pipe2;
      child_buf = buf;
      stdout =
          s.stdout
          ++ codes "----------\n" ∷ (codes "Response: " ++ c_string buf ++ codes "\n") ∷ [];
    }
    else record s { child = Child.undefined }

unfoldable pub take_response : Bytes → State → Option State
take_response [] s = if has_replied s.parent then some (print_response [] s) else none
take_response (c ∷ bytes) s = some (print_response (c ∷ bytes) s)

-- The next step of the child; `none`: it has none, or its `read` blocks.
unfoldable pub turn_child : Child → State → Option State
turn_child (Child.writing (suc n)) s =
    some (record s { child = Child.writing n; pipe = s.pipe ++ hello })
turn_child (Child.writing zero) s = some (record s { child = Child.awaiting })
turn_child Child.awaiting s = take_response (take 1024 s.pipe2) s
turn_child _ s = none

-- A round of the parent's loop, with the bytes that `read` gave.
unfoldable pub count : Bytes → State → State
unfolding c_string
count bytes s =
    let buf = fill s.parent_buf bytes in
    if is_terminated buf
    then record s {
      pipe = drop 1024 s.pipe;
      num = s.num + 1;
      parent_buf = buf;
      stdout = s.stdout ++ (codes "from child: " ++ c_string buf ++ codes "\n") ∷ [];
    }
    else record s { parent = Parent.undefined }

unfoldable pub read_chunk : Bytes → State → Option State
read_chunk [] s = if writes s.child then none else some (record s { parent = Parent.replying })
read_chunk (c ∷ bytes) s = some (count (c ∷ bytes) s)

-- What `sprintf` makes.
abbrev pub response : ℕ → Bytes
response num = show_ℕ num ++ codes " messages received"

-- `write` and the `close` behind it.
unfoldable pub reply : State → State
reply s =
    if is_over s.child
    then record s { parent = Parent.killed }
    else record s { parent = Parent.waiting; pipe2 = s.pipe2 ++ (response s.num ++ 0 ∷ []) }

unfoldable pub turn_parent : Parent → State → Option State
turn_parent Parent.opening s = some (record s { parent = Parent.reading })
turn_parent Parent.reading s = read_chunk (take 1024 s.pipe) s
turn_parent Parent.replying s = some (reply s)
turn_parent Parent.waiting s =
    if is_over s.child then some (record s { parent = Parent.finished }) else none
turn_parent _ s = none

pub data Who : Type 0 where
  child : Who
  parent : Who

unfoldable pub step : Who → State → Option State
step Who.child s = turn_child s.child s
step Who.parent s = turn_parent s.parent s

unfoldable pub run : List Who → State → Option State
run [] s = some s
run (w ∷ schedule) s = elim (step w s) [ none ↦ none | some s' ↦ run schedule s' ]

-- Behind `fork`, with what stands in `buf`.
abbrev pub start : Bytes → Bool → State
start buf forked = record {
  child = if forked then Child.writing 5 else Child.absent;
  parent = Parent.opening;
  pipe = [];
  pipe2 = [];
  num = 0;
  child_buf = buf;
  parent_buf = buf;
  stdout = [];
}
