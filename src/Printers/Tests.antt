-- ===== src/Printers/Tests.antt =====
-- Runs of the printing processes, and the theorems at them.
use ece.Prelude.{◌≡◌, ◌⊎◌, ◌↔◌, refl, some, [], ◌∷◌, ◌++◌, List, codes}
use ece.Printers.{
  State, Writer, Reply, Action, child_text, parent_text, start, step, run, turn, wait_sem, put_char,
}
use ece.Printers.Order.{run-InOrder, InOrder}
use ece.Printers.Progress.{run-Finished, CanStep, Finished}
use ece.Printers.Race
use ece.Printers.Race.{run-Interleaving, Interleaving, ended_with, Process}

-- The parent gets the semaphore first, and the child waits.
abbrev schedule : List Action
schedule =
    Action.parent_turn Reply.done
    ∷ Action.parent_turn Reply.done
    ∷ Action.parent_turn Reply.done
    ∷ []

abbrev reached : State
reached = record (start 1) { sem = 0; stdout = codes "Pa"; parent = Writer.prints 2 }

reaches : run schedule (start 1) ≡ some reached
unfolding run step turn wait_sem put_char
reaches = refl

run-InOrder_example :
    InOrder child_text reached.child parent_text reached.parent reached.stdout
    ⊎ InOrder parent_text reached.parent child_text reached.child reached.stdout
run-InOrder_example = run-InOrder schedule reached reaches

run-Finished_example : CanStep reached ⊎ Finished reached
run-Finished_example = run-Finished schedule reached reaches tt tt

run-Interleaving_example :
    ((race : List Process) × (Race.run race Race.start
        ≡ some (ended_with (Race.child_text ++ Race.parent_text))))
    ↔ Interleaving Race.child_text Race.parent_text (Race.child_text ++ Race.parent_text)
run-Interleaving_example = run-Interleaving (Race.child_text ++ Race.parent_text)
