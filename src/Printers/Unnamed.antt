-- ===== src/Printers/Unnamed.antt =====
-- ipc_code/unnamed_semaphore: `main` of unnamed_semaphore.c, set-up and processes together, and of main.c,
-- which does not get as far as the processes.
use mathlib.Core.Option.{some-injective}
use ece.Prelude.{
  ◌≢◌, sym, ◌≡◌, ◌⊎◌, ◌↔◌, refl, arith, Bool, true, false, not, Option, some, none, List,
  if◌then◌else◌,
}
use mathlib.Core.Option
use ece.Printers.{State, Action, run, start, Setup, setup_unnamed, child_text, parent_text}
use ece.Printers.Order.{InOrder, run-InOrder}

-- Behind the set-up the processes take the steps of a schedule; `none`: one of them is not possible.
unfoldable pub run_processes : List Action → Setup → Option Setup
run_processes actions (Setup.ready s) = Option.map Setup.ready (run actions s)
run_processes actions Setup.exits = some Setup.exits
run_processes actions Setup.undefined = some Setup.undefined

-- `main`, with the success of `shmget`, `shmat`, `sem_init` and `fork`; the shared memory is detached and
-- removed where the semaphore is destroyed.
unfoldable pub main : Bool → Bool → Bool → Bool → List Action → Option Setup
main made attached initialised forked actions =
    run_processes actions (setup_unnamed made attached initialised forked)

-- `main` of main.c: the segment is attached twice, and the semaphore, if it could be initialised, is
-- initialised once more, which POSIX leaves undefined.
unfoldable pub main_twice : Bool → Bool → Bool → Setup
main_twice made attached initialised =
    if not made
    then Setup.exits
    else if not attached
    then Setup.undefined
    else if initialised
    then Setup.undefined
    else Setup.exits

-- What holds of a state behind the set-up.
abbrev pub Sound : Setup → Type 0
Sound (Setup.ready s) =
    InOrder child_text s.child parent_text s.parent s.stdout
    ⊎ InOrder parent_text s.parent child_text s.child s.stdout
Sound _ = Unit

-- The last state of the processes, if their schedule is possible.
ready-Sound :
    (actions : List Action) (o : Option State) (r : Setup)
    → run actions (start 1) ≡ o
    → Option.map Setup.ready o ≡ some r
    → (r ≢ Setup.undefined) × Sound r
ready-Sound actions none r e f = absurd (ground arith)
ready-Sound actions (some s) r e f =
    let g : Setup.ready s ≡ r = cc in rw (sym g) ((λ h. ground arith), run-InOrder actions s e)

exits-Sound : (r : Setup) → some Setup.exits ≡ some r → (r ≢ Setup.undefined) × Sound r
exits-Sound r f = let g : Setup.exits ≡ r = cc in rw (sym g) ((λ h. ground arith), tt)

-- An outcome that is not undefined, under a condition that does not hold.
defined-Sound :
    {A : Type 0} (r : Setup)
    → (A → ⊥)
    → (r ≢ Setup.undefined) × Sound r
    → ((r ≡ Setup.undefined) ↔ A) × Sound r
defined-Sound r not_a (defined, h) = (((λ e. absurd (defined e)), (λ a. absurd (not_a a))), h)

-- Whatever of the set-up fails: the run is undefined just if the memory was made and not attached, and
-- at every point of every schedule the two strings are not mixed.
pub main-Sound :
    (made attached initialised forked : Bool) (actions : List Action) (r : Setup)
    → main made attached initialised forked actions ≡ some r
    → ((r ≡ Setup.undefined) ↔ ((made ≡ true) × (attached ≡ false))) × Sound r
unfolding main run_processes setup_unnamed
main-Sound false attached initialised forked actions r e =
    defined-Sound r (λ (f, g). ground arith) (exits-Sound r e)
main-Sound true false initialised forked actions r e =
    let g : Setup.undefined ≡ r = cc in rw (sym g) (((λ f. (refl, refl)), (λ f. refl)), tt)
main-Sound true true false forked actions r e =
    defined-Sound r (λ (f, g). ground arith) (exits-Sound r e)
main-Sound true true true false actions r e =
    defined-Sound r (λ (f, g). ground arith) (exits-Sound r e)
main-Sound true true true true actions r e =
    defined-Sound r (λ (f, g). ground arith) (ready-Sound actions (run actions (start 1)) r refl e)
