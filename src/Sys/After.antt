-- ===== src/Sys/After.antt =====
-- Postconditions of a run: one for the value, one for each way to stop.
use ece.Prelude.{◌≡◌, refl, Option, none, some, Bool, true, false}
use ece.Sys.{require, when, Stop, Out, value, stop, Trace, M, continue}

abbrev pub After :
    {A : Type 0} → Out A × Trace → (A → Trace → Type 0) → (Stop → Trace → Type 0) → Type 0
After (value a, t) Q S = Q a t
After (stop s, t) Q S = S s t

-- Weakening, and the rule for a sequence of two runs.
pub After-map :
    {A : Type 0} (r : Out A × Trace) (Q R : A → Trace → Type 0) (S Z : Stop → Trace → Type 0)
    → ((a : A) (t : Trace) → Q a t → R a t)
    → ((s : Stop) (t : Trace) → S s t → Z s t)
    → After r Q S
    → After r R Z
After-map (value a, t) Q R S Z f g h = f a t h
After-map (stop s, t) Q R S Z f g h = g s t h

pub After-bind :
    {A B : Type 0} (r : Out A × Trace) (f : A → M B) (Q : A → Trace → Type 0)
    (R : B → Trace → Type 0) (S Z : Stop → Trace → Type 0)
    → After r Q S
    → ((s : Stop) (t : Trace) → S s t → Z s t)
    → ((a : A) (t : Trace) → Q a t → After (f a t) R Z)
    → After (continue r f) R Z
After-bind (value a, t) f Q R S Z h m g = g a t h
After-bind (stop s, t) f Q R S Z h m g = m s t h

-- The rules for a value that is required and for a conditional statement.
pub After-require :
    {A B : Type 0} (o : Option A) (m : M A) (f : A → M B) (t : Trace) (R : B → Trace → Type 0)
    (Z : Stop → Trace → Type 0)
    → (o ≡ none → After (continue (m t) f) R Z)
    → ((a : A) → o ≡ some a → After (f a t) R Z)
    → After (continue (require o m t) f) R Z
After-require none m f t R Z h g = h refl
After-require (some a) m f t R Z h g = g a refl

pub After-when :
    {B : Type 0} (b : Bool) (m : M (Unit {0})) (f : Unit {0} → M B) (t : Trace)
    (R : B → Trace → Type 0) (Z : Stop → Trace → Type 0)
    → (b ≡ true → After (continue (m t) f) R Z)
    → (b ≡ false → After (f tt t) R Z)
    → After (continue (when b m t) f) R Z
After-when true m f t R Z h g = h refl
After-when false m f t R Z h g = g refl
