-- ===== src/Prelude/Partial.antt =====
-- What holds of the value of an `Option`, if there is one.
use native.Mathlib.Omega.{arith}
use mathlib.Core.Option
use mathlib.Core.Path.{◌≡◌, refl}
use mathlib.Core.Option.{Option, none, some}

abbrev pub Holds {ℓ κ} : {A : Type ℓ} → Option A → (A → Type κ) → Type κ
Holds none P = Unit
Holds (some a) P = P a

pub Holds-bind {ℓ κ μ ν} :
    {A : Type ℓ} {B : Type μ} (o : Option A) (f : A → Option B) (P : A → Type κ) (Q : B → Type ν)
    → Holds o P
    → ((a : A) → P a → Holds (f a) Q)
    → Holds (elim o [ none ↦ none | some a ↦ f a ]) Q
Holds-bind none f P Q h g = tt
Holds-bind (some a) f P Q h g = g a h

pub Holds_both {ℓ κ} :
    {A : Type ℓ} (o : Option A) (P Q : A → Type κ)
    → Holds o P
    → Holds o Q
    → Holds o (λ a. P a × Q a)
Holds_both none P Q h g = tt
Holds_both (some a) P Q h g = (h, g)

pub Holds-map {ℓ κ μ ν} :
    {A : Type ℓ} {B : Type μ} (o : Option A) (f : A → B) (P : A → Type κ) (Q : B → Type ν)
    → Holds o P
    → ((a : A) → P a → Q (f a))
    → Holds (Option.map f o) Q
Holds-map none f P Q h g = tt
Holds-map (some a) f P Q h g = g a h

pub Holds-weaken {ℓ κ μ} :
    {A : Type ℓ} (o : Option A) (P : A → Type κ) (Q : A → Type μ)
    → Holds o P
    → ((a : A) → P a → Q a)
    → Holds o Q
Holds-weaken none P Q h g = tt
Holds-weaken (some a) P Q h g = g a h

pub map-none {ℓ μ} :
    {A : Type ℓ} {B : Type μ} (f : A → B) (o : Option A) → Option.map f o ≡ none → o ≡ none
map-none f none h = refl
map-none f (some a) h = ground arith
