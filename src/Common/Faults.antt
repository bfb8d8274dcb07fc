-- ===== src/Common/Faults.antt =====
-- Operations that C++ leaves undefined or that end the program, as values: a run that reaches one has
-- no further meaning.
use mathlib.Core.Path.{◌≡◌, refl, subst}
use mathlib.Core.Bool.{Bool, true, false}
use virtual_service_gateway.Common.Tests.{if◌then◌else◌}

pub data Fault : Type 0 where
  division_by_zero : Fault
  out_of_bounds : Fault
  null_pointer : Fault
  terminate : Fault
  undefined_shift : Fault
  signed_overflow : Fault

pub data Result {ℓ} (A : Type ℓ) : Type ℓ where
  ok : A → Result A
  fault : Fault → Result A

infixl 5 ◌>>=◌
abbrev pub ◌>>=◌ {ℓ κ} : {A : Type ℓ} {B : Type κ} → Result A → (A → Result B) → Result B
ok a >>= f = f a
fault e >>= f = fault e

pub >>=-assoc {ℓ κ μ} :
    {A : Type ℓ} {B : Type κ} {C : Type μ} (m : Result A) (f : A → Result B) (g : B → Result C)
    → (m >>= f >>= g) ≡ (m >>= λ a. f a >>= g)
>>=-assoc (ok a) f g = refl
>>=-assoc (fault e) f g = refl

pub >>=-ap {ℓ κ} :
    {A : Type ℓ} {B : Type κ} (m : Result A) {f g : A → Result B}
    → ((a : A) → f a ≡ g a)
    → (m >>= f) ≡ (m >>= g)
>>=-ap (ok a) h = h a
>>=-ap (fault e) h = refl

-- A run that returns has returned from its first part.
pub >>=-eq-ok {ℓ κ} :
    {A : Type ℓ} {B : Type κ} (m : Result A) (f : A → Result B) (b : B)
    → (m >>= f) ≡ ok b
    → (a : A) × (m ≡ ok a) × (f a ≡ ok b)
>>=-eq-ok (ok a) f b h = (a, refl, h)
>>=-eq-ok (fault e) f b h = cc

-- A run that returns, with a value of which a predicate holds.
pub data Returns {ℓ} {A : Type ℓ} (P : A → Type ℓ) : Result A → Type ℓ where
  returned : (a : A) → P a → Returns P (ok a)

pub Returns->>= {ℓ} :
    {A B : Type ℓ} {P : A → Type ℓ} {Q : B → Type ℓ} {m : Result A} {f : A → Result B}
    → Returns P m
    → ((a : A) → P a → Returns Q (f a))
    → Returns Q (m >>= f)
Returns->>= (returned a h) k = k a h

pub Returns-if {ℓ} :
    {A : Type ℓ} {P : A → Type ℓ} {x y : Result A} (b : Bool)
    → Returns P x
    → Returns P y
    → Returns P (if b then x else y)
Returns-if true h k = h
Returns-if false h k = k

pub Returns-value {ℓ} :
    {A : Type ℓ} {P : A → Type ℓ} {m : Result A} → Returns P m → (a : A) × (m ≡ ok a) × P a
Returns-value (returned a h) = (a, refl, h)

-- A predicate of the value, where the run returns one.
pub data Ensures {ℓ} {A : Type ℓ} (P : A → Type ℓ) : Result A → Type ℓ where
  ensured : (a : A) → P a → Ensures P (ok a)
  stopped : (e : Fault) → Ensures P (fault e)

pub Ensures->>= {ℓ} :
    {A B : Type ℓ} {Q : B → Type ℓ} (m : Result A) {f : A → Result B}
    → ((a : A) → Ensures Q (f a))
    → Ensures Q (m >>= f)
Ensures->>= (ok a) k = k a
Ensures->>= (fault e) k = stopped e

pub Ensures-if {ℓ} :
    {A : Type ℓ} {P : A → Type ℓ} {x y : Result A} (b : Bool)
    → (b ≡ true → Ensures P x)
    → (b ≡ false → Ensures P y)
    → Ensures P (if b then x else y)
Ensures-if true h k = h refl
Ensures-if false h k = k refl

pub Ensures-value {ℓ} :
    {A : Type ℓ} {P : A → Type ℓ} {m : Result A} → Ensures P m → (a : A) → m ≡ ok a → P a
Ensures-value {P = P} (ensured b h) a e = let same : b ≡ a = cc e in subst P same h
Ensures-value (stopped f) a e = absurd (cc e)

pub Returns-map {ℓ} :
    {A : Type ℓ} {P Q : A → Type ℓ} {m : Result A}
    → Returns P m
    → ((a : A) → P a → Q a)
    → Returns Q m
Returns-map (returned a h) k = returned a (k a h)
