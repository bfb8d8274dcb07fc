-- ===== src/Common/Slices.antt =====
-- Prefixes and rests of lists, and what a sum makes of them.
use Prim.Native.Nat.{ℕ, zero, suc, ◌+◌, ◌≤◌}
use mathlib.Core.Path.{◌≡◌, refl, ap}
use mathlib.Core.List.{List, [], ◌∷◌, ◌++◌, map}
use native.Mathlib.Omega.{arith}
use virtual_service_gateway.Common.Lists.{
  length, take, drop, sum_by, sum_by-append, take-append-drop, length-append, drop-nil,
}

pub map-append {ℓ κ} :
    {A : Type ℓ} {B : Type κ} (f : A → B) (xs ys : List A) → map f (xs ++ ys) ≡ map f xs ++ map f ys
map-append f [] ys = refl
map-append f (x ∷ xs) ys = ap (λ zs. f x ∷ zs) (map-append f xs ys)

pub length-take {ℓ} : {A : Type ℓ} (n : ℕ) (xs : List A) → n ≤ length xs → length (take n xs) ≡ n
length-take zero xs h = refl
length-take (suc n) [] h = absurd (omega (arith, h))
length-take (suc n) (x ∷ xs) h = ap suc (length-take n xs (omega (arith, h)))

pub length-drop-le {ℓ} : {A : Type ℓ} (n : ℕ) (xs : List A) → length (drop n xs) ≤ length xs
length-drop-le n xs =
    omega (arith, length-append (take n xs) (drop n xs), ap length (take-append-drop n xs))

pub take-all {ℓ} : {A : Type ℓ} (n : ℕ) (xs : List A) → length xs ≤ n → take n xs ≡ xs
take-all zero [] h = refl
take-all (suc n) [] h = refl
take-all zero (x ∷ xs) h = absurd (omega (arith, h))
take-all (suc n) (x ∷ xs) h = ap (λ ys. x ∷ ys) (take-all n xs (omega (arith, h)))

pub drop-all {ℓ} : {A : Type ℓ} (n : ℕ) (xs : List A) → length xs ≤ n → drop n xs ≡ []
drop-all n [] h = drop-nil n
drop-all zero (x ∷ xs) h = absurd (omega (arith, h))
drop-all (suc n) (x ∷ xs) h = drop-all n xs (omega (arith, h))

pub sum_by-map {ℓ κ} :
    {A : Type ℓ} {B : Type κ} (w : B → ℕ) (f : A → B) (xs : List A)
    → sum_by w (map f xs) ≡ sum_by (λ x. w (f x)) xs
sum_by-map w f [] = refl
sum_by-map w f (x ∷ xs) = omega (arith, sum_by-map w f xs)

pub sum_by-split {ℓ} :
    {A : Type ℓ} (w : A → ℕ) (n : ℕ) (xs : List A)
    → sum_by w (take n xs) + sum_by w (drop n xs) ≡ sum_by w xs
sum_by-split w n xs =
    omega (arith, sum_by-append w (take n xs) (drop n xs), ap (sum_by w) (take-append-drop n xs))

pub length-drop {ℓ} :
    {A : Type ℓ} (n : ℕ) (xs : List A) → n ≤ length xs → length (drop n xs) + n ≡ length xs
length-drop n xs h = omega (
  arith,
  length-append (take n xs) (drop n xs),
  ap length (take-append-drop n xs),
  length-take n xs h,
)
