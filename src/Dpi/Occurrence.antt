-- ===== src/Dpi/Occurrence.antt =====
-- What it means that a pattern occurs in a list of bytes, by position and by surroundings.
use virtual_service_gateway.Common.{
  ℕ, ◌+◌, ◌-◌, ◌≤◌, ◌≡◌, ◌∙◌, refl, sym, ap, true, List, [], ◌∷◌, ◌++◌, arith, length, take, drop,
  length-append, length-take-le, take-append-drop, drop-append, take-append, take_split, ◌↔◌,
}
use mathlib.Core.List.{append_assoc}
use virtual_service_gateway.Dpi.Matcher.{list_eq}

pub list_eq_iff : (xs ys : List ℕ) → (list_eq xs ys ≡ true) ↔ (xs ≡ ys)
unfolding list_eq
list_eq_iff [] [] = (λ _. refl, λ _. refl)
list_eq_iff [] (y ∷ ys) = (λ e. cc, λ e. cc)
list_eq_iff (x ∷ xs) [] = (λ e. cc, λ e. cc)
list_eq_iff (x ∷ xs) (y ∷ ys) =
    let ih = list_eq_iff xs ys in (λ e. ground (arith, ih), λ e. ground (arith, ih))

-- The pattern stands somewhere in the bytes.
abbrev pub Occurs : List ℕ → List ℕ → Type 0
Occurs pattern bytes = (before after : List ℕ) × (bytes ≡ before ++ (pattern ++ after))

-- The pattern stands at position `i`, within the first `n` bytes.
abbrev pub StandsAt : List ℕ → List ℕ → ℕ → ℕ → Type 0
StandsAt pattern bytes n i =
    (i + length pattern ≤ n) × (take (length pattern) (drop i bytes) ≡ pattern)

pub Occurs-StandsAt :
    (pattern bytes : List ℕ) (n : ℕ)
    → Occurs pattern (take n bytes)
    → (i : ℕ) × StandsAt pattern bytes n i
Occurs-StandsAt pattern bytes n (before, after, e) = (length before, (fits, at))
  where
    fits : length before + length pattern ≤ n
    fits = omega (
      arith,
      length-take-le n bytes,
      ap length e,
      length-append before (pattern ++ after),
      length-append pattern after,
    )

    whole : bytes ≡ before ++ (pattern ++ (after ++ drop n bytes))
    whole =
        sym (take-append-drop n bytes)
        ∙ ap (λ l. l ++ drop n bytes) e
        ∙ append_assoc before (pattern ++ after) (drop n bytes)
        ∙ ap (◌++◌ before) (append_assoc pattern after (drop n bytes))

    at : take (length pattern) (drop (length before) bytes) ≡ pattern
    at =
        ap (λ l. take (length pattern) (drop (length before) l)) whole
        ∙ ap (take (length pattern)) (drop-append before (pattern ++ (after ++ drop n bytes)))
        ∙ take-append pattern (after ++ drop n bytes)

pub StandsAt-Occurs :
    (pattern bytes : List ℕ) (n i : ℕ) → StandsAt pattern bytes n i → Occurs pattern (take n bytes)
StandsAt-Occurs pattern bytes n i (fits, at) = (
  take i bytes,
  take (n - i - length pattern) (drop (length pattern) (drop i bytes)),
  take_split i n bytes (omega arith)
      ∙ ap (◌++◌ (take i bytes)) (
          take_split (length pattern) (n - i) (drop i bytes) (omega arith)
          ∙ ap (λ l. l ++ take (n - i - length pattern) (drop (length pattern) (drop i bytes))) at),
)
