-- ===== src/Dpi/Extraction.antt =====
-- What the extractions of src/dpi/classifier_pipeline.cpp read from printed columns.
use native.Mathlib.Numerals.{unary_clauses}
use virtual_service_gateway.Common.{
  ℕ, suc, ◌+◌, ◌-◌, ◌*◌, ◌^◌, ◌<◌, ◌≤◌, ◌≡◌, ◌≢◌, refl, ap, ◌∙◌, true, false, List, [], ◌∷◌, ◌++◌,
  map, All, length, some, arith, ltb, ◌==◌,
}
use virtual_service_gateway.Dpi.Parser.{
  is_space, is_digit, skip_space, digits_from, magnitude, signed_magnitude, read_unsigned,
  first_of_text, read_uint8, word_from, nonempty_word, read_word,
}
use virtual_service_gateway.Dpi.Printing.{
  Blank, space, tab, blank_code, gap, numeral, number, IsNumeral,
}

-- The rest of a text after a numeral does not go on with a digit.
abbrev pub EndsNumeral : List ℕ → Type 0
EndsNumeral [] = Unit
EndsNumeral (c ∷ cs) = is_digit c ≡ false

skip_space-blanks :
    (bs : List Blank) (rest : List ℕ) → skip_space (map blank_code bs ++ rest) ≡ skip_space rest
unfolding skip_space is_space
skip_space-blanks [] rest = refl
skip_space-blanks (space ∷ bs) rest = skip_space-blanks bs rest
skip_space-blanks (tab ∷ bs) rest = skip_space-blanks bs rest

pub is_space-solid : (c : ℕ) → 33 ≤ c → is_space c ≡ false
unfolding is_space
is_space-solid c h = ground arith

skip_space-solid : (c : ℕ) (cs : List ℕ) → 33 ≤ c → skip_space (c ∷ cs) ≡ c ∷ cs
unfolding skip_space
skip_space-solid c cs h = rw (is_space-solid c h) refl

is_digit_lem : (d : ℕ) → d < 10 → is_digit (b'0' + d) ≡ true
unfolding is_digit
is_digit_lem d h = ground arith

horner :
    (acc d n v : ℕ)
    → (acc * 10 + (b'0' + d - b'0')) * 10 ^ n + v ≡ acc * 10 ^ suc n + (d * 10 ^ n + v)
horner acc d n v =
    let same : b'0' + d - b'0' ≡ d = omega arith in
    let power : 10 ^ suc n ≡ 10 * 10 ^ n = simp unary_clauses (omega arith) in
    rw (same, power) (omega arith)

digits_from-numeral :
    (acc : ℕ) (ds rest : List ℕ)
    → All (λ d. d < 10) ds
    → EndsNumeral rest
    → digits_from acc (numeral ds ++ rest) ≡ (acc * 10 ^ length ds + number ds, rest)
unfolding digits_from
digits_from-numeral acc [] [] h stop = ap (λ n. (n, [])) (omega arith)
digits_from-numeral acc [] (c ∷ cs) h stop = rw stop (ap (λ n. (n, c ∷ cs)) (omega arith))
digits_from-numeral acc (d ∷ ds) rest h stop = rw (is_digit_lem d h.0) (
    digits_from-numeral (acc * 10 + (b'0' + d - b'0')) ds rest h.1 stop
    ∙ ap (λ n. (n, rest)) (horner acc d (length ds) (number ds)))

pub read_unsigned-numeral :
    (modulus : ℕ) (bs : List Blank) (ds rest : List ℕ)
    → IsNumeral modulus ds
    → EndsNumeral rest
    → read_unsigned modulus (map blank_code bs ++ (numeral ds ++ rest)) ≡ some (number ds, rest)
unfolding read_unsigned signed_magnitude magnitude
read_unsigned-numeral modulus bs [] rest h stop = absurd (h.1 refl)
read_unsigned-numeral modulus bs (d ∷ ds) rest h stop =
    let no_minus : (b'0' + d == b'-') ≡ false = ground arith in
    let no_plus : (b'0' + d == b'+') ≡ false = ground arith in
    let from_zero : 0 * 10 ^ length (d ∷ ds) + number (d ∷ ds) ≡ number (d ∷ ds) = omega arith in
    let fits : ltb (number (d ∷ ds)) modulus ≡ true = ground (arith, h.2) in
    rw
      (
        skip_space-blanks bs (numeral (d ∷ ds) ++ rest),
        skip_space-solid (b'0' + d) (numeral ds ++ rest) (omega arith),
        no_minus,
        no_plus,
        is_digit_lem d (h.0).0,
        digits_from-numeral 0 (d ∷ ds) rest h.0 stop ∙ ap (λ n. (n, rest)) from_zero,
        fits,
      )
      refl

pub read_uint8-solid :
    (bs : List Blank) (c : ℕ) (rest : List ℕ)
    → 33 ≤ c
    → read_uint8 (map blank_code bs ++ c ∷ rest) ≡ some (c, rest)
unfolding read_uint8 first_of_text
read_uint8-solid bs c rest h = rw (skip_space-blanks bs (c ∷ rest), skip_space-solid c rest h) refl

word_from-solid :
    (w : List ℕ) (g : Blank × List Blank) (rest : List ℕ)
    → All (λ c. 33 ≤ c) w
    → word_from (w ++ (gap g ++ rest)) ≡ (w, gap g ++ rest)
unfolding word_from is_space
word_from-solid [] (space, bs) rest h = refl
word_from-solid [] (tab, bs) rest h = refl
word_from-solid (c ∷ w) g rest h = rw (is_space-solid c h.0, word_from-solid w g rest h.1) refl

pub read_word-solid :
    (bs : List Blank) (w : List ℕ) (g : Blank × List Blank) (rest : List ℕ)
    → All (λ c. 33 ≤ c) w
    → w ≢ []
    → read_word (map blank_code bs ++ (w ++ (gap g ++ rest))) ≡ some (w, gap g ++ rest)
unfolding read_word nonempty_word
read_word-solid bs [] g rest h full = absurd (full refl)
read_word-solid bs (c ∷ w) g rest h full =
    rw
      (
        skip_space-blanks bs (c ∷ w ++ (gap g ++ rest)),
        skip_space-solid c (w ++ (gap g ++ rest)) h.0,
        word_from-solid (c ∷ w) g rest h,
      )
      refl

pub gap-EndsNumeral : (g : Blank × List Blank) (rest : List ℕ) → EndsNumeral (gap g ++ rest)
unfolding is_digit
gap-EndsNumeral (space, bs) rest = refl
gap-EndsNumeral (tab, bs) rest = refl

pub blanks-EndsNumeral : (bs : List Blank) → EndsNumeral (map blank_code bs)
unfolding is_digit
blanks-EndsNumeral [] = tt
blanks-EndsNumeral (space ∷ bs) = refl
blanks-EndsNumeral (tab ∷ bs) = refl
