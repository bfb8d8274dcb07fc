-- ===== src/Dpi/TextClasses.antt =====
-- What `load_signatures` makes of the class column: the extraction into a `uint8_t` takes a character.
use virtual_service_gateway.Common.{
  ℕ, ◌+◌, ◌-◌, ◌*◌, ◌≤◌, ◌≡◌, refl, subst, ltb, true, List, [], ◌∷◌, ◌++◌, Option, none, some,
  arith, All, All-append, ◌==◌, inl, inr, ◌⊎◌, Bool-cases, Option-cases, u16_mod, u32_mod,
}
use virtual_service_gateway.Dpi.Signature.{DpiSignature}
use virtual_service_gateway.Dpi.Parser.{
  is_space, is_digit, skip_space, digits_from, magnitude, signed_magnitude, read_unsigned,
  first_of_text, read_uint8, read_word, parse_line, ◌>>=◌,
}
use virtual_service_gateway.Dpi.Loader.{
  cons_line, get_lines, is_skipped, line_signature, push_lines,
}

-- White space, or a code from 33 on: what a text file holds, in ASCII or UTF-8.
abbrev pub IsText : ℕ → Type 0
IsText c = (is_space c ≡ true) ⊎ (33 ≤ c)

-- The rest that an extraction leaves is text.
abbrev LeavesText {ℓ} : {A : Type ℓ} → Option (A × List ℕ) → Type 0
LeavesText none = Unit
LeavesText (some (v, rest)) = All IsText rest

skip_space-IsText : (cs : List ℕ) → All IsText cs → All IsText (skip_space cs)
unfolding skip_space
skip_space-IsText [] h = tt
skip_space-IsText (c ∷ cs) h = elim (Bool-cases (is_space c)) [
  | inl e ↦ rw e (skip_space-IsText cs h.1)
  | inr e ↦ rw e h
]

digits_from-IsText : (acc : ℕ) (cs : List ℕ) → All IsText cs → All IsText (digits_from acc cs).1
unfolding digits_from
digits_from-IsText acc [] h = tt
digits_from-IsText acc (c ∷ cs) h = elim (Bool-cases (is_digit c)) [
  | inl e ↦ rw e (digits_from-IsText (acc * 10 + (c - b'0')) cs h.1)
  | inr e ↦ rw e h
]

magnitude-text : (modulus : ℕ) (cs : List ℕ) → All IsText cs → LeavesText (magnitude modulus cs)
unfolding magnitude
magnitude-text modulus [] h = tt
magnitude-text modulus (c ∷ cs) h = elim (Bool-cases (is_digit c)) [
  | inl e ↦ rw e (elim (Bool-cases (ltb (digits_from 0 (c ∷ cs)).0 modulus)) [
    | inl fits ↦ rw fits (digits_from-IsText 0 (c ∷ cs) h)
    | inr big ↦ rw big tt
  ])
  | inr e ↦ rw e tt
]

signed_magnitude-text :
    (modulus : ℕ) (cs : List ℕ) → All IsText cs → LeavesText (signed_magnitude modulus cs)
unfolding signed_magnitude
signed_magnitude-text modulus [] h = tt
signed_magnitude-text modulus (c ∷ cs) h = elim (Bool-cases (c == b'-')) [
  | inl minus ↦ rw minus (elim (Option-cases (magnitude modulus cs)) [
    | inl n ↦ rw n tt
    | inr ((v, rest), q) ↦ rw q (subst LeavesText q (magnitude-text modulus cs h.1))
  ])
  | inr e ↦ rw e (elim (Bool-cases (c == b'+')) [
    | inl plus ↦ rw plus (magnitude-text modulus cs h.1)
    | inr bare ↦ rw bare (magnitude-text modulus (c ∷ cs) h)
  ])
]

read_unsigned-text :
    (modulus : ℕ) (cs : List ℕ) → All IsText cs → LeavesText (read_unsigned modulus cs)
unfolding read_unsigned
read_unsigned-text modulus cs h =
    signed_magnitude-text modulus (skip_space cs) (skip_space-IsText cs h)

-- The character that `read_uint8` takes from a text is no white space, so 33 or more.
skip_space-first :
    (cs : List ℕ) (v : ℕ) (rest : List ℕ)
    → All IsText cs
    → first_of_text (skip_space cs) ≡ some (v, rest)
    → 33 ≤ v
unfolding skip_space first_of_text
skip_space-first [] v rest h e = cc
skip_space-first (c ∷ cs) v rest h e = elim (Bool-cases (is_space c)) [
  | inl space ↦ skip_space-first cs v rest h.1 (rw space at e)
  | inr solid ↦ ground (arith, h.0)
]

read_uint8-printed :
    (cs : List ℕ) (v : ℕ) (rest : List ℕ) → All IsText cs → read_uint8 cs ≡ some (v, rest) → 33 ≤ v
unfolding read_uint8
read_uint8-printed cs v rest h e = skip_space-first cs v rest h e

>>=-eq-some {ℓ κ} :
    {A : Type ℓ} {B : Type κ} (m : Option A) (f : A → Option B) (b : B)
    → (m >>= f) ≡ some b
    → (a : A) × (m ≡ some a) × (f a ≡ some b)
>>=-eq-some none f b e = cc
>>=-eq-some (some a) f b e = (a, refl, e)

-- The steps of `parse_line` after the id, and after the class.
abbrev after_class : ℕ → ℕ → List ℕ → Option DpiSignature
after_class sig_id class_val rest = do
  (pattern, rest) ← read_word rest
  (offset, rest) ← read_unsigned u32_mod rest
  (depth, rest) ← read_unsigned u32_mod rest
  some (record {
    signature_id = sig_id;
    classification = class_val;
    pattern = pattern;
    offset = offset;
    depth = depth;
    stateless = true;
    priority = 0;
  })

abbrev after_id : ℕ × List ℕ → Option DpiSignature
after_id r = do (class_val, rest) ← read_uint8 r.1; after_class r.0 class_val rest

after_class-classification :
    (sig_id class_val : ℕ) (rest : List ℕ) (s : DpiSignature)
    → after_class sig_id class_val rest ≡ some s
    → s.classification ≡ class_val
after_class-classification sig_id class_val rest s e =
    let (a, _, e1) = >>=-eq-some (read_word rest) _ s e in
    let (b, _, e2) = >>=-eq-some (read_unsigned u32_mod a.1) _ s e1 in
    let (c, _, e3) = >>=-eq-some (read_unsigned u32_mod b.1) _ s e2 in ground arith

-- A signature that a line of text gives has the code of a printed character as its class.
pub parse_line-class :
    (line : List ℕ) (s : DpiSignature)
    → All IsText line
    → parse_line line ≡ some s
    → 33 ≤ s.classification
unfolding parse_line
parse_line-class line s h e =
    let (r, first, e1) = >>=-eq-some (read_unsigned u16_mod line) after_id s e in
    let (k, second, e2) = >>=-eq-some (read_uint8 r.1) (λ k. after_class r.0 k.0 k.1) s e1 in
    omega (
      arith,
      after_class-classification r.0 k.0 k.1 s e2,
      read_uint8-printed r.1 k.0 k.1 (subst LeavesText first (read_unsigned-text u16_mod line h))
          second,
    )

-- The classes of what a text's lines give.
abbrev pub Printed : DpiSignature → Type 0
Printed s = 33 ≤ s.classification

cons_line-IsText :
    (c : ℕ) (ls : List (List ℕ))
    → IsText c
    → All (All IsText) ls
    → All (All IsText) (cons_line c ls)
unfolding cons_line
cons_line-IsText c [] h hs = ((h, tt), tt)
cons_line-IsText c (l ∷ ls) h hs = ((h, hs.0), hs.1)

get_lines-IsText : (cs : List ℕ) → All IsText cs → All (All IsText) (get_lines cs)
unfolding get_lines
get_lines-IsText [] h = tt
get_lines-IsText (c ∷ cs) h = elim (Bool-cases (c == b'\n')) [
  | inl e ↦ rw e (tt, get_lines-IsText cs h.1)
  | inr e ↦ rw e (cons_line-IsText c (get_lines cs) h.0 (get_lines-IsText cs h.1))
]

line_signature-Printed : (line : List ℕ) → All IsText line → All Printed (line_signature line)
unfolding line_signature
line_signature-Printed line h = elim (Bool-cases (is_skipped line)) [
  | inl e ↦ rw e tt
  | inr e ↦ rw e (elim (Option-cases (parse_line line)) [
    | inl n ↦ rw n tt
    | inr (s, p) ↦ rw p (parse_line-class line s h p, tt)
  ])
]

pub push_lines-Printed :
    (sigs : List DpiSignature) (lines : List (List ℕ))
    → All (All IsText) lines
    → All Printed sigs
    → All Printed (push_lines sigs lines)
unfolding push_lines
push_lines-Printed sigs [] h p = p
push_lines-Printed sigs (line ∷ lines) h p =
    push_lines-Printed (sigs ++ line_signature line) lines h.1
      (All-append Printed sigs (line_signature line) p (line_signature-Printed line h.0))

pub push_text-Printed :
    (sigs : List DpiSignature) (text : List ℕ)
    → All IsText text
    → All Printed sigs
    → All Printed (push_lines sigs (get_lines text))
push_text-Printed sigs text h p =
    push_lines-Printed sigs (get_lines text) (get_lines-IsText text h) p
