-- ===== src/Dpi/RoundTrip.antt =====
-- `load_signatures` of src/dpi/classifier_pipeline.cpp on a printed signature file.
use virtual_service_gateway.Common.{
  ℕ, none, inl, inr, Bool-cases, ◌+◌, ◌<◌, ◌≤◌, ◌≡◌, ◌≢◌, refl, ap, sym, ◌∙◌, true, false, List, [],
  ◌∷◌, ◌++◌, map, All, All-append, some, arith, u16_mod, u32_mod, ==_false,
}
use mathlib.Core.List.{append_assoc, append-nil}
use virtual_service_gateway.Dpi.Signature.{DpiSignature}
use virtual_service_gateway.Dpi.Classifier.{DpiClassifier}
use virtual_service_gateway.Dpi.Parser.{
  is_digit, parse_line, read_unsigned, signed_magnitude, magnitude, skip_space,
}
use virtual_service_gateway.Dpi.Loader.{
  Sorter, cons_line, get_lines, is_skipped, line_signature, push_lines, load_signatures,
}
use virtual_service_gateway.Dpi.Printing.{
  Blank, space, tab, blank_code, gap, numeral, Columns, IsWellFormed, columns_text,
  columns_signature, Line, comment, nothing, columns, unreadable, line_text, file_text, listed,
  IsLine,
}
use virtual_service_gateway.Dpi.Extraction.{
  is_space-solid, read_unsigned-numeral, read_uint8-solid, read_word-solid, gap-EndsNumeral,
  blanks-EndsNumeral,
}

parse_line-columns :
    (e : Columns) → IsWellFormed e → parse_line (columns_text e) ≡ some (columns_signature e)
unfolding parse_line
parse_line-columns e h =
    let after_depth = map blank_code e.gap_5 in
    let after_offset = gap e.gap_4 ++ (numeral e.depth ++ after_depth) in
    let after_pattern = numeral e.offset ++ after_offset in
    let after_class = map blank_code e.gap_2 ++ (e.pattern ++ (gap e.gap_3 ++ after_pattern)) in
    let after_id = gap e.gap_1 ++ e.class_val ∷ after_class in
    rw
      (
        read_unsigned-numeral u16_mod [] e.sig_id after_id h.id
            (gap-EndsNumeral e.gap_1 (e.class_val ∷ after_class)),
        read_uint8-solid (e.gap_1.0 ∷ e.gap_1.1) e.class_val after_class h.class,
        read_word-solid e.gap_2 e.pattern e.gap_3 after_pattern h.solid h.some_pattern,
        read_unsigned-numeral u32_mod (e.gap_3.0 ∷ e.gap_3.1) e.offset after_offset h.offset
            (gap-EndsNumeral e.gap_4 (numeral e.depth ++ after_depth)),
        read_unsigned-numeral u32_mod (e.gap_4.0 ∷ e.gap_4.1) e.depth after_depth h.depth
            (blanks-EndsNumeral e.gap_5),
      )
      refl

-- A character that does not end a line.
abbrev Inside : ℕ → Type 0
Inside c = c ≢ b'\n'

numeral-Inside : (ds : List ℕ) → All Inside (numeral ds)
numeral-Inside [] = tt
numeral-Inside (d ∷ ds) = (λ e. omega arith, numeral-Inside ds)

blanks-Inside : (bs : List Blank) → All Inside (map blank_code bs)
blanks-Inside [] = tt
blanks-Inside (space ∷ bs) = (λ e. omega arith, blanks-Inside bs)
blanks-Inside (tab ∷ bs) = (λ e. omega arith, blanks-Inside bs)

solid-Inside : (c : ℕ) → 33 ≤ c → Inside c
solid-Inside c h e = omega arith

word-Inside : (w : List ℕ) → All (λ c. 33 ≤ c) w → All Inside w
word-Inside [] h = tt
word-Inside (c ∷ w) h = (solid-Inside c h.0, word-Inside w h.1)

columns_text-Inside : (e : Columns) → IsWellFormed e → All Inside (columns_text e)
columns_text-Inside e h =
    let both = All-append Inside in
    let spaces = λ (g : Blank × List Blank). blanks-Inside (g.0 ∷ g.1) in
    both (numeral e.sig_id) _ (numeral-Inside e.sig_id) (
      both (gap e.gap_1) _ (spaces e.gap_1) (
        solid-Inside e.class_val h.class,
        both (map blank_code e.gap_2) _ (blanks-Inside e.gap_2) (
            both e.pattern _ (word-Inside e.pattern h.solid) (
              both (gap e.gap_3) _ (spaces e.gap_3) (
                both (numeral e.offset) _ (numeral-Inside e.offset) (
                  both (gap e.gap_4) _ (spaces e.gap_4)
                    (both (numeral e.depth) _ (numeral-Inside e.depth) (blanks-Inside e.gap_5)))))),
      ))

line_text-Inside : (l : Line) → IsLine l → All Inside (line_text l)
line_text-Inside (comment text) h = (λ e. omega arith, h)
line_text-Inside nothing h = tt
line_text-Inside (columns e) h = columns_text-Inside e h
line_text-Inside (unreadable first text) h = (λ e. omega (arith, h.0), h.1)

get_lines-line :
    (line rest : List ℕ)
    → All Inside line
    → get_lines (line ++ b'\n' ∷ rest) ≡ line ∷ get_lines rest
unfolding get_lines cons_line
get_lines-line [] rest h = refl
get_lines-line (c ∷ line) rest h = rw (==_false c b'\n' (h.0), get_lines-line line rest h.1) refl

get_lines-file_text : (ls : List Line) → All IsLine ls → get_lines (file_text ls) ≡ map line_text ls
unfolding get_lines
get_lines-file_text [] h = refl
get_lines-file_text (l ∷ ls) h =
    get_lines-line (line_text l) (file_text ls) (line_text-Inside l h.0)
    ∙ ap (◌∷◌ (line_text l)) (get_lines-file_text ls h.1)

is_skipped-numeral : (ds rest : List ℕ) → ds ≢ [] → is_skipped (numeral ds ++ rest) ≡ false
unfolding is_skipped
is_skipped-numeral [] rest h = absurd (h refl)
is_skipped-numeral (d ∷ ds) rest h = ==_false (b'0' + d) b'#' (λ e. omega arith)

is_digit-behind : (c : ℕ) → b'9' < c → is_digit c ≡ false
unfolding is_digit
is_digit-behind c h = ground arith

parse_line-unreadable :
    (first : ℕ) (text : List ℕ) → IsLine (unreadable first text) → parse_line (first ∷ text) ≡ none
unfolding parse_line read_unsigned signed_magnitude magnitude skip_space
parse_line-unreadable first text h =
    rw
      (
        is_space-solid first (omega (arith, h.0)),
        ==_false first b'-' (λ e. omega (arith, h.0)),
        ==_false first b'+' (λ e. omega (arith, h.0)),
        is_digit-behind first h.0,
      )
      refl

line_signature-unreadable :
    (first : ℕ) (text : List ℕ)
    → IsLine (unreadable first text)
    → line_signature (first ∷ text) ≡ []
unfolding line_signature
line_signature-unreadable first text h = elim (Bool-cases (is_skipped (first ∷ text))) [
  | inl e ↦ rw e refl
  | inr e ↦ rw (e, parse_line-unreadable first text h) refl
]

-- What one line adds to the signatures.
line_signature-line : (l : Line) → IsLine l → line_signature (line_text l) ≡ listed (l ∷ [])
unfolding line_signature is_skipped
line_signature-line (comment text) h = refl
line_signature-line nothing h = refl
line_signature-line (columns e) h =
    rw (is_skipped-numeral e.sig_id _ h.id.1, parse_line-columns e h) refl
line_signature-line (unreadable first text) h = line_signature-unreadable first text h

listed-cons : (l : Line) (ls : List Line) → listed (l ∷ []) ++ listed ls ≡ listed (l ∷ ls)
listed-cons (comment text) ls = refl
listed-cons nothing ls = refl
listed-cons (columns e) ls = refl
listed-cons (unreadable first text) ls = refl

push_lines-listed :
    (sigs : List DpiSignature) (ls : List Line)
    → All IsLine ls
    → push_lines sigs (map line_text ls) ≡ sigs ++ listed ls
unfolding push_lines
push_lines-listed sigs [] h = sym (append-nil sigs)
push_lines-listed sigs (l ∷ ls) h =
    push_lines-listed (sigs ++ line_signature (line_text l)) ls h.1
    ∙ ap (λ s. sigs ++ s ++ listed ls) (line_signature-line l h.0)
    ∙ append_assoc sigs (listed (l ∷ [])) (listed ls)
    ∙ ap (◌++◌ sigs) (listed-cons l ls)

-- Loading a printed file, each line with its newline, of comments, blank lines, lines with columns, whose numerals are in the range of their
-- types and whose class is one character, and lines that start with a character behind the digits: it succeeds, and
-- the signatures become those that were there followed by one for each line with columns, sorted by falling
-- priority, each with the numbers of its numerals, its pattern, and the code of its class's character;
-- nothing else changes.
pub load_signatures-file_text :
    (sorter : Sorter) (d : DpiClassifier) (ls : List Line)
    → All IsLine ls
    → load_signatures sorter d (some (file_text ls))
      ≡ (record d { signatures = sorter.sort (d.signatures ++ listed ls) }, true)
unfolding load_signatures
load_signatures-file_text sorter d ls h =
    ap (λ sigs. (record d { signatures = sorter.sort sigs }, true))
      (ap (push_lines d.signatures) (get_lines-file_text ls h)
        ∙ push_lines-listed d.signatures ls h)
