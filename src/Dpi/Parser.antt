-- ===== src/Dpi/Parser.antt =====
-- The formatted input of `load_signatures`: what `iss >> x` does in the "C" locale for each of the
-- types that the source extracts. A text is its list of bytes.
use virtual_service_gateway.Common.{
  ℕ, ◌+◌, ◌-◌, ◌*◌, ◌%◌, Bool, true, ◌&&◌, ◌||◌, List, [], ◌∷◌, Option, none, some, leb, ltb, ◌==◌,
  if◌then◌else◌, u16_mod, u32_mod,
}
use virtual_service_gateway.Dpi.Signature.{DpiSignature}

infixl 5 ◌>>=◌
abbrev pub ◌>>=◌ {ℓ κ} : {A : Type ℓ} {B : Type κ} → Option A → (A → Option B) → Option B
none >>= f = none
some a >>= f = f a

unfoldable pub is_space : ℕ → Bool
is_space c = c == 32 || (leb 9 c && leb c 13)

unfoldable pub is_digit : ℕ → Bool
is_digit c = leb b'0' c && leb c b'9'

-- Every extraction skips leading white space.
unfoldable pub skip_space : List ℕ → List ℕ
skip_space [] = []
skip_space (c ∷ cs) = if is_space c then skip_space cs else c ∷ cs

-- The longest run of digits, on top of the value so far, and what follows it.
unfoldable pub digits_from : ℕ → List ℕ → ℕ × List ℕ
digits_from acc [] = (acc, [])
digits_from acc (c ∷ cs) =
    if is_digit c then digits_from (acc * 10 + (c - b'0')) cs else (acc, c ∷ cs)

-- At least one digit, and a value below `modulus`.
unfoldable pub magnitude : ℕ → List ℕ → Option (ℕ × List ℕ)
magnitude modulus [] = none
magnitude modulus (c ∷ cs) =
    if is_digit c
    then (let (v, rest) = digits_from 0 (c ∷ cs) in if ltb v modulus then some (v, rest) else none)
    else none

-- After the sign: a minus negates modulo the type's size.
unfoldable pub signed_magnitude : ℕ → List ℕ → Option (ℕ × List ℕ)
signed_magnitude modulus [] = none
signed_magnitude modulus (c ∷ cs) =
    if c == b'-'
    then (do (v, rest) ← magnitude modulus cs; some ((modulus - v) % modulus, rest))
    else if c == b'+'
    then magnitude modulus cs
    else magnitude modulus (c ∷ cs)

-- `>>` into a `uint16_t` or `uint32_t`.
unfoldable pub read_unsigned : ℕ → List ℕ → Option (ℕ × List ℕ)
read_unsigned modulus cs = signed_magnitude modulus (skip_space cs)

-- `>>` into a `uint8_t`, which is an `unsigned char`: one character, and no number.
unfoldable pub first_of_text : List ℕ → Option (ℕ × List ℕ)
first_of_text [] = none
first_of_text (c ∷ cs) = some (c, cs)

unfoldable pub read_uint8 : List ℕ → Option (ℕ × List ℕ)
read_uint8 cs = first_of_text (skip_space cs)

-- `>>` into a string: the run up to the next white space, at least one byte.
unfoldable pub word_from : List ℕ → List ℕ × List ℕ
word_from [] = ([], [])
word_from (c ∷ cs) =
    if is_space c then ([], c ∷ cs) else (let (w, rest) = word_from cs in (c ∷ w, rest))

unfoldable pub nonempty_word : List ℕ × List ℕ → Option (List ℕ × List ℕ)
nonempty_word ([], rest) = none
nonempty_word (c ∷ w, rest) = some (c ∷ w, rest)

unfoldable pub read_word : List ℕ → Option (List ℕ × List ℕ)
read_word cs = nonempty_word (word_from (skip_space cs))

-- `iss >> sig_id >> class_val >> pattern >> offset >> depth`, and the signature made of it.
unfoldable pub parse_line : List ℕ → Option DpiSignature
parse_line line = do
  (sig_id, rest) ← read_unsigned u16_mod line
  (class_val, rest) ← read_uint8 rest
  (pattern, rest) ← read_word rest
  (offset, rest) ← read_unsigned u32_mod rest
  (depth, rest) ← read_unsigned u32_mod rest
  some (record {
    signature_id = sig_id;
    classification = class_val;
    pattern = pattern;
    offset = offset;
    depth = depth;
    stateless = true;
    priority = 0;
  })
