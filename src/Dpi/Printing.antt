-- ===== src/Dpi/Printing.antt =====
-- The text of a signature file, as config/dpi_signatures.conf lays it out: comments, blank lines, and lines
-- with the columns sig_id, class_val, pattern, offset and depth; and lines that start with a character behind the digits.
use virtual_service_gateway.Common.{
  ℕ, ◌+◌, ◌*◌, ◌^◌, ◌<◌, ◌≤◌, ◌≢◌, true, List, [], ◌∷◌, ◌++◌, map, All, length,
}
use virtual_service_gateway.Dpi.Signature.{DpiSignature}

pub data Blank : Type 0 where
  space : Blank
  tab : Blank

abbrev pub blank_code : Blank → ℕ
blank_code space = 32
blank_code tab = 9

-- The characters between two columns: at least one.
abbrev pub gap : Blank × List Blank → List ℕ
gap (b, bs) = map blank_code (b ∷ bs)

-- A decimal numeral, of its digits from the left.
abbrev pub numeral : List ℕ → List ℕ
numeral ds = map (λ d. b'0' + d) ds

abbrev pub number : List ℕ → ℕ
number [] = 0
number (d ∷ ds) = d * 10 ^ length ds + number ds

-- A numeral of a number that fits a type with that many values.
abbrev pub IsNumeral : ℕ → List ℕ → Type 0
IsNumeral modulus ds = All (λ d. d < 10) ds × (ds ≢ []) × (number ds < modulus)

-- The columns of a line, with what stands between them and at the end.
pub record Columns : Type 0 where
  pub sig_id : List ℕ
  pub gap_1 : Blank × List Blank
  pub class_val : ℕ
  pub gap_2 : List Blank
  pub pattern : List ℕ
  pub gap_3 : Blank × List Blank
  pub offset : List ℕ
  pub gap_4 : Blank × List Blank
  pub depth : List ℕ
  pub gap_5 : List Blank

-- Numerals in range; a class of one character, and a pattern, of codes above that of a space.
pub record IsWellFormed (e : Columns) : Type 0 where
  pub id : IsNumeral 65536 e.sig_id
  pub class : 33 ≤ e.class_val
  pub solid : All (λ c. 33 ≤ c) e.pattern
  pub some_pattern : e.pattern ≢ []
  pub offset : IsNumeral 4294967296 e.offset
  pub depth : IsNumeral 4294967296 e.depth

abbrev pub columns_text : Columns → List ℕ
columns_text e =
    numeral e.sig_id
    ++ (gap e.gap_1
        ++ e.class_val
          ∷ (map blank_code e.gap_2
              ++ (e.pattern
                  ++ (gap e.gap_3
                      ++ (numeral e.offset
                          ++ (gap e.gap_4 ++ (numeral e.depth ++ map blank_code e.gap_5)))))))

-- The signature that the columns stand for: the class is the code of its character.
abbrev pub columns_signature : Columns → DpiSignature
columns_signature e = record {
  signature_id = number e.sig_id;
  classification = e.class_val;
  pattern = e.pattern;
  offset = number e.offset;
  depth = number e.depth;
  stateless = true;
  priority = 0;
}

pub data Line : Type 0 where
  comment : List ℕ → Line
  nothing : Line
  columns : Columns → Line
  unreadable : (first : ℕ) → List ℕ → Line

abbrev pub line_text : Line → List ℕ
line_text (comment text) = b'#' ∷ text
line_text nothing = []
line_text (columns e) = columns_text e
line_text (unreadable first text) = first ∷ text

-- Each line ends with a newline.
abbrev pub file_text : List Line → List ℕ
file_text [] = []
file_text (l ∷ ls) = line_text l ++ b'\n' ∷ file_text ls

abbrev pub listed : List Line → List DpiSignature
listed [] = []
listed (columns e ∷ ls) = columns_signature e ∷ listed ls
listed (l ∷ ls) = listed ls

-- A line that holds no newline of its own.
abbrev pub IsLine : Line → Type 0
IsLine (comment text) = All (λ c. c ≢ b'\n') text
IsLine nothing = Unit
IsLine (columns e) = IsWellFormed e
IsLine (unreadable first text) = (b'9' < first) × All (λ c. c ≢ b'\n') text
