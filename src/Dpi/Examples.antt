-- ===== src/Dpi/Examples.antt =====
-- Runs of the classifier on small inputs, and instances of the theorems.
use Prim.Native.Char.{code}
use Prim.Native.String.{String}
use mathlib.Core.Option.{some-injective}
use virtual_service_gateway.Common.{
  ℕ, ◌≡◌, ◌↔◌, ◌≤◌, refl, Bool, true, List, [], ◌∷◌, ◌++◌, none, some, arith, All, replicate, leb,
  ◌||◌, ◌&&◌, length, subst,
}
use virtual_service_gateway.Common.Faults.{ok}
use virtual_service_gateway.Dpi.Signature.{DpiSignature, DpiGuardrails, ResultName, value}
use virtual_service_gateway.Dpi.Matcher.{
  list_eq, bytes_equal, search_from, signature_hits, match_signatures,
}
use virtual_service_gateway.Dpi.Classifier.{
  DpiClassifier, new_classifier, sampled_out, count_result, conclude, classify, replace_signature,
  update_signature, remove_signature,
}
use virtual_service_gateway.Dpi.FirstHit.{FirstHit, match_signatures_iff}
use virtual_service_gateway.Dpi.Invariant.{
  IsValid, EndsValid, new_classifier-IsValid, update_signature-IsValid, classify-IsValid,
}
use virtual_service_gateway.Dpi.Counts.{Reports, classify-Reports}
use virtual_service_gateway.Dpi.Updates.{find_signature, IsUnique, signature_table}
use virtual_service_gateway.Dpi.Parser.{
  is_space, is_digit, skip_space, digits_from, magnitude, signed_magnitude, read_unsigned,
  first_of_text, read_uint8, word_from, nonempty_word, read_word, parse_line,
}
use virtual_service_gateway.Dpi.Loader.{
  cons_line, get_lines, is_skipped, line_signature, push_lines, load_signatures,
}
use virtual_service_gateway.Dpi.Printing.{
  space, tab, Columns, IsWellFormed, Line, comment, nothing, columns, unreadable, file_text, listed,
  IsLine,
}
use virtual_service_gateway.Dpi.RoundTrip.{load_signatures-file_text}
use virtual_service_gateway.Dpi.TextClasses.{IsText}
use virtual_service_gateway.Dpi.Loading.{loaded, loaded_never_classifies}
use virtual_service_gateway.Dpi.Sorting.{insertion_sorter}

abbrev pub codes : String → List ℕ
codes String.[] = []
codes (String.◌∷◌ c s) = code c ∷ codes s

abbrev pub guardrails : DpiGuardrails
guardrails = record {
  timeout_us = 100;
  max_payloads = 0;
  sample_rate = 10;
  degradation_enabled = true;
}

abbrev pub http_signature : DpiSignature
http_signature = record {
  signature_id = 1;
  classification = value ResultName.http;
  pattern = codes "HTTP/1";
  offset = 0;
  depth = 512;
  stateless = true;
  priority = 0;
}

abbrev urgent_signature : DpiSignature
urgent_signature = record http_signature {
  signature_id = 2;
  classification = value ResultName.video_streaming;
  priority = 9;
}

abbrev pub with_http : DpiClassifier
with_http = update_signature (new_classifier guardrails) http_signature

abbrev pub request : List ℕ
request = codes "GET / HTTP/1.1"

request_matches : match_signatures with_http.signatures request 14 ≡ ok (value ResultName.http)
unfolding update_signature replace_signature new_classifier match_signatures signature_hits
    search_from bytes_equal list_eq
request_matches = refl

-- The signature file's lines for classes 1 and 10.
abbrev signature_text : List ℕ
signature_text = codes "# HTTP\n1 1 HTTP/1 0 512\n10 10 M3U8 0 1024\n"

-- The class of the first is the code of the character 1; the second gives no signature.
parsed_lines :
    push_lines [] (get_lines signature_text) ≡ record http_signature { classification = 49 } ∷ []
unfolding push_lines get_lines cons_line line_signature is_skipped parse_line read_unsigned
    signed_magnitude magnitude digits_from skip_space is_space is_digit read_uint8 first_of_text
    read_word nonempty_word word_from
parsed_lines = refl

is_text : List ℕ → Bool
is_text [] = true
is_text (c ∷ cs) = (is_space c || leb 33 c) && is_text cs

is_text-IsText : (cs : List ℕ) → is_text cs ≡ true → All IsText cs
unfolding is_text
is_text-IsText [] e = tt
is_text-IsText (c ∷ cs) e = (ground arith, is_text-IsText cs (ground arith))

signature_text-IsText : All IsText signature_text
unfolding is_text is_space
signature_text-IsText = is_text-IsText signature_text refl

with_http-IsValid : IsValid with_http
with_http-IsValid =
    update_signature-IsValid (new_classifier guardrails) http_signature (omega arith)
      (new_classifier-IsValid guardrails)

match_signatures_iff_example :
    (match_signatures with_http.signatures request 14 ≡ ok 1)
    ↔ FirstHit request 14 1 with_http.signatures
match_signatures_iff_example = match_signatures_iff request 14 with_http.signatures 1 (omega arith)

classify-IsValid_example : EndsValid with_http (classify with_http (some request) 14 7 40)
unfolding update_signature new_classifier
classify-IsValid_example =
    classify-IsValid with_http (some request) 14 7 40
      (λ bytes e. subst (λ b. 14 ≤ length b) (some-injective request bytes e) (omega arith))
      (λ e. omega arith) with_http-IsValid

counted_http : DpiClassifier
counted_http = record with_http { classification_counts = 0 ∷ 1 ∷ replicate 14 0 }

classified : classify with_http (some request) 14 7 40 ≡ ok (counted_http, 1)
unfolding counted_http update_signature replace_signature new_classifier classify sampled_out
    conclude count_result match_signatures signature_hits search_from bytes_equal list_eq
classified = refl

classify-Reports_example : Reports with_http (some request) 14 40 counted_http 1
classify-Reports_example =
    classify-Reports with_http counted_http (some request) 14 7 40 1 classified

ids-IsUnique : IsUnique with_http.signatures
unfolding update_signature replace_signature new_classifier find_signature
ids-IsUnique = (refl, tt)

no_second : find_signature 2 with_http.signatures ≡ none
unfolding update_signature replace_signature new_classifier find_signature
no_second = refl

-- The line `1 1 HTTP/1 0 512`, with two spaces before the offset, a tab before the depth and a space at
-- the end.
abbrev http_columns : Columns
http_columns = record {
  sig_id = 1 ∷ [];
  gap_1 = (space, []);
  class_val = b'1';
  gap_2 = space ∷ [];
  pattern = codes "HTTP/1";
  gap_3 = (space, space ∷ []);
  offset = 0 ∷ [];
  gap_4 = (tab, []);
  depth = 5 ∷ 1 ∷ 2 ∷ [];
  gap_5 = space ∷ [];
}

http_columns-IsWellFormed : IsWellFormed http_columns
http_columns-IsWellFormed = record {
  id = ((omega arith, tt), λ e. cc e, omega arith);
  class = omega arith;
  solid =
      (omega arith, (omega arith, (omega arith, (omega arith, (omega arith, (omega arith, tt))))));
  some_pattern = λ e. cc e;
  offset = ((omega arith, tt), λ e. cc e, omega arith);
  depth = ((omega arith, (omega arith, (omega arith, tt))), λ e. cc e, omega arith);
}

abbrev file_lines : List Line
file_lines =
    comment (codes " HTTP") ∷ columns http_columns ∷ nothing ∷ unreadable b'x' (codes " 1") ∷ []

file_lines-IsLine : All IsLine file_lines
file_lines-IsLine = (
  (
    λ e. omega arith,
    (λ e. omega arith, (λ e. omega arith, (λ e. omega arith, (λ e. omega arith, tt)))),
  ),
  (
    http_columns-IsWellFormed,
    (tt, ((omega arith, (λ e. omega arith, (λ e. omega arith, tt))), tt)),
  ),
)

load_signatures-file_text_example :
    load_signatures insertion_sorter with_http (some (file_text file_lines)) ≡ (
      record with_http {
        signatures = insertion_sorter.sort (with_http.signatures ++ listed file_lines);
      },
      true,
    )
load_signatures-file_text_example =
    load_signatures-file_text insertion_sorter with_http file_lines file_lines-IsLine

test_listed : listed file_lines ≡ record http_signature { classification = 49 } ∷ []
test_listed = refl

signature_table_example :
    (find_signature 2
        (update_signature with_http (record http_signature { signature_id = 2 })).signatures
      ≡ some (record http_signature { signature_id = 2 }))
    × (find_signature 2 (remove_signature with_http 1).signatures
        ≡ find_signature 2 with_http.signatures)
    × IsUnique (update_signature with_http (record http_signature { signature_id = 2 })).signatures
    × IsUnique (remove_signature with_http 1).signatures
signature_table_example =
    signature_table with_http (record http_signature { signature_id = 2 }) 1 2 ids-IsUnique

loaded_match :
    match_signatures (loaded insertion_sorter guardrails signature_text).signatures request 14
    ≡ ok 49
unfolding load_signatures new_classifier insertion_sorter push_lines get_lines cons_line
    line_signature is_skipped parse_line read_unsigned signed_magnitude magnitude digits_from
    skip_space is_space is_digit read_uint8 first_of_text read_word nonempty_word word_from
    match_signatures signature_hits search_from bytes_equal list_eq
loaded_match = refl

loaded_quiet :
    classify (loaded insertion_sorter guardrails signature_text) (some (codes "SSH-2.0")) 7 7 40
    ≡ ok (loaded insertion_sorter guardrails signature_text, 0)
unfolding load_signatures new_classifier insertion_sorter push_lines get_lines cons_line
    line_signature is_skipped parse_line read_unsigned signed_magnitude magnitude digits_from
    skip_space is_space is_digit read_uint8 first_of_text read_word nonempty_word word_from
    match_signatures signature_hits search_from bytes_equal list_eq classify sampled_out conclude
loaded_quiet = refl

loaded_never_classifies_example : ◌≡◌ {A = ℕ} 0 (value ResultName.unknown)
loaded_never_classifies_example =
    loaded_never_classifies insertion_sorter guardrails signature_text (some (codes "SSH-2.0")) 7 7
      40 (loaded insertion_sorter guardrails signature_text) 0 signature_text-IsText loaded_quiet
