-- ===== src/Report.antt =====
-- `jsonEscape` of src/report/ReportSerialization.cpp: a text between the quotes of a JSON string.
pub mod RoundTrip
use coretrace_stack_analyzer.Prelude.{
  ℕ, ◌+◌, ◌/◌, ◌%◌, List, [], ◌∷◌, ◌++◌, ltb, ◌==◌, if◌then◌else◌,
}
use coretrace_stack_analyzer.Prelude.Text.{Text}

abbrev pub reverse_solidus : ℕ
reverse_solidus = 92

abbrev pub quote : ℕ
quote = 34

-- A lower-case hexadecimal digit.
unfoldable pub hex_digit : ℕ → ℕ
hex_digit d = if ltb d 10 then 48 + d else 87 + d

unfoldable pub escape_byte : ℕ → Text
unfolding hex_digit
escape_byte c =
    if c == reverse_solidus
    then reverse_solidus ∷ reverse_solidus ∷ []
    else if c == quote
    then reverse_solidus ∷ quote ∷ []
    else if c == 10
    then reverse_solidus ∷ 110 ∷ []
    else if c == 13
    then reverse_solidus ∷ 114 ∷ []
    else if c == 9
    then reverse_solidus ∷ 116 ∷ []
    else if ltb c 32
    then reverse_solidus ∷ 117 ∷ 48 ∷ 48 ∷ hex_digit (c / 16) ∷ hex_digit (c % 16) ∷ []
    else c ∷ []

unfoldable pub json_escape : Text → Text
unfolding escape_byte
json_escape [] = []
json_escape (c ∷ text) = escape_byte c ++ json_escape text
