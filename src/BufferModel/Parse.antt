-- ===== src/BufferModel/Parse.antt =====
-- `parseBufferWriteModel` on the lines of the file, and the helpers in front of it. Opening the file
-- and splitting it into lines is left out; the error message is the kind of the error and the
-- number of the line.
pub mod Index
pub mod WellFormed
use coretrace_stack_analyzer.Prelude.{
  ℕ, suc, ◌+◌, ◌-◌, ◌*◌, ◌≡◌, Bool, true, false, not, ◌&&◌, ◌||◌, Option, none, some, List, [], ◌∷◌,
  ◌++◌, leb, ltb, ◌==◌, if◌then◌else◌, ◌/◌,
}
use coretrace_stack_analyzer.Prelude.Text.{Text, codes, text_eq}

-- `std::isspace` in the C locale.
is_space : ℕ → Bool
is_space c = c == 32 || (leb 9 c && leb c 13)

drop_spaces : Text → Text
unfolding is_space
drop_spaces [] = []
drop_spaces (c ∷ text) = if is_space c then drop_spaces text else c ∷ text

drop_trailing_spaces : Text → Text
unfolding is_space
drop_trailing_spaces [] = []
drop_trailing_spaces (c ∷ text) = elim (drop_trailing_spaces text) [
  | [] ↦ if is_space c then [] else c ∷ []
  | d ∷ rest ↦ c ∷ d ∷ rest
]

pub trim_copy : Text → Text
unfolding drop_spaces drop_trailing_spaces
trim_copy input = drop_trailing_spaces (drop_spaces input)

abbrev pub unsigned_max : ℕ
unsigned_max = 4294967295

pub is_digit : ℕ → Bool
is_digit c = leb b'0' c && leb c b'9'

-- The loop of `parseUnsignedIndex`, at its `value`.
pub index_loop : ℕ → Text → Option ℕ
unfolding is_digit
index_loop value [] = some value
index_loop value (c ∷ token) =
    let digit = c - b'0' in
    let next = index_loop (value * 10 + digit) token in
    if not (is_digit c)
    then none
    else if ltb ((unsigned_max - digit) / 10) value
    then none
    else next

pub parse_unsigned_index : Text → Option ℕ
unfolding index_loop
parse_unsigned_index [] = none
parse_unsigned_index (c ∷ token) = index_loop 0 (c ∷ token)

pub data BufferWriteRuleKind : Type 0 where
  bounded_write unbounded_write : BufferWriteRuleKind

pub record BufferWriteRule : Type 0 where
  pub function_pattern : Text
  pub dest_arg_index : ℕ
  pub size_arg_index : ℕ
  pub kind : BufferWriteRuleKind

-- The line up to the first `#`.
cut_comment : Text → Text
cut_comment [] = []
cut_comment (c ∷ line) = if c == b'#' then [] else c ∷ cut_comment line

-- The words that `>>` reads: a byte goes in front of the first word if no space follows it.
add_byte : ℕ → Text → List Text → List Text
unfolding is_space
add_byte c [] words = (c ∷ []) ∷ words
add_byte c (d ∷ _) [] = (c ∷ []) ∷ []
add_byte c (d ∷ _) (word ∷ words) =
    if is_space d then (c ∷ []) ∷ word ∷ words else (c ∷ word) ∷ words

tokens_of : Text → List Text
unfolding is_space add_byte
tokens_of [] = []
tokens_of (c ∷ line) = if is_space c then tokens_of line else add_byte c line (tokens_of line)

pub has_unsupported_bracket_class_syntax : Text → Bool
has_unsupported_bracket_class_syntax [] = false
has_unsupported_bracket_class_syntax (c ∷ pattern) =
    c == b'[' || c == b']' || has_unsupported_bracket_class_syntax pattern

pub data ParseError : Type 0 where
  invalid_bounded_write invalid_unbounded_write unsupported_class invalid_index unknown_action :
      ParseError

-- What a line of the file comes to.
pub data LineResult : Type 0 where
  no_rule : LineResult
  rule : BufferWriteRule → LineResult
  bad : ParseError → LineResult

bounded_rule : Text → Text → Text → LineResult
unfolding has_unsupported_bracket_class_syntax parse_unsigned_index
bounded_rule pattern dest size =
    if has_unsupported_bracket_class_syntax pattern
    then bad unsupported_class
    else elim (parse_unsigned_index dest) [
      | none ↦ bad invalid_index
      | some d ↦ elim (parse_unsigned_index size) [
        | none ↦ bad invalid_index
        | some s ↦ rule (record {
          function_pattern = pattern;
          dest_arg_index = d;
          size_arg_index = s;
          kind = bounded_write;
        })
      ]
    ]

unbounded_rule : Text → Text → LineResult
unfolding has_unsupported_bracket_class_syntax parse_unsigned_index
unbounded_rule pattern dest =
    if has_unsupported_bracket_class_syntax pattern
    then bad unsupported_class
    else elim (parse_unsigned_index dest) [
      | none ↦ bad invalid_index
      | some d ↦ rule (record {
        function_pattern = pattern;
        dest_arg_index = d;
        size_arg_index = 0;
        kind = unbounded_write;
      })
    ]

bounded_arguments : List Text → LineResult
unfolding bounded_rule
bounded_arguments (pattern ∷ dest ∷ size ∷ []) = bounded_rule pattern dest size
bounded_arguments arguments = bad invalid_bounded_write

unbounded_arguments : List Text → LineResult
unfolding unbounded_rule
unbounded_arguments (pattern ∷ dest ∷ []) = unbounded_rule pattern dest
unbounded_arguments arguments = bad invalid_unbounded_write

rule_of_tokens : List Text → LineResult
unfolding bounded_arguments unbounded_arguments text_eq
rule_of_tokens [] = no_rule
rule_of_tokens (action ∷ arguments) =
    if text_eq action (codes "bounded_write")
    then bounded_arguments arguments
    else if text_eq action (codes "unbounded_write")
    then unbounded_arguments arguments
    else bad unknown_action

pub parse_line : Text → LineResult
unfolding cut_comment trim_copy tokens_of rule_of_tokens
parse_line line = rule_of_tokens (tokens_of (trim_copy (cut_comment line)))

-- The rules that were read, and the error at which the reading stopped, with its line.
pub parse_lines :
    List Text → ℕ → List BufferWriteRule → List BufferWriteRule × Option (ParseError × ℕ)
unfolding parse_line
parse_lines [] line_no rules = (rules, none)
parse_lines (line ∷ lines) line_no rules = elim (parse_line line) [
  | no_rule ↦ parse_lines lines (suc line_no) rules
  | rule r ↦ parse_lines lines (suc line_no) (rules ++ r ∷ [])
  | bad e ↦ (rules, some (e, suc line_no))
]

unfoldable pub parse_buffer_write_model : List Text → List BufferWriteRule × Option (ParseError × ℕ)
unfolding parse_lines
parse_buffer_write_model lines = parse_lines lines 0 []
