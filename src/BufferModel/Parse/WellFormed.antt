-- ===== src/BufferModel/Parse/WellFormed.antt =====
-- What holds of every rule that a rule file gives.
use coretrace_stack_analyzer.Prelude.{
  ℕ, suc, ◌≤◌, ◌≡◌, arith, Bool, false, true, Option, some, List, [], ◌∷◌, ◌++◌, Bool-cases,
  Option-cases, inl, inr, if◌then◌else◌,
}
use coretrace_stack_analyzer.Prelude.Text.{Text, codes, text_eq}
use coretrace_stack_analyzer.BufferModel.Parse.{
  unsigned_max, parse_unsigned_index, BufferWriteRule, has_unsupported_bracket_class_syntax,
  ParseError, LineResult, no_rule, rule, bad, bounded_rule, unbounded_rule, bounded_arguments,
  unbounded_arguments, rule_of_tokens, tokens_of, trim_copy, cut_comment, parse_line, parse_lines,
  parse_buffer_write_model,
}
use coretrace_stack_analyzer.BufferModel.Parse.Index.{parse_unsigned_index_bounded}

-- No character class in the pattern, and 32-bit argument indices.
abbrev pub IsWellFormed : BufferWriteRule → Type 0
IsWellFormed r =
    (has_unsupported_bracket_class_syntax r.function_pattern ≡ false)
    × (r.dest_arg_index ≤ unsigned_max)
    × (r.size_arg_index ≤ unsigned_max)

abbrev GivesWellFormed : LineResult → Type 0
GivesWellFormed no_rule = Unit
GivesWellFormed (rule r) = IsWellFormed r
GivesWellFormed (bad e) = Unit

if_GivesWellFormed :
    (t : Bool) (a b : LineResult)
    → GivesWellFormed a
    → GivesWellFormed b
    → GivesWellFormed (if t then a else b)
if_GivesWellFormed true a b h k = h
if_GivesWellFormed false a b h k = k

bounded_rule-GivesWellFormed :
    (pattern dest size : Text) → GivesWellFormed (bounded_rule pattern dest size)
unfolding bounded_rule
bounded_rule-GivesWellFormed pattern dest size =
    elim (Bool-cases (has_unsupported_bracket_class_syntax pattern)) [
      | inl class ↦ rw class tt
      | inr plain ↦ elim (Option-cases (parse_unsigned_index dest)) [
        | inl refused ↦ rw (plain, refused) tt
        | inr (d, at_d) ↦ elim (Option-cases (parse_unsigned_index size)) [
          | inl refused ↦ rw (plain, at_d, refused) tt
          | inr (s, at_s) ↦
              rw (plain, at_d, at_s)
                (
                  plain,
                  parse_unsigned_index_bounded dest d at_d,
                  parse_unsigned_index_bounded size s at_s,
                )
        ]
      ]
    ]

unbounded_rule-GivesWellFormed :
    (pattern dest : Text) → GivesWellFormed (unbounded_rule pattern dest)
unfolding unbounded_rule
unbounded_rule-GivesWellFormed pattern dest =
    elim (Bool-cases (has_unsupported_bracket_class_syntax pattern)) [
      | inl class ↦ rw class tt
      | inr plain ↦ elim (Option-cases (parse_unsigned_index dest)) [
        | inl refused ↦ rw (plain, refused) tt
        | inr (d, at_d) ↦
            rw (plain, at_d) (plain, parse_unsigned_index_bounded dest d at_d, omega arith)
      ]
    ]

bounded_arguments-GivesWellFormed : (args : List Text) → GivesWellFormed (bounded_arguments args)
unfolding bounded_arguments
bounded_arguments-GivesWellFormed [] = tt
bounded_arguments-GivesWellFormed (a ∷ []) = tt
bounded_arguments-GivesWellFormed (a ∷ b ∷ []) = tt
bounded_arguments-GivesWellFormed (a ∷ b ∷ c ∷ []) = bounded_rule-GivesWellFormed a b c
bounded_arguments-GivesWellFormed (a ∷ b ∷ c ∷ d ∷ args) = tt

unbounded_arguments-GivesWellFormed :
    (args : List Text) → GivesWellFormed (unbounded_arguments args)
unfolding unbounded_arguments
unbounded_arguments-GivesWellFormed [] = tt
unbounded_arguments-GivesWellFormed (a ∷ []) = tt
unbounded_arguments-GivesWellFormed (a ∷ b ∷ []) = unbounded_rule-GivesWellFormed a b
unbounded_arguments-GivesWellFormed (a ∷ b ∷ c ∷ args) = tt

rule_of_tokens-GivesWellFormed : (tokens : List Text) → GivesWellFormed (rule_of_tokens tokens)
unfolding rule_of_tokens
rule_of_tokens-GivesWellFormed [] = tt
rule_of_tokens-GivesWellFormed (action ∷ args) =
    if_GivesWellFormed (text_eq action (codes "bounded_write")) _ _
      (bounded_arguments-GivesWellFormed args)
      (if_GivesWellFormed (text_eq action (codes "unbounded_write")) _ _
        (unbounded_arguments-GivesWellFormed args) tt)

parse_line-GivesWellFormed : (line : Text) → GivesWellFormed (parse_line line)
unfolding parse_line
parse_line-GivesWellFormed line =
    rule_of_tokens-GivesWellFormed (tokens_of (trim_copy (cut_comment line)))

abbrev pub AllWellFormed : List BufferWriteRule → Type 0
AllWellFormed [] = Unit
AllWellFormed (r ∷ rules) = IsWellFormed r × AllWellFormed rules

append-AllWellFormed :
    (rules : List BufferWriteRule) (r : BufferWriteRule)
    → AllWellFormed rules
    → IsWellFormed r
    → AllWellFormed (rules ++ r ∷ [])
append-AllWellFormed [] r all h = (h, tt)
append-AllWellFormed (x ∷ rules) r all h = (all.0, append-AllWellFormed rules r all.1 h)

parse_lines-AllWellFormed :
    (lines : List Text) (line_no : ℕ) (rules : List BufferWriteRule)
    → AllWellFormed rules
    → AllWellFormed (parse_lines lines line_no rules).0
unfolding parse_lines
parse_lines-AllWellFormed [] line_no rules all = all
parse_lines-AllWellFormed (line ∷ lines) line_no rules all =
    go (parse_lines-AllWellFormed lines (suc line_no)) (parse_line line)
      (parse_line-GivesWellFormed line)
  where
    go :
        ((next : List BufferWriteRule)
          → AllWellFormed next
          → AllWellFormed (parse_lines lines (suc line_no) next).0)
        → (result : LineResult) → GivesWellFormed result
        → AllWellFormed
            (elim result as (λ _. List BufferWriteRule × Option (ParseError × ℕ)) [
              | no_rule ↦ parse_lines lines (suc line_no) rules
              | rule r ↦ parse_lines lines (suc line_no) (rules ++ r ∷ [])
              | bad e ↦ (rules, some (e, suc line_no))
            ]).0
    go again no_rule h = again rules all
    go again (rule r) h = again (rules ++ r ∷ []) (append-AllWellFormed rules r all h)
    go again (bad e) h = all

-- Whatever the lines of the file are, every rule that `parseBufferWriteModel` leaves in the model,
-- after an error too, has no character class in its pattern and 32-bit argument indices.
pub parse_buffer_write_model-AllWellFormed :
    (lines : List Text) → AllWellFormed (parse_buffer_write_model lines).0
unfolding parse_buffer_write_model
parse_buffer_write_model-AllWellFormed lines = parse_lines-AllWellFormed lines 0 [] tt
