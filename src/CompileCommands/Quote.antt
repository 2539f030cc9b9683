-- ===== src/CompileCommands/Quote.antt =====
-- Quoting arguments and taking the command line apart again.
use coretrace_stack_analyzer.Prelude.{◌≡◌, ◌≢◌, refl, ap, ◌∙◌, false, List, [], ◌∷◌, ◌++◌, ◌==◌}
use mathlib.Core.List.{append-nil, append_assoc}
use coretrace_stack_analyzer.Prelude.Text.{Text}
use coretrace_stack_analyzer.CompileCommands.{
  normal, single_quote, apostrophe, flush, tokenize_loop, tokenize_command_line, is_blank,
}

-- Each argument between apostrophes, with a space behind it.
abbrev pub command_line : List Text → Text
command_line [] = []
command_line (arg ∷ args) = apostrophe ∷ (arg ++ apostrophe ∷ 32 ∷ command_line args)

abbrev pub HasNoApostrophe : Text → Type 0
HasNoApostrophe [] = Unit
HasNoApostrophe (c ∷ arg) = ((c == apostrophe) ≡ false) × HasNoApostrophe arg

-- An argument with a byte in it and no apostrophe.
abbrev pub IsQuotable : Text → Type 0
IsQuotable arg = (arg ≢ []) × HasNoApostrophe arg

abbrev pub AllQuotable : List Text → Type 0
AllQuotable [] = Unit
AllQuotable (arg ∷ args) = IsQuotable arg × AllQuotable args

flush-cons : (arg : Text) (tokens : List Text) → arg ≢ [] → flush arg tokens ≡ arg ∷ tokens
unfolding flush
flush-cons [] tokens h = absurd (h refl)
flush-cons (c ∷ arg) tokens h = refl

tokenize-quoted :
    (current arg command : Text)
    → HasNoApostrophe arg
    → tokenize_loop single_quote false current (arg ++ apostrophe ∷ command)
      ≡ tokenize_loop normal false (current ++ arg) command
unfolding tokenize_loop
tokenize-quoted current [] command h = rw (append-nil current)
tokenize-quoted current (c ∷ arg) command h = rw (h.0) (
    tokenize-quoted (current ++ c ∷ []) arg command h.1
    ∙ ap (λ t. tokenize_loop normal false t command) (append_assoc current (c ∷ []) arg))

tokenize-space :
    (current command : Text)
    → tokenize_loop normal false current (32 ∷ command)
      ≡ flush current (tokenize_loop normal false [] command)
unfolding tokenize_loop is_blank
tokenize-space current command = refl

tokenize-open :
    (command : Text)
    → tokenize_loop normal false [] (apostrophe ∷ command)
      ≡ tokenize_loop single_quote false [] command
unfolding tokenize_loop is_blank
tokenize-open command = refl

tokenize-nil : tokenize_loop normal false [] [] ≡ []
unfolding tokenize_loop flush
tokenize-nil = refl

-- `tokenizeCommandLine` takes a command line of quoted arguments apart into these arguments, where
-- each argument has a byte and no apostrophe.
pub tokenize_command_line-command_line :
    (args : List Text) → AllQuotable args → tokenize_command_line (command_line args) ≡ args
unfolding tokenize_command_line
tokenize_command_line-command_line [] h = tokenize-nil
tokenize_command_line-command_line (arg ∷ args) h =
    tokenize-open (arg ++ apostrophe ∷ 32 ∷ command_line args)
    ∙ tokenize-quoted [] arg (32 ∷ command_line args) h.0.1
    ∙ tokenize-space arg (command_line args)
    ∙ flush-cons arg _ h.0.0
    ∙ ap (λ rest. arg ∷ rest) (tokenize_command_line-command_line args h.1)

-- A quoted argument without a byte, in front of arguments that have a byte and no apostrophe, is
-- lost: only these are what the command line is taken apart into.
pub tokenize_empty_argument :
    (args : List Text) → AllQuotable args → tokenize_command_line (command_line ([] ∷ args)) ≡ args
unfolding tokenize_command_line
tokenize_empty_argument args h =
    tokenize-open (apostrophe ∷ 32 ∷ command_line args)
    ∙ tokenize-quoted [] [] (32 ∷ command_line args) tt
    ∙ tokenize-space [] (command_line args)
    ∙ (unfold flush in tokenize_command_line-command_line args h)
