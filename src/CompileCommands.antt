-- ===== src/CompileCommands.antt =====
-- src/analysis/CompileCommands.cpp: the command lines of a compilation database. Reading the JSON
-- file and normalising paths through the file system is left out.
pub mod Quote
pub mod Strip
use coretrace_stack_analyzer.Prelude.{
  ℕ, Bool, true, false, ◌&&◌, ◌||◌, List, [], ◌∷◌, ◌++◌, leb, ltb, ◌==◌, length, if◌then◌else◌,
}
use coretrace_stack_analyzer.Prelude.Text.{Text, codes, text_eq}

pub data QuoteState : Type 0 where
  normal single_quote double_quote : QuoteState

abbrev pub apostrophe : ℕ
apostrophe = 39

abbrev pub backslash : ℕ
backslash = 92

-- `std::isspace` in the C locale.
pub is_blank : ℕ → Bool
is_blank c = c == 32 || (leb 9 c && leb c 13)

-- A token that has begun is pushed.
pub flush : Text → List Text → List Text
flush [] tokens = tokens
flush (c ∷ current) tokens = (c ∷ current) ∷ tokens

-- The loop of `tokenizeCommandLine`; the flag says that the byte in front was a `\`, which stands
-- for itself at the end of the command.
pub tokenize_loop : QuoteState → Bool → Text → Text → List Text
unfolding flush is_blank
tokenize_loop state false current [] = flush current []
tokenize_loop state true current [] = flush (current ++ backslash ∷ []) []
tokenize_loop state true current (c ∷ command) =
    tokenize_loop state false (current ++ c ∷ []) command
tokenize_loop normal false current (c ∷ command) =
    let ended = flush current (tokenize_loop normal false [] command) in
    let single = tokenize_loop single_quote false current command in
    let double = tokenize_loop double_quote false current command in
    let escape = tokenize_loop normal true current command in
    let plain = tokenize_loop normal false (current ++ c ∷ []) command in
    if is_blank c
    then ended
    else if c == apostrophe
    then single
    else if c == b'"'
    then double
    else if c == backslash
    then escape
    else plain
tokenize_loop single_quote false current (c ∷ command) =
    let closed = tokenize_loop normal false current command in
    let plain = tokenize_loop single_quote false (current ++ c ∷ []) command in
    if c == apostrophe then closed else plain
tokenize_loop double_quote false current (c ∷ command) =
    let closed = tokenize_loop normal false current command in
    let escape = tokenize_loop double_quote true current command in
    let plain = tokenize_loop double_quote false (current ++ c ∷ []) command in
    if c == b'"' then closed else if c == backslash then escape else plain

unfoldable pub tokenize_command_line : Text → List Text
unfolding tokenize_loop
tokenize_command_line command = tokenize_loop normal false [] command

-- `arg.rfind(prefix, 0) == 0`.
unfoldable pub begins_with : Text → Text → Bool
begins_with [] arg = true
begins_with (c ∷ prefix) [] = false
begins_with (c ∷ prefix) (d ∷ arg) = c == d && begins_with prefix arg

-- What `stripOutputAndDependencyArgs` does with an argument.
pub data ArgAction : Type 0 where
  drop_with_next drop keep : ArgAction

pub arg_action : Text → ArgAction
unfolding begins_with text_eq
arg_action arg =
    if text_eq arg (codes "-o") || text_eq arg (codes "--output")
    then drop_with_next
    else if ltb 2 (length arg) && begins_with (codes "-o") arg
    then drop
    else if text_eq arg (codes "-MF") || text_eq arg (codes "-MT") || text_eq arg (codes "-MQ")
    then drop_with_next
    else if ltb 3 (length arg)
        && (begins_with (codes "-MF") arg
            || begins_with (codes "-MT") arg
            || begins_with (codes "-MQ") arg)
    then drop
    else if text_eq arg (codes "-M")
        || text_eq arg (codes "-MM")
        || text_eq arg (codes "-MD")
        || text_eq arg (codes "-MMD")
        || text_eq arg (codes "-MG")
        || text_eq arg (codes "-MP")
    then drop
    else keep

-- The loop; the flag says that this argument belongs to the one in front.
pub strip_loop : Bool → List Text → List Text
unfolding arg_action
strip_loop skip [] = []
strip_loop true (arg ∷ args) = strip_loop false args
strip_loop false (arg ∷ args) = elim (arg_action arg) [
  | drop_with_next ↦ strip_loop true args
  | drop ↦ strip_loop false args
  | keep ↦ arg ∷ strip_loop false args
]

unfoldable pub strip_output_and_dependency_args : List Text → List Text
unfolding strip_loop
strip_output_and_dependency_args args = strip_loop false args
