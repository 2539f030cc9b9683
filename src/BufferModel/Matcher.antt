-- ===== src/BufferModel/Matcher.antt =====
-- `BufferWriteRuleMatcher`: the first rule of the model for a callee. The cache of names does not
-- change what is computed and is left out; the demangler is a parameter.
pub mod First
pub mod Fits
use coretrace_stack_analyzer.Prelude.{
  ℕ, Bool, true, false, not, ◌&&◌, ◌||◌, Option, none, some, List, [], ◌∷◌, leb, ◌==◌,
  if◌then◌else◌,
}
use coretrace_stack_analyzer.Prelude.Text.{Text, text_eq}
use coretrace_stack_analyzer.BufferModel.Glob.{star, question, glob_matches}
use coretrace_stack_analyzer.BufferModel.Parse.{
  BufferWriteRuleKind, bounded_write, unbounded_write, BufferWriteRule,
}

pub record NameVariants : Type 0 where
  pub mangled : Text
  pub demangled : Text
  pub demangled_base : Text

-- The name up to the first `(`.
up_to_parenthesis : Text → Text
up_to_parenthesis [] = []
up_to_parenthesis (c ∷ name) = if c == b'(' then [] else c ∷ up_to_parenthesis name

pub names_for : (Text → Text) → Text → NameVariants
unfolding up_to_parenthesis
names_for demangle name = record {
  mangled = name;
  demangled = demangle name;
  demangled_base = up_to_parenthesis (demangle name);
}

pub has_glob : Text → Bool
has_glob [] = false
has_glob (c ∷ pattern) = c == star || c == question || has_glob pattern

-- `a || b` of two runs that may not have ended.
pub or_else : Option Bool → Option Bool → Option Bool
or_else none later = none
or_else (some true) later = some true
or_else (some false) later = later

pub rule_matches_function : BufferWriteRule → NameVariants → Option Bool
unfolding has_glob or_else text_eq glob_matches
rule_matches_function rule names =
    let pattern = rule.function_pattern in
    if not (has_glob pattern)
    then some (
        text_eq pattern names.mangled
        || text_eq pattern names.demangled
        || text_eq pattern names.demangled_base)
    else or_else (glob_matches pattern names.mangled)
        (or_else (glob_matches pattern names.demangled) (glob_matches pattern names.demangled_base))

-- An argument of the rule that the call does not have.
pub out_of_range : BufferWriteRuleKind → BufferWriteRule → ℕ → Bool
out_of_range bounded_write rule arg_count =
    leb arg_count rule.dest_arg_index || leb arg_count rule.size_arg_index
out_of_range unbounded_write rule arg_count = leb arg_count rule.dest_arg_index

pub index_out_of_range : BufferWriteRule → ℕ → Bool
unfolding out_of_range
index_out_of_range rule arg_count = out_of_range rule.kind rule arg_count

-- One round of the loop: does the rule match, does the call lack an argument of it, and what the
-- rounds behind it come to.
pub match_round :
    Option Bool
    → Bool
    → BufferWriteRule
    → Option (Option BufferWriteRule)
    → Option (Option BufferWriteRule)
match_round none out rule rest = none
match_round (some false) out rule rest = rest
match_round (some true) true rule rest = rest
match_round (some true) false rule rest = some (some rule)

unfoldable pub find_matching_rule :
    List BufferWriteRule → NameVariants → ℕ → Option (Option BufferWriteRule)
unfolding rule_matches_function index_out_of_range match_round
find_matching_rule [] names arg_count = some none
find_matching_rule (rule ∷ rules) names arg_count =
    match_round (rule_matches_function rule names) (index_out_of_range rule arg_count) rule
      (find_matching_rule rules names arg_count)
