-- ===== src/Samples/Buffers.antt =====
-- A rule file and the names of a callee.
use coretrace_stack_analyzer.Prelude.{◌≡◌, refl, true, false, Option, some, List, [], ◌∷◌}
use coretrace_stack_analyzer.Prelude.Text.{Text, codes}
use coretrace_stack_analyzer.BufferModel.Glob.{star, glob_matches}
use coretrace_stack_analyzer.BufferModel.Glob.Reference.{matches}
use coretrace_stack_analyzer.BufferModel.Glob.Correct.{glob_matches-eq-matches}
use coretrace_stack_analyzer.BufferModel.Glob.Ends.{Answers, glob_matches-Answers}
use coretrace_stack_analyzer.BufferModel.Glob.StarInText.{glob_matches-star_in_text}
use coretrace_stack_analyzer.BufferModel.Parse.{
  BufferWriteRule, bounded_write, unbounded_write, invalid_index, parse_buffer_write_model,
}
use coretrace_stack_analyzer.BufferModel.Parse.WellFormed.{
  AllWellFormed, parse_buffer_write_model-AllWellFormed,
}
use coretrace_stack_analyzer.BufferModel.Matcher.{NameVariants, find_matching_rule}
use coretrace_stack_analyzer.BufferModel.Matcher.First.{IsFirst, find_matching_rule_lem}

glob_run : glob_matches (codes "a*c?") (codes "abcbcd") ≡ some true
unfolding glob_matches
glob_run = refl

glob_matches-eq-matches_example :
    glob_matches (codes "a*c?") (codes "abcbcd") ≡ some (matches (codes "a*c?") (codes "abcbcd"))
glob_matches-eq-matches_example =
    glob_matches-eq-matches (codes "a*c?") (codes "abcbcd")
      (refl, (refl, (refl, (refl, (refl, (refl, tt))))))

glob_matches-Answers_example : Answers (glob_matches (codes "*x*") (codes "f(char*)"))
glob_matches-Answers_example = glob_matches-Answers (codes "*x*") (codes "f(char*)")

glob_matches-star_in_text_example :
    (glob_matches (star ∷ []) (star ∷ b')' ∷ []) ≡ some false)
    × (matches (star ∷ []) (star ∷ b')' ∷ []) ≡ true)
glob_matches-star_in_text_example = glob_matches-star_in_text b')' []

abbrev rule_file : List Text
rule_file =
    codes "# sinks"
    ∷ codes " bounded_write  read 1 2 # n"
    ∷ codes "unbounded_write get* 0"
    ∷ codes "unbounded_write gets x"
    ∷ []

abbrev read_rule : BufferWriteRule
read_rule = record {
  function_pattern = codes "read";
  dest_arg_index = 1;
  size_arg_index = 2;
  kind = bounded_write;
}

abbrev get_rule : BufferWriteRule
get_rule = record {
  function_pattern = codes "get*";
  dest_arg_index = 0;
  size_arg_index = 0;
  kind = unbounded_write;
}

-- The last line is refused, and the rules in front of it stay.
parse_run :
    parse_buffer_write_model rule_file ≡ (read_rule ∷ get_rule ∷ [], some (invalid_index, 4))
unfolding parse_buffer_write_model
parse_run = refl

parse_buffer_write_model-AllWellFormed_example :
    AllWellFormed (parse_buffer_write_model rule_file).0
parse_buffer_write_model-AllWellFormed_example = parse_buffer_write_model-AllWellFormed rule_file

abbrev callee : NameVariants
callee = record {
  mangled = codes "_Z4getsPc";
  demangled = codes "gets(char*)";
  demangled_base = codes "gets";
}

find_run : find_matching_rule (read_rule ∷ get_rule ∷ []) callee 1 ≡ some (some get_rule)
unfolding find_matching_rule
find_run = refl

find_matching_rule_lem_example :
    (found : Option BufferWriteRule) × (find_matching_rule (read_rule ∷ get_rule ∷ []) callee 1
      ≡ some found)
    × IsFirst callee 1 (read_rule ∷ get_rule ∷ []) found
find_matching_rule_lem_example = find_matching_rule_lem (read_rule ∷ get_rule ∷ []) callee 1
