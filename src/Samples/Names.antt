-- ===== src/Samples/Names.antt =====
-- Paths, the function filter and escaped texts on small inputs.
use mathlib.Core.List.{Memᴰ}
use coretrace_stack_analyzer.Prelude.{
  ℕ, ◌≡◌, ◌≢◌, ◌↔◌, refl, true, false, none, some, List, [], ◌∷◌, ◌++◌, arith, inr,
}
use coretrace_stack_analyzer.Prelude.Text.{Text, codes, text_eq}
use coretrace_stack_analyzer.Smt.Types.{to_lower_ascii}
use coretrace_stack_analyzer.Paths.{path_has_suffix}
use coretrace_stack_analyzer.Paths.Affixes.{EndsAtSlash, path_has_suffix_iff}
use coretrace_stack_analyzer.Paths.Lookup.{find_command_for_file}
use coretrace_stack_analyzer.Paths.Lookup.Found.{
  AreSingle, EntryFor, find_command_for_file-EntryFor,
}
use coretrace_stack_analyzer.Paths.Filter.{
  NamedFunction, get_function_source_path, build_function_filter, should_analyze,
}
use coretrace_stack_analyzer.Paths.Filter.System.{no_options, should_analyze-system}
use coretrace_stack_analyzer.Report.{json_escape}
use coretrace_stack_analyzer.Report.RoundTrip.{json_read, outside, json_read-json_escape}

path_has_suffix_iff_example : (path_has_suffix (codes "/src/a.c") (codes "a.c") ≡ true) ↔ (
    (codes "a.c" ≢ [])
    × ((front : Text) × (codes "/src/a.c" ≡ front ++ codes "a.c") × EndsAtSlash front))
path_has_suffix_iff_example = path_has_suffix_iff (codes "/src/a.c") (codes "a.c")

abbrev root_entry : List (Text × ℕ)
root_entry = (codes "/c", 1) ∷ []

root_entry-AreSingle : AreSingle root_entry
root_entry-AreSingle = ((λ h e. omega arith, tt), tt)

root_entry_run : find_command_for_file (λ file. file) root_entry (codes "/b/c") ≡ some 1
unfolding find_command_for_file path_has_suffix text_eq
root_entry_run = refl

-- The entry of another build directory that ends in the same two components is not found.
other_directory_run :
    find_command_for_file {A = ℕ}
      (λ file. file)
      ((codes "/ci/src/a.c", 1) ∷ [])
      (codes "/home/src/a.c")
    ≡ none
unfolding find_command_for_file path_has_suffix text_eq
other_directory_run = refl

find_command_for_file-EntryFor_example : EntryFor root_entry (codes "/b/c") 1
find_command_for_file-EntryFor_example =
    find_command_for_file-EntryFor (λ file. file) root_entry (codes "/b/c") 1 root_entry-AreSingle
      root_entry_run

abbrev in_header : NamedFunction
in_header = record { name = codes "f"; file = some (codes "/usr/include", codes "math.h") }

in_header_path : get_function_source_path in_header ≡ codes "/usr/include/math.h"
unfolding get_function_source_path
in_header_path = refl

in_header_lower :
    to_lower_ascii (get_function_source_path in_header) ≡ codes "/usr/include" ++ codes "/math.h"
unfolding to_lower_ascii get_function_source_path
in_header_lower = refl

should_analyze-system_example :
    should_analyze
      (λ path. path)
      (λ path. path)
      (λ name. none)
      (build_function_filter [] no_options)
      in_header
    ≡ false
should_analyze-system_example =
    should_analyze-system (λ path. path) (λ path. path) (λ name. none) [] in_header
      (codes "/usr/include") (codes "/math.h") (λ e. absurd (cc (rw in_header_path at e)))
      (Memᴰ.head refl) (λ e. absurd (cc)) in_header_lower (inr refl)

json_read-json_escape_example : json_read outside (json_escape (codes "a\"b")) ≡ some (codes "a\"b")
json_read-json_escape_example = json_read-json_escape (codes "a\"b")
