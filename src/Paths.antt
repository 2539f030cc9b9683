-- ===== src/Paths.antt =====
-- The tests on paths of src/analysis/FunctionFilter.cpp, src/analysis/AnalyzerUtils.cpp and
-- src/analysis/CompileCommands.cpp, which have their own copies of some. Paths are normalised texts.
pub mod Affixes
pub mod Filter
pub mod Lookup
use coretrace_stack_analyzer.Prelude.{
  ℕ, zero, suc, ◌+◌, ◌-◌, Bool, true, false, not, ◌&&◌, ◌||◌, Option, none, some, List, [], ◌∷◌,
  ◌++◌, ltb, ◌==◌, length, drop, take, get_or, if◌then◌else◌,
}
use coretrace_stack_analyzer.Prelude.Text.{Text, codes, text_eq}

abbrev pub slash : ℕ
slash = 47

-- The tests of `pathHasPrefix` and `pathHasSuffix`: the sizes, whether the bytes are the same, and
-- the byte at the boundary, which is looked at last.
unfoldable pub affix_test : ℕ → ℕ → Bool → ℕ → Bool
affix_test size n same boundary =
    if ltb size n
    then false
    else if not same
    then false
    else if size == n
    then true
    else boundary == slash

unfoldable pub path_has_prefix : Text → Text → Bool
unfolding text_eq affix_test
path_has_prefix path [] = false
path_has_prefix path (c ∷ prefix) =
    let n = length (c ∷ prefix) in
    affix_test (length path) n (text_eq (take n path) (c ∷ prefix)) (get_or path n 0)

unfoldable pub path_has_suffix : Text → Text → Bool
unfolding text_eq affix_test
path_has_suffix path [] = false
path_has_suffix path (c ∷ suffix) =
    let n = length (c ∷ suffix) in
    affix_test (length path) n (text_eq (drop (length path - n) path) (c ∷ suffix))
      (get_or path (length path - n - 1) 0)

-- The loop of `pathContainsSegment`; `current` is the segment that has begun, and an empty one is
-- skipped.
unfoldable pub contains_loop : Text → Text → Text → Bool
unfolding text_eq
contains_loop segment current [] = text_eq current segment
contains_loop segment current (c ∷ path) =
    let ended = text_eq current segment || contains_loop segment [] path in
    let longer = contains_loop segment (current ++ c ∷ []) path in
    if c == slash then ended else longer

unfoldable pub path_contains_segment : Text → Text → Bool
unfolding contains_loop
path_contains_segment path [] = false
path_contains_segment path (c ∷ segment) = contains_loop (c ∷ segment) [] path

-- `find(fragment) != npos` and `rfind(prefix, 0) == 0`.
unfoldable pub starts_with : Text → Text → Bool
starts_with text [] = true
starts_with [] (c ∷ prefix) = false
starts_with (d ∷ text) (c ∷ prefix) = d == c && starts_with text prefix

unfoldable pub has_fragment : Text → Text → Bool
unfolding starts_with
has_fragment [] fragment = starts_with [] fragment
has_fragment (d ∷ text) fragment = starts_with (d ∷ text) fragment || has_fragment text fragment

pub path_contains_fragment : Text → Text → Bool
unfolding has_fragment
path_contains_fragment path [] = false
path_contains_fragment path (c ∷ fragment) = has_fragment path (c ∷ fragment)

-- The text behind the last `/`.
unfoldable pub behind_slash : Text → Text → Text
behind_slash name [] = name
behind_slash name (c ∷ rest) =
    let later = behind_slash rest rest in
    let here = behind_slash name rest in if c == slash then later else here

unfoldable pub path_basename : Text → Text
unfolding behind_slash
path_basename path = behind_slash path path

-- `pathHasSuffix` of the function filter.
pub ends_with : Text → Text → Bool
unfolding text_eq
ends_with path [] = false
ends_with path (c ∷ suffix) =
    let n = length (c ∷ suffix) in
    if ltb (length path) n then false else text_eq (drop (length path - n) path) (c ∷ suffix)
