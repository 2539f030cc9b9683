-- ===== src/Paths/Lookup.antt =====
-- `buildPathSuffixes` and `CompilationDatabase::findCommandForFile` of
-- src/analysis/CompileCommands.cpp. `normalize` is `normalizePath`, which asks the file system.
pub mod Found
use coretrace_stack_analyzer.Prelude.{
  ℕ, zero, suc, ◌≡◌, ◌⊎◌, inl, inr, refl, sym, ap, ◌∙◌, Bool, true, false, ◌&&◌, not, Option, none,
  some, List, [], ◌∷◌, ◌++◌, ◌==◌, ==_iff, arith, if◌then◌else◌, Bool-cases, Option-cases,
}
use coretrace_stack_analyzer.Prelude.Text.{Text, text_eq, text_eq_iff}
use coretrace_stack_analyzer.Paths.{slash, path_has_suffix}

abbrev pub is_last : Text → Bool
is_last [] = true
is_last (c ∷ text) = false

-- The suffixes that begin at a `/` which is not the last byte.
unfoldable pub suffixes_from : Text → List Text
suffixes_from [] = []
suffixes_from (c ∷ rest) =
    let later = suffixes_from rest in
    if c == slash && not (is_last rest) then (c ∷ rest) ∷ later else later

unfoldable pub build_path_suffixes : Text → List Text
unfolding suffixes_from
build_path_suffixes [] = []
build_path_suffixes (c ∷ rest) = (c ∷ rest) ∷ suffixes_from rest

-- The entries whose paths have the suffix, counted up to two.
pub data SuffixMatch {ℓ} (A : Type ℓ) : Type ℓ where
  nothing several : SuffixMatch A
  only : A → SuffixMatch A

module _ {ℓ} {A : Type ℓ} where
  unfoldable pub match_suffix : List (Text × A) → Text → SuffixMatch A
  unfolding path_has_suffix
  match_suffix [] suffix = nothing
  match_suffix ((path, command) ∷ commands) suffix =
      let later = match_suffix commands suffix in
      if path_has_suffix path suffix
      then elim later [ nothing ↦ only command | several ↦ several | only c ↦ several ]
      else later

  unfoldable pub find_path : List (Text × A) → Text → Option A
  unfolding text_eq
  find_path [] key = none
  find_path ((path, command) ∷ commands) key =
      if text_eq path key then some command else find_path commands key

  -- The loop over the suffixes, without the full path.
  unfoldable pub find_by_suffix : List (Text × A) → List Text → Option A
  unfolding match_suffix
  find_by_suffix commands [] = none
  find_by_suffix commands (suffix ∷ suffixes) =
      let later = find_by_suffix commands suffixes in
      elim (match_suffix commands suffix) [
        | nothing ↦ later
        | several ↦ none
        | only command ↦ some command
      ]

  unfoldable pub find_key : List (Text × A) → Text → Option A
  unfolding find_path build_path_suffixes find_by_suffix
  find_key commands key = elim (find_path commands key) [
    | some command ↦ some command
    | none ↦ elim (build_path_suffixes key) [
      | [] ↦ none
      | full ∷ suffixes ↦ find_by_suffix commands suffixes
    ]
  ]

  unfoldable pub find_command_for_file : (Text → Text) → List (Text × A) → Text → Option A
  unfolding find_key
  find_command_for_file normalize commands [] = none
  find_command_for_file normalize commands (c ∷ file) = find_key commands (normalize (c ∷ file))
