-- ===== src/Paths/Filter.antt =====
-- src/analysis/FunctionFilter.cpp, with shouldIncludePath and functionNameMatches of
-- src/analysis/AnalyzerUtils.cpp: which functions are analyzed. `lexical` and `absolute` are the two
-- functions `normalizePathForMatch`, which ask the file system; `demangler` is `__cxa_demangle`.
pub mod System
use coretrace_stack_analyzer.Prelude.{
  ℕ, zero, suc, ◌+◌, ◌-◌, ◌*◌, ◌%◌, ◌^◌, Bool, true, false, not, ◌&&◌, ◌||◌, Option, none, some,
  List, [], ◌∷◌, ◌++◌, leb, ltb, ◌==◌, length, take, drop, if◌then◌else◌,
}
use coretrace_stack_analyzer.Prelude.Text.{Text, codes, text_eq}
use coretrace_stack_analyzer.Smt.Types.{to_lower_ascii}
use coretrace_stack_analyzer.Paths.{
  slash, path_has_prefix, path_has_suffix, path_contains_segment, path_contains_fragment,
  path_basename, starts_with, ends_with,
}

-- The fields of `AnalysisConfig` that the filter reads.
pub record FilterConfig : Type 0 where
  pub only_files : List Text
  pub only_dirs : List Text
  pub only_functions : List Text
  pub include_stl : Bool

-- The name of the function, and the directory and the name of the file of its debug information.
pub record NamedFunction : Type 0 where
  pub name : Text
  pub file : Option (Text × Text)

pub record FunctionFilter : Type 0 where
  pub module_source_path : Text
  pub config : FilterConfig
  pub has_path_filter : Bool
  pub has_func_filter : Bool
  pub has_filter : Bool

abbrev pub is_empty_list {ℓ} : {A : Type ℓ} → List A → Bool
is_empty_list [] = true
is_empty_list (x ∷ xs) = false

unfoldable pub any_of : (Text → Bool) → List Text → Bool
any_of test [] = false
any_of test (t ∷ ts) = test t || any_of test ts

abbrev pub system_prefixes : List Text
system_prefixes =
    codes "/usr/include"
    ∷ codes "/usr/lib"
    ∷ codes "/usr/local/include"
    ∷ codes "/usr/local/lib"
    ∷ codes "/opt/homebrew/include"
    ∷ codes "/opt/homebrew/lib"
    ∷ codes "/opt/homebrew/cellar"
    ∷ codes "/opt/local/include"
    ∷ codes "/opt/local/lib"
    ∷ codes "/library/developer/commandlinetools/usr/include"
    ∷ codes "/library/developer/commandlinetools/usr/lib"
    ∷ codes "/applications/xcode.app/contents/developer/toolchains"
    ∷ codes "/applications/xcode.app/contents/developer/platforms"
    ∷ codes "/nix/store"
    ∷ codes "c:/program files"
    ∷ []

abbrev pub system_fragments : List Text
system_fragments =
    codes "/include/c++/"
    ∷ codes "/c++/v1/"
    ∷ codes "/lib/clang/"
    ∷ codes "/x86_64-linux-gnu/c++/"
    ∷ codes "/aarch64-linux-gnu/c++/"
    ∷ []

abbrev pub third_party_segments : List Text
third_party_segments =
    codes "third_party"
    ∷ codes "third-party"
    ∷ codes "thirdparty"
    ∷ codes "3rdparty"
    ∷ codes "vendor"
    ∷ codes "vendors"
    ∷ codes "external"
    ∷ codes "extern"
    ∷ codes "deps"
    ∷ codes "_deps"
    ∷ codes "submodules"
    ∷ codes "vcpkg_installed"
    ∷ codes "conan"
    ∷ []

unfoldable pub is_compiler_runtime_like_name : Text → Bool
unfolding starts_with
is_compiler_runtime_like_name name =
    starts_with name (codes "llvm.")
    || starts_with name (codes "clang.")
    || starts_with name (codes "__asan_")
    || starts_with name (codes "__ubsan_")
    || starts_with name (codes "__tsan_")
    || starts_with name (codes "__msan_")

abbrev pub is_decimal : ℕ → Bool
is_decimal c = leb 48 c && leb c 57

-- The digits at the front, as a 64-bit number that wraps around, and the rest.
unfoldable pub leading_number : ℕ → Text → ℕ × Text
leading_number len [] = (len, [])
leading_number len (c ∷ text) =
    let more = leading_number ((len * 10 + (c - 48)) % 2 ^ 64) text in
    if is_decimal c then more else (len, c ∷ text)

-- `substr(i, len)` behind the digits, where it is in range.
itanium_name : Text → Text → Text
unfolding leading_number
itanium_name symbol [] = []
itanium_name symbol (c ∷ text) =
    let (len, rest) = leading_number 0 (c ∷ text) in
    if not (is_decimal c)
    then []
    else if len == 0 || ltb (length symbol) ((length symbol - length rest + len) % 2 ^ 64)
    then []
    else take len rest

skip_local_mark : Text → Text
skip_local_mark [] = []
skip_local_mark (c ∷ text) = if c == 76 then text else c ∷ text

pub itanium_base_name : Text → Text
unfolding itanium_name skip_local_mark starts_with
itanium_base_name symbol =
    if starts_with symbol (codes "_Z")
    then itanium_name symbol (skip_local_mark (drop 2 symbol))
    else []

-- The text in front of the first `(`; nothing without one, or where it comes first.
in_front_of_parenthesis : Text → Option Text
in_front_of_parenthesis [] = none
in_front_of_parenthesis (c ∷ text) =
    let rest = in_front_of_parenthesis text in
    if c == 40 then some [] else elim rest [ none ↦ none | some front ↦ some (c ∷ front) ]

pub base_of : Text → Text
unfolding in_front_of_parenthesis
base_of text = elim (in_front_of_parenthesis text) [ none ↦ [] | some front ↦ front ]

-- `!a.empty() && a == b`.
abbrev pub is_name : Text → Text → Bool
is_name [] filter = false
is_name (c ∷ name) filter = text_eq (c ∷ name) filter

unfoldable pub get_function_source_path : NamedFunction → Text
get_function_source_path f = elim f.file [
  | none ↦ []
  | some (directory, name) ↦ if is_empty_list directory then name else directory ++ slash ∷ name
]

unfoldable pub file_matches : Text → Text → Bool
unfolding path_has_suffix path_basename
file_matches path file =
    text_eq path file
    || path_has_suffix path file
    || (not (is_empty_list (path_basename file))
        && text_eq (path_basename path) (path_basename file))

unfoldable pub dir_matches : Text → Text → Bool
unfolding path_has_prefix path_has_suffix path_contains_fragment
dir_matches path dir =
    path_has_prefix path dir
    || path_has_suffix path dir
    || path_contains_fragment path (slash ∷ dir ++ slash ∷ [])

unfoldable pub build_function_filter : Text → FilterConfig → FunctionFilter
build_function_filter source_file_name config =
    let paths = not (is_empty_list config.only_files) || not (is_empty_list config.only_dirs) in
    let names = not (is_empty_list config.only_functions) in
    record {
      module_source_path = source_file_name;
      config = config;
      has_path_filter = paths;
      has_func_filter = names;
      has_filter = paths || names || not config.include_stl;
    }

module _ (lexical absolute : Text → Text) (demangler : Text → Option Text) where
  unfoldable pub is_likely_system_path : Text → Bool
  unfolding any_of to_lower_ascii path_has_prefix path_contains_fragment
  is_likely_system_path [] = false
  is_likely_system_path (c ∷ path) =
      let normalized = to_lower_ascii (lexical (c ∷ path)) in
      not (is_empty_list normalized)
      && (any_of (λ prefix. path_has_prefix normalized prefix) system_prefixes
          || any_of (λ fragment. path_contains_fragment normalized fragment) system_fragments)

  unfoldable pub is_likely_third_party_path : Text → Bool
  unfolding any_of to_lower_ascii path_contains_segment path_basename ends_with starts_with
  is_likely_third_party_path [] = false
  is_likely_third_party_path (c ∷ path) =
      let normalized = to_lower_ascii (lexical (c ∷ path)) in
      let base = path_basename normalized in
      not (is_empty_list normalized)
      && (any_of (λ segment. path_contains_segment normalized segment) third_party_segments
          || (starts_with base (codes "stb_")
              && (ends_with base (codes ".h")
                  || ends_with base (codes ".hh")
                  || ends_with base (codes ".hpp")
                  || ends_with base (codes ".hxx"))))

  unfoldable pub should_include_path : Text → FilterConfig → Bool
  unfolding any_of file_matches dir_matches
  should_include_path path config =
      if is_empty_list config.only_files && is_empty_list config.only_dirs
      then true
      else if is_empty_list path
      then false
      else any_of (λ file. file_matches (absolute path) (absolute file)) config.only_files
        || any_of (λ dir. dir_matches (absolute path) (absolute dir)) config.only_dirs

  unfoldable pub demangle : Text → Text
  demangle name = elim (demangler name) [ none ↦ name | some demangled ↦ demangled ]

  unfoldable pub is_mangled : Text → Bool
  unfolding starts_with
  is_mangled name =
      starts_with name (codes "_Z")
      && elim (demangler name) [ none ↦ false | some demangled ↦ true ]

  unfoldable pub filter_matches : Text → Text → Text → Text → Text → Bool
  unfolding is_mangled demangle base_of
  filter_matches name demangled demangled_base itanium_base filter =
      text_eq name filter
      || is_name demangled filter
      || is_name demangled_base filter
      || is_name itanium_base filter
      || (is_mangled filter
          && (is_name demangled (demangle filter)
              || (not (is_empty_list (base_of (demangle filter)))
                  && is_name demangled_base (base_of (demangle filter)))))

  unfoldable pub function_name_matches : NamedFunction → FilterConfig → Bool
  unfolding any_of filter_matches is_mangled demangle base_of itanium_base_name starts_with
  function_name_matches f config =
      let name = f.name in
      let demangled =
        if is_mangled name || starts_with name (codes "_Z") then demangle name else [] in
      is_empty_list config.only_functions
      || any_of (filter_matches name demangled (base_of demangled) (itanium_base_name name))
          config.only_functions

  -- The decision without lists of files and directories.
  unfoldable pub is_own_code : FunctionFilter → NamedFunction → Bool
  unfolding is_likely_system_path is_likely_third_party_path is_compiler_runtime_like_name
      get_function_source_path
  is_own_code filter f =
      let path = get_function_source_path f in
      let used = if is_empty_list path then filter.module_source_path else path in
      if is_empty_list used
      then not (is_compiler_runtime_like_name f.name)
      else not (is_likely_system_path used) && not (is_likely_third_party_path used)

  -- The decision by the lists of files and directories.
  unfoldable pub is_in_paths : FunctionFilter → NamedFunction → Bool
  unfolding should_include_path get_function_source_path starts_with
  is_in_paths filter f =
      let path = get_function_source_path f in
      if not (is_empty_list path)
      then should_include_path path filter.config
      else if starts_with f.name (codes "__")
          || starts_with f.name (codes "llvm.")
          || starts_with f.name (codes "clang.")
      then false
      else if not (is_empty_list filter.module_source_path)
      then should_include_path filter.module_source_path filter.config
      else false

  unfoldable pub should_analyze : FunctionFilter → NamedFunction → Bool
  unfolding function_name_matches is_own_code is_in_paths
  should_analyze filter f =
      if not filter.has_filter
      then true
      else if filter.has_func_filter && not (function_name_matches f filter.config)
      then false
      else if filter.has_path_filter
      then is_in_paths filter f
      else if not filter.config.include_stl && not filter.has_func_filter
      then is_own_code filter f
      else true
