-- ===== src/Paths/Filter/System.antt =====
-- The filter of a run without options, and with a list of functions.
use coretrace_stack_analyzer.Prelude.{
  ◌≡◌, ◌≢◌, refl, sym, ap, Bool, true, false, not, ◌&&◌, ◌||◌, Option, List, [], ◌∷◌, ◌++◌,
  if◌then◌else◌, arith, inl, inr,
}
use mathlib.Core.List.{Memᴰ, append-nil}
use mathlib.Core.List.Memᴰ
use coretrace_stack_analyzer.Prelude.Text.{Text}
use coretrace_stack_analyzer.Smt.Types.{to_lower_ascii}
use coretrace_stack_analyzer.Paths.{path_has_prefix, path_contains_fragment}
use coretrace_stack_analyzer.Paths.Affixes.{BeginsAtSlash, path_has_prefix_iff}
use coretrace_stack_analyzer.Paths.Filter.{
  FilterConfig, NamedFunction, is_empty_list, any_of, is_in_paths, system_prefixes,
  is_likely_system_path, is_own_code, get_function_source_path, function_name_matches,
  build_function_filter, should_analyze, system_fragments,
}

any_of-Memᴰ :
    (test : Text → Bool) (ts : List Text) (t : Text)
    → Memᴰ t ts
    → test t ≡ true
    → any_of test ts ≡ true
unfolding any_of
any_of-Memᴰ test [] t m h = absurd (Memᴰ.not-nil m)
any_of-Memᴰ test (s ∷ ts) t m h = elim (Memᴰ.cases_cons m) [
  | inl e ↦ ground (arith, ap test e)
  | inr m' ↦ ground (arith, any_of-Memᴰ test ts t m' h)
]

holds_left : (empty a b : Bool) → empty ≡ false → a ≡ true → (not empty && (a || b)) ≡ true
holds_left empty a b e h = ground arith

not_empty :
    (text prefix rest : Text) → prefix ≢ [] → text ≡ prefix ++ rest → is_empty_list text ≡ false
not_empty [] [] rest n e = absurd (n refl)
not_empty [] (c ∷ prefix) rest n e = absurd (cc)
not_empty (d ∷ text) prefix rest n e = refl

listed : (names : List Text) → names ≢ [] → is_empty_list names ≡ false
listed [] n = absurd (n refl)
listed (c ∷ names) n = refl

named_only :
    (has_filter has_names matches rest : Bool)
    → has_filter ≡ true
    → has_names ≡ true
    → (if not has_filter then true else if has_names && not matches then false else rest) ≡ true
    → matches ≡ true
named_only has_filter has_names matches rest f n h = ground arith

abbrev pub no_options : FilterConfig
no_options = record { only_files = []; only_dirs = []; only_functions = []; include_stl = false }

module _ (lexical absolute : Text → Text) (demangler : Text → Option Text) where
  system_path :
      (path prefix rest : Text)
      → path ≢ []
      → Memᴰ prefix system_prefixes
      → prefix ≢ []
      → to_lower_ascii (lexical path) ≡ prefix ++ rest
      → BeginsAtSlash rest
      → is_likely_system_path lexical absolute demangler path ≡ true
  unfolding is_likely_system_path
  system_path [] prefix rest n m p e b = absurd (n refl)
  system_path (c ∷ path) prefix rest n m p e b =
      let begins =
        (path_has_prefix_iff (to_lower_ascii (lexical (c ∷ path))) prefix).1 (p, (rest, e, b)) in
      holds_left (is_empty_list (to_lower_ascii (lexical (c ∷ path))))
        (any_of (λ q. path_has_prefix (to_lower_ascii (lexical (c ∷ path))) q) system_prefixes)
        (any_of (λ q. path_contains_fragment (to_lower_ascii (lexical (c ∷ path))) q)
          system_fragments)
        (not_empty (to_lower_ascii (lexical (c ∷ path))) prefix rest p e)
        (any_of-Memᴰ (λ q. path_has_prefix (to_lower_ascii (lexical (c ∷ path))) q) system_prefixes
          prefix m begins)

-- Without options a function whose source lies at or below one of the system directories, upper and
-- lower case alike, is not analyzed.
pub should_analyze-system :
    (lexical absolute : Text → Text) (demangler : Text → Option Text) (source : Text)
    (f : NamedFunction) (prefix rest : Text)
    → get_function_source_path f ≢ []
    → Memᴰ prefix system_prefixes
    → prefix ≢ []
    → to_lower_ascii (lexical (get_function_source_path f)) ≡ prefix ++ rest
    → BeginsAtSlash rest
    → should_analyze lexical absolute demangler (build_function_filter source no_options) f ≡ false
unfolding should_analyze build_function_filter is_own_code
should_analyze-system lexical absolute demangler source f prefix rest n m p e b =
    let system =
      system_path lexical absolute demangler (get_function_source_path f) prefix rest n m p e b in
    let some_path : is_empty_list (get_function_source_path f) ≡ false =
      not_empty (get_function_source_path f) (get_function_source_path f) [] n
        (sym (append-nil (get_function_source_path f))) in
    simp (should_analyze, build_function_filter, is_own_code, some_path, system)

-- With a list of functions, whatever the other options, only functions of it are analyzed.
pub should_analyze-function_name_matches :
    (lexical absolute : Text → Text) (demangler : Text → Option Text) (source : Text)
    (config : FilterConfig) (f : NamedFunction)
    → config.only_functions ≢ []
    → should_analyze lexical absolute demangler (build_function_filter source config) f ≡ true
    → function_name_matches lexical absolute demangler f config ≡ true
unfolding should_analyze build_function_filter
should_analyze-function_name_matches lexical absolute demangler source config f n h =
    let some_names : is_empty_list config.only_functions ≡ false = listed config.only_functions n in
    let filter = build_function_filter source config in
    named_only filter.has_filter filter.has_func_filter
      (function_name_matches lexical absolute demangler f config)
      (if filter.has_path_filter
        then is_in_paths lexical absolute demangler filter f
        else if not config.include_stl && not filter.has_func_filter
        then is_own_code lexical absolute demangler filter f
        else true)
      (ground arith) (ground arith) h
