-- ===== src/BufferModel/Matcher/First.antt =====
-- The search for a rule ends, and finds the first rule that fits.
use coretrace_stack_analyzer.Prelude.{
  ℕ, ◌≡◌, refl, sym, subst, ◌↔◌, Bool, true, false, Option, none, some, List, [], ◌∷◌, ◌++◌, inl,
  inr, Bool-cases,
}
use coretrace_stack_analyzer.BufferModel.Glob.Ends.{Answers, glob_matches-Answers}
use coretrace_stack_analyzer.BufferModel.Parse.{BufferWriteRule}
use coretrace_stack_analyzer.BufferModel.Matcher.Fits.{
  NameFits, HasArguments, rule_matches_function_iff, index_out_of_range_iff,
}
use coretrace_stack_analyzer.BufferModel.Matcher.{
  NameVariants, has_glob, or_else, match_round, rule_matches_function, index_out_of_range,
  find_matching_rule,
}

answer : (o : Option Bool) → Answers o → (b : Bool) × (o ≡ some b)
answer none h = absurd h
answer (some b) h = (b, refl)

or_else-Answers : (a b : Option Bool) → Answers a → Answers b → Answers (or_else a b)
unfolding or_else
or_else-Answers none b h k = absurd h
or_else-Answers (some true) b h k = tt
or_else-Answers (some false) b h k = k

rule_matches_function-Answers :
    (rule : BufferWriteRule) (names : NameVariants) → Answers (rule_matches_function rule names)
unfolding rule_matches_function
rule_matches_function-Answers rule names = elim (Bool-cases (has_glob rule.function_pattern)) [
  | inl glob ↦ rw glob (
      or_else-Answers _ _ (glob_matches-Answers rule.function_pattern names.mangled) (
        or_else-Answers _ _ (glob_matches-Answers rule.function_pattern names.demangled)
          (glob_matches-Answers rule.function_pattern names.demangled_base)))
  | inr plain ↦ rw plain tt
]

-- The pattern is meant for a name and the call has the arguments of the rule.
abbrev pub Fits : NameVariants → ℕ → BufferWriteRule → Type 0
Fits names arg_count rule =
    NameFits rule.function_pattern names × HasArguments rule.kind rule arg_count

tests_fit :
    (names : NameVariants) (arg_count : ℕ) (rule : BufferWriteRule)
    → ((rule_matches_function rule names ≡ some true) × (index_out_of_range rule arg_count ≡ false))
      ↔ Fits names arg_count rule
tests_fit names arg_count rule =
    let (named, is_named) = rule_matches_function_iff rule names in
    let (has_all, tested) = index_out_of_range_iff rule arg_count in
    (λ h. (named h.0, has_all h.1), λ h. (is_named h.0, tested h.1))

abbrev pub NoneFits : NameVariants → ℕ → List BufferWriteRule → Type 0
NoneFits names arg_count [] = Unit
NoneFits names arg_count (rule ∷ rules) =
    (¬ Fits names arg_count rule) × NoneFits names arg_count rules

-- `found` is the first rule of the list that fits, if there is one.
abbrev pub IsFirst : NameVariants → ℕ → List BufferWriteRule → Option BufferWriteRule → Type 0
IsFirst names arg_count rules none = NoneFits names arg_count rules
IsFirst names arg_count rules (some r) =
    (before : List BufferWriteRule) × (after : List BufferWriteRule) × (rules ≡ before ++ r ∷ after)
    × NoneFits names arg_count before
    × Fits names arg_count r

skip_rule :
    (names : NameVariants) (arg_count : ℕ) (rule : BufferWriteRule) (rules : List BufferWriteRule)
    (found : Option BufferWriteRule)
    → ¬ Fits names arg_count rule
    → IsFirst names arg_count rules found
    → IsFirst names arg_count (rule ∷ rules) found
skip_rule names arg_count rule rules none h f = (h, f)
skip_rule names arg_count rule rules (some r) h (before, after, e, none_before, fits) =
    (rule ∷ before, after, (λ i. rule ∷ e i), (h, none_before), fits)

module _ (names : NameVariants) (arg_count : ℕ) (rule : BufferWriteRule)
    (rules : List BufferWriteRule) where
  -- The rounds of the loop from this rule on end with `r`.
  abbrev EndsWith : Option (Option BufferWriteRule) → Type 0
  EndsWith run =
      (found : Option BufferWriteRule) × (run ≡ some found)
      × IsFirst names arg_count (rule ∷ rules) found

  match_round_ends :
      (matched out : Bool) (found : Option BufferWriteRule)
      → rule_matches_function rule names ≡ some matched
      → index_out_of_range rule arg_count ≡ out
      → IsFirst names arg_count rules found
      → EndsWith (match_round (some matched) out rule (some found))
  unfolding match_round
  match_round_ends false out found m o f = (
    found,
    refl,
    skip_rule names arg_count rule rules found
        (λ fits. let (m', o') = (tests_fit names arg_count rule).1 fits in cc (m', m)) f,
  )
  match_round_ends true true found m o f = (
    found,
    refl,
    skip_rule names arg_count rule rules found
        (λ fits. let (m', o') = (tests_fit names arg_count rule).1 fits in cc (o', o)) f,
  )
  match_round_ends true false found m o f =
      (some rule, refl, ([], rules, refl, tt, (tests_fit names arg_count rule).0 (m, o)))

-- `findMatchingRule` ends on every list of rules and all names of a callee, with the first rule that
-- fits, or with none where no rule does. A rule fits if the call has its destination argument and, for
-- a bounded write, its size argument, and its pattern is one of the three names, or, if it has a
-- wildcard in it, is one with which `globMatches` accepts one of them.
pub find_matching_rule_lem :
    (rules : List BufferWriteRule) (names : NameVariants) (arg_count : ℕ)
    → (found : Option BufferWriteRule) × (find_matching_rule rules names arg_count ≡ some found)
      × IsFirst names arg_count rules found
unfolding find_matching_rule
find_matching_rule_lem [] names arg_count = (none, refl, tt)
find_matching_rule_lem (rule ∷ rules) names arg_count =
    let (found, e, first) = find_matching_rule_lem rules names arg_count in
    let (matched, m) =
      answer (rule_matches_function rule names) (rule_matches_function-Answers rule names) in
    subst (EndsWith names arg_count rule rules)
      (λ i. match_round (sym m i) (index_out_of_range rule arg_count) rule (sym e i))
      (match_round_ends names arg_count rule rules matched _ found m refl first)
