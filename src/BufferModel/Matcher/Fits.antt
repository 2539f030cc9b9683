-- ===== src/BufferModel/Matcher/Fits.antt =====
-- When a rule is meant for a call: the name by the pattern, the arguments by their places.
use mathlib.Core.List.{Memᴰ}
use mathlib.Core.List.Memᴰ
use coretrace_stack_analyzer.Prelude.{
  ℕ, ◌<◌, ◌≡◌, refl, sym, Bool, true, false, ◌||◌, Option, none, some, [], ◌∷◌, inl, inr, ◌↔◌, ◌⊎◌,
  Bool-cases, arith, ◌==◌, ==_iff,
}
use coretrace_stack_analyzer.Prelude.Text.{Text, text_eq, text_eq_iff}
use coretrace_stack_analyzer.BufferModel.Glob.{star, question, glob_matches}
use coretrace_stack_analyzer.BufferModel.Glob.Ends.{Answers, glob_matches-Answers}
use coretrace_stack_analyzer.BufferModel.Parse.{
  BufferWriteRuleKind, bounded_write, unbounded_write, BufferWriteRule,
}
use coretrace_stack_analyzer.BufferModel.Matcher.{
  NameVariants, has_glob, or_else, rule_matches_function, out_of_range, index_out_of_range,
}

abbrev pub HasWildcard : Text → Type 0
HasWildcard pattern = Memᴰ star pattern ⊎ Memᴰ question pattern

-- A pattern without wildcards is one of the three names; of one with wildcards `globMatches` accepts
-- one of the names.
abbrev pub NameFits : Text → NameVariants → Type 0
NameFits pattern names =
    ((¬ HasWildcard pattern)
      × ((pattern ≡ names.mangled)
          ⊎ ((pattern ≡ names.demangled) ⊎ (pattern ≡ names.demangled_base))))
    ⊎ (HasWildcard pattern
        × ((glob_matches pattern names.mangled ≡ some true)
            ⊎ ((glob_matches pattern names.demangled ≡ some true)
                ⊎ (glob_matches pattern names.demangled_base ≡ some true))))

-- The call has the destination, and for a bounded write the size, among its arguments.
abbrev pub HasArguments : BufferWriteRuleKind → BufferWriteRule → ℕ → Type 0
HasArguments bounded_write rule arg_count =
    (rule.dest_arg_index < arg_count) × (rule.size_arg_index < arg_count)
HasArguments unbounded_write rule arg_count = rule.dest_arg_index < arg_count

has_glob-HasWildcard : (pattern : Text) → has_glob pattern ≡ true → HasWildcard pattern
unfolding has_glob
has_glob-HasWildcard [] h = absurd (cc)
has_glob-HasWildcard (c ∷ pattern) h = elim (Bool-cases (c == star)) [
  | inl s ↦ inl (Memᴰ.head (sym ((==_iff c star).0 s)))
  | inr s ↦ elim (Bool-cases (c == question)) [
    | inl q ↦ inr (Memᴰ.head (sym ((==_iff c question).0 q)))
    | inr q ↦ elim (has_glob-HasWildcard pattern (rw (has_glob, s, q) at h)) [
      | inl m ↦ inl (Memᴰ.tail m)
      | inr m ↦ inr (Memᴰ.tail m)
    ]
  ]
]

HasWildcard-has_glob : (pattern : Text) → HasWildcard pattern → has_glob pattern ≡ true
unfolding has_glob
HasWildcard-has_glob [] h = elim h [
  | inl m ↦ absurd (Memᴰ.not-nil m)
  | inr m ↦ absurd (Memᴰ.not-nil m)
]
HasWildcard-has_glob (c ∷ pattern) (inl m) = elim (Memᴰ.cases_cons m) [
  | inl e ↦ let here : (c == star) ≡ true = (==_iff c star).1 (sym e) in ground arith
  | inr later ↦ let rest = HasWildcard-has_glob pattern (inl later) in ground arith
]
HasWildcard-has_glob (c ∷ pattern) (inr m) = elim (Memᴰ.cases_cons m) [
  | inl e ↦ let here : (c == question) ≡ true = (==_iff c question).1 (sym e) in ground arith
  | inr later ↦ let rest = HasWildcard-has_glob pattern (inr later) in ground arith
]

or_else_iff :
    (a b : Option Bool)
    → Answers a
    → (or_else a b ≡ some true) ↔ ((a ≡ some true) ⊎ (b ≡ some true))
unfolding or_else
or_else_iff none b k = absurd k
or_else_iff (some true) b k = (λ h. inl refl, λ h. refl)
or_else_iff (some false) b k = (λ h. inr h, λ h. elim h [ inl e ↦ absurd (cc) | inr e ↦ e ])

true_of_false : (b : Bool) → b ≡ true → b ≡ false → ⊥
true_of_false b t f = cc

some_text :
    (s a b c : Text)
    → (some (text_eq s a || text_eq s b || text_eq s c) ≡ some true)
      ↔ ((s ≡ a) ⊎ ((s ≡ b) ⊎ (s ≡ c)))
some_text s a b c =
    let (same_a, test_a) = text_eq_iff s a in
    let (same_b, test_b) = text_eq_iff s b in
    let (same_c, test_c) = text_eq_iff s c in
    (
      λ h. elim (Bool-cases (text_eq s a)) [
        | inl t ↦ inl (same_a t)
        | inr na ↦ elim (Bool-cases (text_eq s b)) [
          | inl t ↦ inr (inl (same_b t))
          | inr nb ↦ inr (inr (same_c (ground arith)))
        ]
      ],
      λ h. elim h [
        | inl e ↦ rw (test_a e) refl
        | inr h' ↦ elim h' [
          | inl e ↦ let t = test_b e in ground arith
          | inr e ↦ let t = test_c e in ground arith
        ]
      ],
    )

pub rule_matches_function_iff :
    (rule : BufferWriteRule) (names : NameVariants)
    → (rule_matches_function rule names ≡ some true) ↔ NameFits rule.function_pattern names
unfolding rule_matches_function
rule_matches_function_iff rule names =
    let pattern = rule.function_pattern in
    elim (Bool-cases (has_glob pattern)) [
      | inl glob ↦
          let wild = has_glob-HasWildcard pattern glob in
          let one =
            or_else_iff (glob_matches pattern names.mangled)
              (or_else (glob_matches pattern names.demangled)
                (glob_matches pattern names.demangled_base))
              (glob_matches-Answers pattern names.mangled) in
          let two =
            or_else_iff (glob_matches pattern names.demangled)
              (glob_matches pattern names.demangled_base)
              (glob_matches-Answers pattern names.demangled) in
          rw (rule_matches_function, glob)
            (
              λ h. inr (wild, elim (one.0 h) [ inl e ↦ inl e | inr e ↦ inr (two.0 e) ]),
              λ h. elim h [
                | inl (tame, names_it) ↦ absurd (tame wild)
                | inr (w, accepted) ↦
                    one.1 (elim accepted [ inl e ↦ inl e | inr e ↦ inr (two.1 e) ])
              ],
            )
      | inr plain ↦
          let tame = λ (w : HasWildcard pattern).
            true_of_false (has_glob pattern) (HasWildcard-has_glob pattern w) plain in
          let texts = some_text pattern names.mangled names.demangled names.demangled_base in
          rw (rule_matches_function, plain)
            (
              λ h. inl (tame, texts.0 h),
              λ h. elim h [ inl (t, e) ↦ texts.1 e | inr (w, e) ↦ absurd (tame w) ],
            )
    ]

pub index_out_of_range_iff :
    (rule : BufferWriteRule) (arg_count : ℕ)
    → (index_out_of_range rule arg_count ≡ false) ↔ HasArguments rule.kind rule arg_count
unfolding index_out_of_range out_of_range
index_out_of_range_iff rule arg_count = go rule.kind
  where
    go :
        (kind : BufferWriteRuleKind)
        → (out_of_range kind rule arg_count ≡ false) ↔ HasArguments kind rule arg_count
    go bounded_write = ground arith
    go unbounded_write = ground arith
