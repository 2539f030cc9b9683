-- ===== src/CompileCommands/Strip/Forms.antt =====
-- The forms of the arguments that `stripOutputAndDependencyArgs` tells apart, and its tests for them.
use mathlib.Core.List.{Memᴰ}
use mathlib.Core.List.Memᴰ
use coretrace_stack_analyzer.Prelude.{
  ◌<◌, ◌≡◌, ◌≢◌, refl, sym, ap, subst, ◌∙◌, Bool, true, false, ◌&&◌, ◌||◌, List, [], ◌∷◌, ◌++◌, ◌↔◌,
  ◌⊎◌, inl, inr, Bool-cases, arith, ==_iff, length, length-append, ltb, if◌then◌else◌,
}
use coretrace_stack_analyzer.Prelude.Text.{Text, codes, text_eq, text_eq_iff}
use coretrace_stack_analyzer.CompileCommands.{
  begins_with, ArgAction, drop_with_next, drop, keep, arg_action,
}

-- An option whose value is the next argument.
abbrev pub Takes : Text → Type 0
Takes arg = Memᴰ arg (codes "-o" ∷ codes "--output" ∷ codes "-MF" ∷ codes "-MT" ∷ codes "-MQ" ∷ [])

-- The option and its value in one argument.
abbrev pub JoinedTo : Text → Text → Type 0
JoinedTo option arg = (value : Text) × (value ≢ []) × (arg ≡ option ++ value)

abbrev pub Joined : Text → Type 0
Joined arg =
    (option : Text) × Memᴰ option (codes "-o" ∷ codes "-MF" ∷ codes "-MT" ∷ codes "-MQ" ∷ [])
    × JoinedTo option arg

-- An option without a value.
abbrev pub Alone : Text → Type 0
Alone arg =
    Memᴰ arg
      (codes "-M" ∷ codes "-MM" ∷ codes "-MD" ∷ codes "-MMD" ∷ codes "-MG" ∷ codes "-MP" ∷ [])

abbrev pub Means : Text → ArgAction → Type 0
Means arg drop_with_next = Takes arg
Means arg drop = Joined arg ⊎ Alone arg
Means arg keep = (¬ Takes arg) × (¬ Joined arg) × (¬ Alone arg)

-- One of the options, as the source tests it.
abbrev in_list : Text → List Text → Bool
in_list arg [] = false
in_list arg (option ∷ options) = text_eq arg option || in_list arg options

in_list-Memᴰ : (arg : Text) (options : List Text) → in_list arg options ≡ true → Memᴰ arg options
in_list-Memᴰ arg [] h = absurd (cc)
in_list-Memᴰ arg (option ∷ options) h = elim (Bool-cases (text_eq arg option)) [
  | inl e ↦ Memᴰ.head ((text_eq_iff arg option).0 e)
  | inr e ↦ Memᴰ.tail (in_list-Memᴰ arg options (ground arith))
]

Memᴰ-in_list : (arg : Text) (options : List Text) → Memᴰ arg options → in_list arg options ≡ true
Memᴰ-in_list arg [] m = absurd (Memᴰ.not-nil m)
Memᴰ-in_list arg (option ∷ options) m = elim (Memᴰ.cases_cons m) [
  | inl e ↦ let t = (text_eq_iff arg option).1 e in ground arith
  | inr later ↦ let t = Memᴰ-in_list arg options later in ground arith
]

begins_with-append : (option value : Text) → begins_with option (option ++ value) ≡ true
unfolding begins_with
begins_with-append [] value = refl
begins_with-append (c ∷ option) value =
    let here = (==_iff c c).1 refl in let rest = begins_with-append option value in ground arith

begins_with-found :
    (option arg : Text) → begins_with option arg ≡ true → (value : Text) × (arg ≡ option ++ value)
unfolding begins_with
begins_with-found [] arg h = (arg, refl)
begins_with-found (c ∷ option) [] h = absurd (cc)
begins_with-found (c ∷ option) (d ∷ arg) h =
    let same = (==_iff c d).0 (ground arith) in
    let (value, e) = begins_with-found option arg (ground arith) in
    (value, ap (λ x. x ∷ arg) (sym same) ∙ ap (λ (x : Text). c ∷ x) e)

-- The test of a joined option: longer than the option, and beginning with it.
value_test_iff :
    (option arg : Text)
    → ((ltb (length option) (length arg) && begins_with option arg) ≡ true) ↔ JoinedTo option arg
value_test_iff option arg = (to, from)
  where
    to : (ltb (length option) (length arg) && begins_with option arg) ≡ true → JoinedTo option arg
    to h =
        let (value, e) = begins_with-found option arg (ground arith) in
        (
          value,
          λ none_left.
              let l = length-append option value in
              let m = ap length e in let z = ap length none_left in absurd (ground arith),
          e,
        )

    long : (value : Text) → value ≢ [] → length option < length (option ++ value)
    long [] n = absurd (n refl)
    long (c ∷ value) n = let l = length-append option (c ∷ value) in omega arith

    from : JoinedTo option arg → (ltb (length option) (length arg) && begins_with option arg) ≡ true
    from (value, n, e) =
        subst (λ a. (ltb (length option) (length a) && begins_with option a) ≡ true) (sym e)
          (let l = long value n in let b = begins_with-append option value in ground arith)

choose :
    (arg : Text) (output joined dependency joined_dependency alone : Bool)
    → (output ≡ true → Takes arg)
    → (joined ≡ true → Joined arg)
    → (dependency ≡ true → Takes arg)
    → (joined_dependency ≡ true → Joined arg)
    → (alone ≡ true → Alone arg)
    → (Takes arg → (output || dependency) ≡ true)
    → (Joined arg → (joined || joined_dependency) ≡ true)
    → (Alone arg → alone ≡ true)
    → Means arg (
        if output
        then drop_with_next
        else if joined
        then drop
        else if dependency
        then drop_with_next
        else if joined_dependency
        then drop
        else if alone
        then drop
        else keep)
choose arg true j d jd a t1 j1 t2 j2 a1 t j' a' = t1 refl
choose arg false true d jd a t1 j1 t2 j2 a1 t j' a' = inl (j1 refl)
choose arg false false true jd a t1 j1 t2 j2 a1 t j' a' = t2 refl
choose arg false false false true a t1 j1 t2 j2 a1 t j' a' = inl (j2 refl)
choose arg false false false false true t1 j1 t2 j2 a1 t j' a' = inr (a1 refl)
choose arg false false false false false t1 j1 t2 j2 a1 t j' a' =
    (λ h. absurd (cc (t h)), λ h. absurd (cc (j' h)), λ h. absurd (cc (a' h)))

-- The options of the lists, for the tests that the source writes out.
five_of :
    (a b c d e : Bool) → ((a || b) || (c || d || e)) ≡ (a || (b || (c || (d || (e || false)))))
five_of a b c d e = ground arith

six_of :
    (a b c d e f : Bool)
    → (a || b || c || d || e || f) ≡ (a || (b || (c || (d || (e || (f || false))))))
six_of a b c d e f = ground arith

first_of : (a b : Bool) → a ≡ true → (a || b) ≡ true
first_of a b h = ground arith

second_of : (a b : Bool) → b ≡ true → (a || b) ≡ true
second_of a b h = ground arith

dependency_value_found :
    (arg : Text)
    → (ltb 3 (length arg)
        && (begins_with (codes "-MF") arg
            || begins_with (codes "-MT") arg
            || begins_with (codes "-MQ") arg))
      ≡ true
    → Joined arg
dependency_value_found arg h = elim (Bool-cases (begins_with (codes "-MF") arg)) [
  | inl f ↦
      (codes "-MF", Memᴰ.tail (Memᴰ.head refl), (value_test_iff (codes "-MF") arg).0 (ground arith))
  | inr nf ↦ elim (Bool-cases (begins_with (codes "-MT") arg)) [
    | inl t ↦ (
      codes "-MT",
      Memᴰ.tail (Memᴰ.tail (Memᴰ.head refl)),
      (value_test_iff (codes "-MT") arg).0 (ground arith),
    )
    | inr nt ↦ (
      codes "-MQ",
      Memᴰ.tail (Memᴰ.tail (Memᴰ.tail (Memᴰ.head refl))),
      (value_test_iff (codes "-MQ") arg).0 (ground arith),
    )
  ]
]

Joined-tests :
    (arg : Text)
    → Joined arg
    → ((ltb 2 (length arg) && begins_with (codes "-o") arg)
        || (ltb 3 (length arg)
            && (begins_with (codes "-MF") arg
                || begins_with (codes "-MT") arg
                || begins_with (codes "-MQ") arg)))
      ≡ true
Joined-tests arg (option, m, found) = elim (Memᴰ.cases_cons m) [
  | inl o ↦
      let t = (value_test_iff (codes "-o") arg).1 (subst (λ p. JoinedTo p arg) o found) in
      ground arith
  | inr m1 ↦ elim (Memᴰ.cases_cons m1) [
    | inl o ↦
        let t = (value_test_iff (codes "-MF") arg).1 (subst (λ p. JoinedTo p arg) o found) in
        ground arith
    | inr m2 ↦ elim (Memᴰ.cases_cons m2) [
      | inl o ↦
          let t = (value_test_iff (codes "-MT") arg).1 (subst (λ p. JoinedTo p arg) o found) in
          ground arith
      | inr m3 ↦ elim (Memᴰ.cases_cons m3) [
        | inl o ↦
            let t = (value_test_iff (codes "-MQ") arg).1 (subst (λ p. JoinedTo p arg) o found) in
            ground arith
        | inr none_left ↦ absurd (Memᴰ.not-nil none_left)
      ]
    ]
  ]
]

-- The tests for the options without a joined value are tests for the two lists.
takes_tests :
    (arg : Text)
    → ((text_eq arg (codes "-o") || text_eq arg (codes "--output"))
        || (text_eq arg (codes "-MF") || text_eq arg (codes "-MT") || text_eq arg (codes "-MQ")))
      ≡ in_list arg (codes "-o" ∷ codes "--output" ∷ codes "-MF" ∷ codes "-MT" ∷ codes "-MQ" ∷ [])
takes_tests arg =
    five_of (text_eq arg (codes "-o")) (text_eq arg (codes "--output")) (text_eq arg (codes "-MF"))
      (text_eq arg (codes "-MT")) (text_eq arg (codes "-MQ"))

alone_tests :
    (arg : Text)
    → (text_eq arg (codes "-M")
        || text_eq arg (codes "-MM")
        || text_eq arg (codes "-MD")
        || text_eq arg (codes "-MMD")
        || text_eq arg (codes "-MG")
        || text_eq arg (codes "-MP"))
      ≡ in_list arg
          (codes "-M" ∷ codes "-MM" ∷ codes "-MD" ∷ codes "-MMD" ∷ codes "-MG" ∷ codes "-MP" ∷ [])
alone_tests arg =
    six_of (text_eq arg (codes "-M")) (text_eq arg (codes "-MM")) (text_eq arg (codes "-MD"))
      (text_eq arg (codes "-MMD")) (text_eq arg (codes "-MG")) (text_eq arg (codes "-MP"))

pub arg_action-Means : (arg : Text) → Means arg (arg_action arg)
unfolding arg_action
arg_action-Means arg =
    let output = text_eq arg (codes "-o") || text_eq arg (codes "--output") in
    let dependency =
      text_eq arg (codes "-MF") || text_eq arg (codes "-MT") || text_eq arg (codes "-MQ") in
    choose arg output _ dependency _ _
      (λ h. in_list-Memᴰ arg _ (sym (takes_tests arg) ∙ first_of output dependency h))
      (λ h. (codes "-o", Memᴰ.head refl, (value_test_iff (codes "-o") arg).0 h))
      (λ h. in_list-Memᴰ arg _ (sym (takes_tests arg) ∙ second_of output dependency h))
      (dependency_value_found arg) (λ h. in_list-Memᴰ arg _ (sym (alone_tests arg) ∙ h))
      (λ m. takes_tests arg ∙ Memᴰ-in_list arg _ m) (Joined-tests arg)
      (λ m. alone_tests arg ∙ Memᴰ-in_list arg _ m)
