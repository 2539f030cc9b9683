-- ===== src/Paths/Affixes.antt =====
-- What the tests for a prefix and for a suffix mean.
use coretrace_stack_analyzer.Prelude.{
  ℕ, suc, ◌-◌, ◌≤◌, ◌<◌, ◌≡◌, ◌≢◌, ◌⊎◌, ◌↔◌, inl, inr, refl, sym, ap, ◌∙◌, subst, Bool, true, false,
  [], ◌∷◌, ◌++◌, ◌==◌, ==_iff, arith, length, drop, take, get_or, Bool-cases, length-append,
  length-take, length-drop, take-append-drop, take-append_left, drop-append_left,
  get_or-append_left, get_or-append_right, get_or-take_lt,
}
use coretrace_stack_analyzer.Prelude.Text.{Text, text_eq, text_eq_iff}
use coretrace_stack_analyzer.Paths.{slash, path_has_prefix, path_has_suffix, affix_test}

-- Nothing follows, or a `/`.
abbrev pub BeginsAtSlash : Text → Type 0
BeginsAtSlash rest = (rest ≡ []) ⊎ (get_or rest 0 0 ≡ slash)

-- Nothing stands in front, or a `/` at the end.
abbrev pub EndsAtSlash : Text → Type 0
EndsAtSlash front = (front ≡ []) ⊎ (get_or front (length front - 1) 0 ≡ slash)

nil_of_length : (xs : Text) → length xs ≡ 0 → xs ≡ []
nil_of_length [] h = refl
nil_of_length (x ∷ xs) h = absurd (omega arith)

length_nil : (xs : Text) → xs ≡ [] → length xs ≡ 0
length_nil xs h = rw h refl

affix_test_iff :
    (size n : ℕ) (same : Bool) (boundary : ℕ)
    → (affix_test size n same boundary ≡ true)
      ↔ ((n ≤ size) × (same ≡ true) × ((size ≡ n) ⊎ (boundary ≡ slash)))
unfolding affix_test
affix_test_iff size n same boundary = ground arith

prefix_found :
    (path p : Text)
    → path_has_prefix path p ≡ true
    → (p ≢ []) × ((rest : Text) × (path ≡ p ++ rest) × BeginsAtSlash rest)
unfolding path_has_prefix
prefix_found path [] h = absurd (cc)
prefix_found path (c ∷ p) h =
    let n = length (c ∷ p) in
    let (le, same, boundary) =
      (affix_test_iff (length path) n (text_eq (take n path) (c ∷ p)) (get_or path n 0)).0 h in
    let front : take n path ≡ c ∷ p = (text_eq_iff (take n path) (c ∷ p)).0 same in
    let whole : path ≡ (c ∷ p) ++ drop n path =
      sym (take-append-drop n path) ∙ ap (λ (t : Text). t ++ drop n path) front in
    (
      λ e. absurd (cc),
      (
        drop n path,
        whole,
        elim boundary [
          | inl e ↦ inl (nil_of_length (drop n path) (omega (arith, length-drop n path)))
          | inr e ↦ inr (
              sym (get_or-append_right (c ∷ p) (drop n path) 0)
              ∙ ap (λ (t : Text). get_or t n 0) (sym whole)
              ∙ e)
        ],
      ),
    )

prefix_holds : (p rest : Text) → p ≢ [] → BeginsAtSlash rest → path_has_prefix (p ++ rest) p ≡ true
unfolding path_has_prefix
prefix_holds [] rest n b = absurd (n refl)
prefix_holds (c ∷ p) rest n b =
    let size = length-append (c ∷ p) rest in
    (affix_test_iff (length ((c ∷ p) ++ rest)) (length (c ∷ p))
        (text_eq (take (length (c ∷ p)) ((c ∷ p) ++ rest)) (c ∷ p))
        (get_or ((c ∷ p) ++ rest) (length (c ∷ p)) 0)).1
      (
        omega arith,
        (text_eq_iff _ _).1 (take-append_left (c ∷ p) rest),
        elim b [
          | inl e ↦ inl (omega (arith, length_nil rest e))
          | inr e ↦ inr (get_or-append_right (c ∷ p) rest 0 ∙ e)
        ],
      )

-- `pathHasPrefix` holds exactly if the prefix is not empty and the path is the prefix with nothing
-- behind it, or with a `/` first.
pub path_has_prefix_iff :
    (path prefix : Text)
    → (path_has_prefix path prefix ≡ true)
      ↔ ((prefix ≢ []) × ((rest : Text) × (path ≡ prefix ++ rest) × BeginsAtSlash rest))
path_has_prefix_iff path prefix =
    (prefix_found path prefix, λ (n, (rest, e, b)). rw e (prefix_holds prefix rest n b))

before_end : (a b : ℕ) → b ≤ a → (a == b) ≡ false → a - b - 1 < a - b
before_end a b le h = ground arith

suffix_found :
    (path s : Text)
    → path_has_suffix path s ≡ true
    → (s ≢ []) × ((front : Text) × (path ≡ front ++ s) × EndsAtSlash front)
unfolding path_has_suffix
suffix_found path [] h = absurd (cc)
suffix_found path (c ∷ s) h =
    let n = length (c ∷ s) in
    let k = length path - n in
    let (le, same, boundary) =
      (affix_test_iff (length path) n (text_eq (drop k path) (c ∷ s)) (get_or path (k - 1) 0)).0
        h in
    let back : drop k path ≡ c ∷ s = (text_eq_iff (drop k path) (c ∷ s)).0 same in
    let whole : path ≡ take k path ++ c ∷ s =
      sym (take-append-drop k path) ∙ ap (λ (t : Text). take k path ++ t) back in
    let size : length (take k path) ≡ k = omega (arith, length-take k path) in
    (
      λ e. absurd (cc),
      (
        take k path,
        whole,
        elim (Bool-cases (length path == n)) [
          | inl e ↦
              let all : length path ≡ n = (==_iff (length path) n).0 e in
              inl (nil_of_length (take k path) (omega arith))
          | inr e ↦ elim boundary [
            | inl e' ↦ absurd (ground arith)
            | inr e' ↦ inr (
                ap (λ i. get_or (take k path) (i - 1) 0) size
                ∙ get_or-take_lt k path (k - 1) 0 (before_end (length path) n le e)
                ∙ e')
          ]
        ],
      ),
    )

ends_in :
    (front s : Text)
    → EndsAtSlash front
    → (length (front ++ s) ≡ length s) ⊎ (get_or (front ++ s) (length front - 1) 0 ≡ slash)
ends_in [] s b = inl refl
ends_in (f ∷ front) s (inl e) = absurd (cc)
ends_in (f ∷ front) s (inr e) =
    inr (get_or-append_left (f ∷ front) s (length (f ∷ front) - 1) 0 (omega arith) ∙ e)

suffix_holds : (front s : Text) → s ≢ [] → EndsAtSlash front → path_has_suffix (front ++ s) s ≡ true
unfolding path_has_suffix
suffix_holds front [] n b = absurd (n refl)
suffix_holds front (c ∷ s) n b =
    let size = length-append front (c ∷ s) in
    let k : length front ≡ length (front ++ c ∷ s) - length (c ∷ s) = omega arith in
    let back : drop (length (front ++ c ∷ s) - length (c ∷ s)) (front ++ c ∷ s) ≡ c ∷ s =
      ap (λ i. drop i (front ++ c ∷ s)) (sym k) ∙ drop-append_left front (c ∷ s) in
    (affix_test_iff (length (front ++ c ∷ s)) (length (c ∷ s))
        (text_eq (drop (length (front ++ c ∷ s) - length (c ∷ s)) (front ++ c ∷ s)) (c ∷ s))
        (get_or (front ++ c ∷ s) (length (front ++ c ∷ s) - length (c ∷ s) - 1) 0)).1
      (
        omega arith,
        (text_eq_iff _ _).1 back,
        elim (ends_in front (c ∷ s) b) [
          | inl e ↦ inl e
          | inr e ↦ inr (ap (λ i. get_or (front ++ c ∷ s) (i - 1) 0) (sym k) ∙ e)
        ],
      )

-- `pathHasSuffix` holds exactly if the suffix is not empty and the path is the suffix with nothing in
-- front of it, or with a `/` last.
pub path_has_suffix_iff :
    (path suffix : Text)
    → (path_has_suffix path suffix ≡ true)
      ↔ ((suffix ≢ []) × ((front : Text) × (path ≡ front ++ suffix) × EndsAtSlash front))
path_has_suffix_iff path suffix =
    (suffix_found path suffix, λ (n, (front, e, b)). rw e (suffix_holds front suffix n b))

-- No two slashes stand side by side, as in every normalised path.
abbrev pub IsSingle : Text → Type 0
IsSingle [] = Unit
IsSingle (c ∷ []) = Unit
IsSingle (c ∷ d ∷ path) = (c ≡ slash → d ≢ slash) × IsSingle (d ∷ path)

single_end :
    (front s : Text) → IsSingle (front ++ slash ∷ s) → get_or front (length front - 1) 0 ≢ slash
single_end [] s h e = absurd (omega arith)
single_end (c ∷ []) s h e = h.0 e refl
single_end (c ∷ d ∷ front) s h e =
    let place : suc (length (d ∷ front) - 1) ≡ length (c ∷ d ∷ front) - 1 = omega arith in
    single_end (d ∷ front) s h.1 (ap (λ i. get_or (c ∷ d ∷ front) i 0) place ∙ e)

-- A suffix that begins with a `/` itself is one of a normalised path only if it is the whole path.
pub path_has_suffix-slash :
    (path suffix : Text)
    → IsSingle path
    → path_has_suffix path (slash ∷ suffix) ≡ true
    → path ≡ slash ∷ suffix
path_has_suffix-slash path suffix single h =
    let (n, (front, e, b)) = suffix_found path (slash ∷ suffix) h in
    elim b [
      | inl none_front ↦ e ∙ ap (λ (t : Text). t ++ slash ∷ suffix) none_front
      | inr last ↦ absurd (single_end front suffix (subst IsSingle e single) last)
    ]
