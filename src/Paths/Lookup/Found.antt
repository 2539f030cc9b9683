-- ===== src/Paths/Lookup/Found.antt =====
-- Which entries of a compilation database a file can be given.
use mathlib.Core.List.{Memᴰ}
use mathlib.Core.List.Memᴰ
use coretrace_stack_analyzer.Prelude.{
  ◌≡◌, inl, inr, refl, sym, ap, ap₂, ◌∙◌, subst, true, ◌&&◌, not, Option, none, some, List, [], ◌∷◌,
  ◌++◌, ◌==◌, ==_iff, arith, Bool-cases, Option-cases,
}
use coretrace_stack_analyzer.Prelude.Text.{Text, text_eq, text_eq_iff}
use coretrace_stack_analyzer.Paths.{slash, path_has_suffix}
use coretrace_stack_analyzer.Paths.Affixes.{IsSingle, path_has_suffix-slash}
use coretrace_stack_analyzer.Paths.Lookup.{
  is_last, suffixes_from, build_path_suffixes, SuffixMatch, nothing, several, only, match_suffix,
  find_path, find_by_suffix, find_key, find_command_for_file,
}

-- The text begins with a `/` and ends the path.
abbrev pub IsTail : Text → Text → Type 0
IsTail path s = ((front : Text) × (path ≡ front ++ s)) × ((t : Text) × (s ≡ slash ∷ t))

suffixes_from-IsTail : (path s : Text) → Memᴰ s (suffixes_from path) → IsTail path s
unfolding suffixes_from
suffixes_from-IsTail [] s m = absurd (Memᴰ.not-nil m)
suffixes_from-IsTail (c ∷ rest) s m = elim (Bool-cases (c == slash && not (is_last rest))) [
  | inl begins ↦ elim (Memᴰ.cases_cons (rw (suffixes_from, begins) at m)) [
    | inl e ↦ (([], sym e), (rest, e ∙ ap (λ d. d ∷ rest) ((==_iff c slash).0 (ground arith))))
    | inr m' ↦ later (suffixes_from-IsTail rest s m')
  ]
  | inr skipped ↦ later (suffixes_from-IsTail rest s (rw (suffixes_from, skipped) at m))
]
  where
    later : IsTail rest s → IsTail (c ∷ rest) s
    later ((front, e), t) = ((c ∷ front, ap (λ (x : Text). c ∷ x) e), t)

module _ {ℓ} {A : Type ℓ} where
  abbrev pub AreSingle : List (Text × A) → Type 0
  AreSingle [] = Unit
  AreSingle ((path, command) ∷ commands) = IsSingle path × AreSingle commands

  find_path-Memᴰ :
      (commands : List (Text × A)) (key : Text) (a : A)
      → find_path commands key ≡ some a
      → Memᴰ (key, a) commands
  unfolding find_path
  find_path-Memᴰ [] key a h = absurd (cc)
  find_path-Memᴰ ((path, command) ∷ commands) key a h = elim (Bool-cases (text_eq path key)) [
    | inl same ↦
        let here : command ≡ a = cc (rw (find_path, same) at h) in
        Memᴰ.head
          (ap₂ (λ (x : Text) (y : A). (x, y)) (sym ((text_eq_iff path key).0 same)) (sym here))
    | inr other ↦ Memᴰ.tail (find_path-Memᴰ commands key a (rw (find_path, other) at h))
  ]

  match_suffix-Memᴰ :
      (commands : List (Text × A)) (t : Text) (a : A)
      → AreSingle commands
      → match_suffix commands (slash ∷ t) ≡ only a
      → Memᴰ (slash ∷ t, a) commands
  unfolding match_suffix
  match_suffix-Memᴰ [] t a all h = absurd (cc)
  match_suffix-Memᴰ ((path, command) ∷ commands) t a all h =
      elim (Bool-cases (path_has_suffix path (slash ∷ t))) [
        | inl has ↦ here has (match_suffix commands (slash ∷ t)) refl
        | inr other ↦
            Memᴰ.tail (match_suffix-Memᴰ commands t a all.1 (rw (match_suffix, other) at h))
      ]
    where
      here :
          path_has_suffix path (slash ∷ t) ≡ true
          → (later : SuffixMatch A) → match_suffix commands (slash ∷ t) ≡ later
          → Memᴰ (slash ∷ t, a) ((path, command) ∷ commands)
      here has several e = absurd (cc (rw (match_suffix, has, e) at h))
      here has (only c) e = absurd (cc (rw (match_suffix, has, e) at h))
      here has nothing e =
          let same : command ≡ a = cc (rw (match_suffix, has, e) at h) in
          Memᴰ.head (
            ap₂ (λ (x : Text) (y : A). (x, y)) (sym (path_has_suffix-slash path t all.0 has))
              (sym same))

  -- An entry whose path ends the other path, or is it.
  abbrev pub EntryFor : List (Text × A) → Text → A → Type ℓ
  EntryFor commands key a =
      (path : Text) × Memᴰ (path, a) commands × ((front : Text) × (key ≡ front ++ path))

  find_by_suffix-EntryFor :
      (commands : List (Text × A)) (key : Text) (suffixes : List Text) (a : A)
      → AreSingle commands
      → ((s : Text) → Memᴰ s suffixes → IsTail key s)
      → find_by_suffix commands suffixes ≡ some a
      → EntryFor commands key a
  unfolding find_by_suffix
  find_by_suffix-EntryFor commands key [] a all tails h = absurd (cc)
  find_by_suffix-EntryFor commands key (suffix ∷ suffixes) a all tails h =
      go (match_suffix commands suffix) refl
        (find_by_suffix-EntryFor commands key suffixes a all (λ s m. tails s (Memᴰ.tail m)))
    where
      go :
          (o : SuffixMatch A)
          → match_suffix commands suffix ≡ o
          → (find_by_suffix commands suffixes ≡ some a → EntryFor commands key a)
          → EntryFor commands key a
      go nothing e ih = ih (rw (find_by_suffix, e) at h)
      go several e ih = absurd (cc (rw (find_by_suffix, e) at h))
      go (only c) e ih =
          let ((front, whole), (t, begins)) = tails suffix (Memᴰ.head refl) in
          let same : c ≡ a = cc (rw (find_by_suffix, e) at h) in
          let entry =
            match_suffix-Memᴰ commands t c all (ap (match_suffix commands) (sym begins) ∙ e) in
          (
            slash ∷ t,
            subst (λ x. Memᴰ (slash ∷ t, x) commands) same entry,
            (front, whole ∙ ap (λ (x : Text). front ++ x) begins),
          )

  find_key-EntryFor :
      (commands : List (Text × A)) (key : Text) (a : A)
      → AreSingle commands
      → find_key commands key ≡ some a
      → EntryFor commands key a
  unfolding find_key build_path_suffixes
  find_key-EntryFor commands key a all h = elim (Option-cases (find_path commands key)) [
    | inr (command, e) ↦
        let same : command ≡ a = cc (rw (find_key, e) at h) in
        (key, find_path-Memᴰ commands key a (e ∙ ap some same), ([], refl))
    | inl missing ↦ by_suffix key (rw (find_key, missing) at h)
  ]
    where
      by_suffix :
          (k : Text)
          → (elim (build_path_suffixes k) as (λ _. Option A) [
            | [] ↦ none
            | full ∷ suffixes ↦ find_by_suffix commands suffixes
          ])
            ≡ some a
          → EntryFor commands k a
      by_suffix [] e = absurd (cc)
      by_suffix (c ∷ rest) e =
          let (path, m, (front, whole)) =
            find_by_suffix-EntryFor commands rest (suffixes_from rest) a all
              (λ s m. suffixes_from-IsTail rest s m) e in
          (path, m, (c ∷ front, ap (λ (x : Text). c ∷ x) whole))

-- Where `findCommandForFile` gives a command of a database of normalised paths, it is that of an entry
-- whose path is the normalised path of the file or an end of it. An entry whose path is no such end
-- is never given.
pub find_command_for_file-EntryFor :
    {A : Type 0} (normalize : Text → Text) (commands : List (Text × A)) (file : Text) (a : A)
    → AreSingle commands
    → find_command_for_file normalize commands file ≡ some a
    → EntryFor commands (normalize file) a
unfolding find_command_for_file
find_command_for_file-EntryFor normalize commands [] a all h = absurd (cc)
find_command_for_file-EntryFor normalize commands (c ∷ file) a all h =
    find_key-EntryFor commands (normalize (c ∷ file)) a all h
