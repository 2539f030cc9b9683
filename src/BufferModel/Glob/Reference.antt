-- ===== src/BufferModel/Glob/Reference.antt =====
-- What a pattern means, by recursion on the pattern alone.
use coretrace_stack_analyzer.Prelude.{
  ℕ, ◌≡◌, refl, Bool, true, false, ◌&&◌, ◌||◌, [], ◌∷◌, arith, ◌==◌, if◌then◌else◌,
}
use coretrace_stack_analyzer.Prelude.Text.{Text}
use coretrace_stack_analyzer.BufferModel.Glob.{star, question, only_stars}

-- Whether the text from some position on passes the test.
unfoldable pub some_suffix : (Text → Bool) → Text → Bool
some_suffix test [] = test []
some_suffix test (c ∷ text) = test (c ∷ text) || some_suffix test text

abbrev pub meets : ℕ → ℕ → Bool
meets x c = x == question || x == c

abbrev pub match_byte : ℕ → Text → (Text → Bool) → Bool
match_byte x [] rest = false
match_byte x (c ∷ text) rest = meets x c && rest text

-- A `*` stands for any run of bytes, a `?` for one byte, any other byte for itself.
unfoldable pub matches : Text → Text → Bool
unfolding some_suffix
matches [] [] = true
matches [] (c ∷ text) = false
matches (x ∷ pattern) text =
    if x == star then some_suffix (matches pattern) text else match_byte x text (matches pattern)

-- `matches` behind a `*`.
abbrev pub star_matches : Text → Text → Bool
star_matches pattern text = some_suffix (matches pattern) text

pub only_stars-matches : (pattern : Text) → matches pattern [] ≡ only_stars pattern
unfolding matches only_stars
only_stars-matches [] = refl
only_stars-matches (x ∷ pattern) = ground (arith, only_stars-matches pattern)

-- Behind a `*` a byte of the pattern other than `*` uses up a byte of the text.
pub star_matches-drop :
    (x : ℕ) (pattern : Text) (c : ℕ) (text : Text)
    → (x == star) ≡ false
    → star_matches (x ∷ pattern) (c ∷ text) ≡ true
    → star_matches pattern text ≡ true
unfolding matches
star_matches-drop x pattern c [] e h = ground arith
star_matches-drop x pattern c (d ∷ text) e h = ground (arith, star_matches-drop x pattern d text e)

-- Two stars are as good as one.
pub star_matches-star :
    (x : ℕ) (pattern text : Text)
    → (x == star) ≡ true
    → star_matches (x ∷ pattern) text ≡ true
    → star_matches pattern text ≡ true
unfolding matches
star_matches-star x pattern [] e h = ground arith
star_matches-star x pattern (c ∷ text) e h = ground (arith, star_matches-star x pattern text e)
