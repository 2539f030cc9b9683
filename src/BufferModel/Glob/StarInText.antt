-- ===== src/BufferModel/Glob/StarInText.antt =====
-- `globMatches` on a text that has a `*` in it.
use coretrace_stack_analyzer.Prelude.{
  ℕ, suc, ◌+◌, ◌*◌, ◌≡◌, refl, ap, ◌∙◌, true, false, none, some, [], ◌∷◌, arith, length,
}
use coretrace_stack_analyzer.Prelude.Text.{Text}
use coretrace_stack_analyzer.BufferModel.Glob.{star, retry, glob_loop, glob_matches}
use coretrace_stack_analyzer.BufferModel.Glob.Reference.{some_suffix, matches}

some_suffix-nil : (text : Text) → some_suffix (matches []) text ≡ true
unfolding some_suffix matches
some_suffix-nil [] = refl
some_suffix-nil (c ∷ text) = ground (arith, some_suffix-nil text)

glob_loop-star :
    (fuel c : ℕ) (text : Text)
    → glob_loop (suc (suc fuel)) (star ∷ []) (star ∷ c ∷ text) none ≡ some false
unfolding glob_loop retry
glob_loop-star fuel c text = refl

-- The pattern `*` matches every text that begins with a `*` and another byte, and `globMatches`
-- answers false on it.
pub glob_matches-star_in_text :
    (c : ℕ) (text : Text)
    → (glob_matches (star ∷ []) (star ∷ c ∷ text) ≡ some false)
      × (matches (star ∷ []) (star ∷ c ∷ text) ≡ true)
unfolding glob_matches matches
glob_matches-star_in_text c text = (
  ap (λ fuel. glob_loop fuel (star ∷ []) (star ∷ c ∷ text) none) enough
      ∙ glob_loop-star (length text + (length text + 5)) c text,
  some_suffix-nil (star ∷ c ∷ text),
)
  where
    enough :
        (length (star ∷ c ∷ text) + 1) * (length (star ∷ []) + 1) + 1
        ≡ suc (suc (length text + (length text + 5)))
    enough = omega arith
