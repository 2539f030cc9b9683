-- ===== src/BufferModel/Glob/Ends.antt =====
-- The loop of `globMatches` ends on every pattern and every text.
use coretrace_stack_analyzer.Prelude.{
  ℕ, zero, suc, ◌+◌, ◌*◌, ◌≤◌, ◌<◌, Bool, Option, none, some, [], ◌∷◌, arith, ◌==◌, ◌||◌, length,
  Bool-cases, inl, inr,
}
use coretrace_stack_analyzer.Prelude.Text.{Text}
use coretrace_stack_analyzer.BufferModel.Glob.{star, question, Back, retry, glob_loop, glob_matches}

-- The run has ended with an answer.
abbrev pub Answers : Option Bool → Type 0
Answers none = ⊥
Answers (some b) = Unit

-- Patterns are shorter than `k`.
module _ (k : ℕ) where
  -- The saved position is not in front of the current one, and `m` bounds the text from it on.
  abbrev IsSaved : ℕ → Text → Back → Type 0
  IsSaved m text none = Unit
  IsSaved m text (some (behind, rest)) =
      (length text ≤ length rest) × (length rest ≤ m) × (length behind < k)

  record IsRound (fuel m : ℕ) (pattern text : Text) (back : Back) : Type 0 where
    saved : IsSaved m text back
    text_bound : length text ≤ m
    pattern_bound : length pattern < k
    fuel_bound : m * k + length pattern < fuel

  retry_ends :
      (fuel m : ℕ) (pattern : Text) (c : ℕ) (text : Text) (back : Back)
      (next : Text → Text → Back → Option Bool)
      → ((m' : ℕ) (p t : Text) (b : Back) → IsRound fuel m' p t b → Answers (next p t b))
      → IsRound (suc fuel) m pattern (c ∷ text) back
      → Answers (retry back next)
  unfolding retry
  retry_ends fuel m pattern c text none next ih r = tt
  retry_ends fuel m pattern c text (some (behind, [])) next ih r = tt
  retry_ends fuel zero pattern c text (some (behind, d ∷ rest)) next ih r = absurd (omega arith)
  retry_ends fuel (suc m) pattern c text (some (behind, d ∷ rest)) next ih r =
      let (t, l, b) = r.saved in
      ih m behind rest (some (behind, rest)) (record {
        saved = (omega arith, omega arith, b);
        text_bound = omega arith;
        pattern_bound = b;
        fuel_bound = omega arith;
      })

  IsSaved-on :
      (m c : ℕ) (text : Text) (back : Back) → IsSaved m (c ∷ text) back → IsSaved m text back
  IsSaved-on m c text none s = tt
  IsSaved-on m c text (some (behind, rest)) (t, l, b) = (omega arith, l, b)

  glob_loop_ends :
      (fuel m : ℕ) (pattern text : Text) (back : Back)
      → IsRound fuel m pattern text back
      → Answers (glob_loop fuel pattern text back)
  unfolding glob_loop
  glob_loop_ends zero m pattern text back r = absurd (omega arith)
  glob_loop_ends (suc fuel) m pattern [] back r = tt
  glob_loop_ends (suc fuel) m [] (c ∷ text) back r =
      retry_ends fuel m [] c text back (glob_loop fuel) (glob_loop_ends fuel) r
  glob_loop_ends (suc fuel) m (x ∷ pattern) (c ∷ text) back r =
      elim (Bool-cases (x == question || x == c)) [
        | inl met ↦ rw met (
            glob_loop_ends fuel m pattern text back (record {
              saved = IsSaved-on m c text back r.saved;
              text_bound = omega arith;
              pattern_bound = omega arith;
              fuel_bound = omega arith;
            }))
        | inr apart ↦ elim (Bool-cases (x == star)) [
          | inl at_star ↦
              rw (apart, at_star)
                (glob_loop_ends fuel m pattern (c ∷ text) _ (record {
                  saved = (omega arith, r.text_bound, omega arith);
                  text_bound = r.text_bound;
                  pattern_bound = omega arith;
                  fuel_bound = omega arith;
                }))
          | inr other ↦
              rw (apart, other)
                (retry_ends fuel m (x ∷ pattern) c text back (glob_loop fuel) (glob_loop_ends fuel)
                  r)
        ]
      ]

-- `globMatches` ends with an answer within as many rounds as the model allows it, on every pattern
-- and every text.
pub glob_matches-Answers : (pattern text : Text) → Answers (glob_matches pattern text)
unfolding glob_matches
glob_matches-Answers pattern text =
    glob_loop_ends (length pattern + 1) _ (length text) pattern text none (record {
      saved = tt;
      text_bound = omega arith;
      pattern_bound = omega arith;
      fuel_bound = omega arith;
    })
