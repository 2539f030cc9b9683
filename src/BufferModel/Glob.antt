-- ===== src/BufferModel/Glob.antt =====
-- `globMatches`: a pattern with `*` and `?` against a name. A position in the pattern or in the
-- text is what is left from there on. The loop runs on fuel, one step for a round.
pub mod Reference
pub mod Correct
pub mod Ends
pub mod StarInText
use coretrace_stack_analyzer.Prelude.{
  ℕ, zero, suc, ◌+◌, ◌*◌, Bool, true, false, ◌&&◌, ◌||◌, Option, none, some, List, [], ◌∷◌, ◌==◌,
  if◌then◌else◌, length,
}
use coretrace_stack_analyzer.Prelude.Text.{Text}

abbrev pub star : ℕ
star = b'*'

abbrev pub question : ℕ
question = b'?'

-- The loop behind the first one, and the final test.
unfoldable pub only_stars : Text → Bool
only_stars [] = true
only_stars (x ∷ pattern) = x == star && only_stars pattern

-- What stands behind the last `*` that was met, and the text from `match` on.
abbrev pub Back : Type 0
Back = Option (Text × Text)

-- The last two branches of the loop. Past the end of the text the loop is over.
unfoldable pub retry : Back → (Text → Text → Back → Option Bool) → Option Bool
unfolding only_stars
retry none next = some false
retry (some (behind, [])) next = some (only_stars behind)
retry (some (behind, c ∷ text)) next = next behind text (some (behind, text))

unfoldable pub glob_loop : ℕ → Text → Text → Back → Option Bool
unfolding retry
glob_loop zero pattern text back = none
glob_loop (suc fuel) pattern [] back = some (only_stars pattern)
glob_loop (suc fuel) [] (c ∷ text) back = retry back (glob_loop fuel)
glob_loop (suc fuel) (x ∷ pattern) (c ∷ text) back =
    let same = glob_loop fuel pattern text back in
    let at_star = glob_loop fuel pattern (c ∷ text) (some (pattern, c ∷ text)) in
    let again = retry back (glob_loop fuel) in
    if x == question || x == c then same else if x == star then at_star else again

-- `none` would be a loop that has not ended.
unfoldable pub glob_matches : Text → Text → Option Bool
unfolding glob_loop
glob_matches pattern text =
    glob_loop ((length text + 1) * (length pattern + 1) + 1) pattern text none
