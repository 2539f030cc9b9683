-- ===== src/BufferModel/Glob/Correct.antt =====
-- On names without a `*` the loop of `globMatches` ends and computes `matches`.
use coretrace_stack_analyzer.Prelude.{
  ℕ, zero, suc, ◌+◌, ◌*◌, ◌≤◌, ◌<◌, ◌≡◌, refl, ap, sym, ◌∙◌, Bool, true, false, Option, none, some,
  [], ◌∷◌, arith, ◌==◌, length, Bool-cases, inl, inr,
}
use coretrace_stack_analyzer.Prelude.Text.{Text}
use coretrace_stack_analyzer.BufferModel.Glob.{
  star, only_stars, Back, retry, glob_loop, glob_matches,
}
use coretrace_stack_analyzer.BufferModel.Glob.Reference.{
  some_suffix, meets, matches, star_matches, only_stars-matches, star_matches-drop,
  star_matches-star,
}

abbrev pub HasNoStar : Text → Type 0
HasNoStar [] = Unit
HasNoStar (c ∷ text) = ((c == star) ≡ false) × HasNoStar text

abbrev Holds : Bool → Type 0
Holds b = b ≡ true

-- `answer` is what the loop has to return; patterns are shorter than `k`.
module _ (answer : Bool) (k : ℕ) where
  -- What the saved position is good for; `m` bounds the text from it on.
  abbrev IsSaved : ℕ → Text → Text → Back → Type 0
  IsSaved m pattern text none = Holds answer → Holds (matches pattern text)
  IsSaved m pattern text (some (behind, rest)) =
      (Holds answer → Holds (star_matches behind rest))
      × (Holds (star_matches behind rest) → Holds answer)
      × (Holds (matches behind rest) → Holds (matches pattern text))
      × (length text ≤ length rest)
      × (length rest ≤ m)
      × (length behind < k)
      × HasNoStar rest

  record IsRound (fuel m : ℕ) (pattern text : Text) (back : Back) : Type 0 where
    hit : Holds (matches pattern text) → Holds answer
    ahead : Holds answer → Holds (star_matches pattern text)
    saved : IsSaved m pattern text back
    text_bound : length text ≤ m
    pattern_bound : length pattern < k
    fuel_bound : m * k + length pattern < fuel
    no_star : HasNoStar text

  bool_eq : (b : Bool) → (Holds b → Holds answer) → (Holds answer → Holds b) → b ≡ answer
  bool_eq b f g = ground arith

  -- The next round begins at the saved position, one byte on.
  restart :
      (fuel m : ℕ) (behind rest : Text)
      → (Holds answer → Holds (star_matches behind rest))
      → (Holds (star_matches behind rest) → Holds answer)
      → length rest ≤ m
      → length behind < k
      → m * k + length behind < fuel
      → HasNoStar rest
      → IsRound fuel m behind rest (some (behind, rest))
  unfolding some_suffix
  restart fuel m behind rest to from l b f n = record {
    hit = λ h. from (leave rest h);
    ahead = to;
    saved = (to, from, λ h. h, omega arith, l, b, n);
    text_bound = l;
    pattern_bound = b;
    fuel_bound = f;
    no_star = n;
  }
    where
      leave : (t : Text) → Holds (matches behind t) → Holds (star_matches behind t)
      leave [] h = h
      leave (c ∷ t) h = ground arith

  retry_lem :
      (fuel m : ℕ) (pattern : Text) (c : ℕ) (text : Text) (back : Back)
      (next : Text → Text → Back → Option Bool)
      → ((m' : ℕ) (p t : Text) (b : Back) → IsRound fuel m' p t b → next p t b ≡ some answer)
      → IsRound (suc fuel) m pattern (c ∷ text) back
      → matches pattern (c ∷ text) ≡ false
      → retry back next ≡ some answer
  unfolding retry some_suffix
  retry_lem fuel m pattern c text none next ih r miss =
      ap some (bool_eq false (λ h. cc) (λ h. cc (r.saved h, miss)))
  retry_lem fuel m pattern c text (some (behind, [])) next ih r miss = absurd (omega arith)
  retry_lem fuel zero pattern c text (some (behind, d ∷ rest)) next ih r miss = absurd (omega arith)
  retry_lem fuel (suc m) pattern c text (some (behind, d ∷ rest)) next ih r miss =
      let (to, from, down, _, l, b, n) = r.saved in
      ih m behind rest (some (behind, rest)) (
        restart fuel m behind rest (λ h. ground (arith, to h, down)) (λ h. from (ground arith))
          (omega arith) b (omega arith) n.1)

  IsSaved-byte :
      (m x : ℕ) (pattern : Text) (c : ℕ) (text : Text) (back : Back)
      → (x == star) ≡ false
      → IsSaved m (x ∷ pattern) (c ∷ text) back
      → IsSaved m pattern text back
  unfolding matches
  IsSaved-byte m x pattern c text none e s = λ h. ground (arith, s h)
  IsSaved-byte m x pattern c text (some (behind, rest)) e (to, from, down, t, l, b, n) =
      (to, from, λ h. ground (arith, down h), omega arith, l, b, n)

  byte-IsRound :
      (fuel m x : ℕ) (pattern : Text) (c : ℕ) (text : Text) (back : Back)
      → (x == star) ≡ false
      → meets x c ≡ true
      → IsRound (suc fuel) m (x ∷ pattern) (c ∷ text) back
      → IsRound fuel m pattern text back
  unfolding matches
  byte-IsRound fuel m x pattern c text back e met r = record {
    hit = λ h. r.hit (ground arith);
    ahead = λ h. star_matches-drop x pattern c text e (r.ahead h);
    saved = IsSaved-byte m x pattern c text back e r.saved;
    text_bound = omega arith;
    pattern_bound = omega arith;
    fuel_bound = omega arith;
    no_star = r.no_star.1;
  }

  star-IsRound :
      (fuel m x : ℕ) (pattern : Text) (c : ℕ) (text : Text) (back : Back)
      → (x == star) ≡ true
      → IsRound (suc fuel) m (x ∷ pattern) (c ∷ text) back
      → IsRound fuel m pattern (c ∷ text) (some (pattern, c ∷ text))
  unfolding matches
  star-IsRound fuel m x pattern c text back e r =
      restart fuel m pattern (c ∷ text) (λ h. star_matches-star x pattern (c ∷ text) e (r.ahead h))
        (λ h. r.hit (rw e h)) r.text_bound (omega arith) (omega arith) r.no_star

  mismatch :
      (x : ℕ) (pattern : Text) (c : ℕ) (text : Text)
      → (x == star) ≡ false
      → meets x c ≡ false
      → matches (x ∷ pattern) (c ∷ text) ≡ false
  unfolding matches
  mismatch x pattern c text e met = ground arith

  -- In a text without a star a byte that a pattern byte meets is no star.
  met-not_star : (x c : ℕ) → (c == star) ≡ false → meets x c ≡ true → (x == star) ≡ false
  met-not_star x c n met = ground arith

  glob_loop_lem :
      (fuel m : ℕ) (pattern text : Text) (back : Back)
      → IsRound fuel m pattern text back
      → glob_loop fuel pattern text back ≡ some answer
  unfolding glob_loop
  glob_loop_lem zero m pattern text back r = absurd (omega arith)
  glob_loop_lem (suc fuel) m pattern [] back r = ap some (
      bool_eq (only_stars pattern) (λ h. r.hit (only_stars-matches pattern ∙ h))
        (λ h. sym (only_stars-matches pattern) ∙ at_end (r.ahead h)))
    where
      at_end : Holds (star_matches pattern []) → Holds (matches pattern [])
      at_end h = unfold some_suffix in h
  glob_loop_lem (suc fuel) m [] (c ∷ text) back r =
      retry_lem fuel m [] c text back (glob_loop fuel) (glob_loop_lem fuel) r
        (unfold matches in refl)
  glob_loop_lem (suc fuel) m (x ∷ pattern) (c ∷ text) back r = elim (Bool-cases (meets x c)) [
    | inl met ↦ rw met (
        glob_loop_lem fuel m pattern text back
          (byte-IsRound fuel m x pattern c text back (met-not_star x c r.no_star.0 met) met r))
    | inr apart ↦ elim (Bool-cases (x == star)) [
      | inl at_star ↦
          rw (apart, at_star)
            (glob_loop_lem fuel m pattern (c ∷ text) _
              (star-IsRound fuel m x pattern c text back at_star r))
      | inr other ↦
          rw (apart, other)
            (retry_lem fuel m (x ∷ pattern) c text back (glob_loop fuel) (glob_loop_lem fuel) r
              (mismatch x pattern c text other apart))
    ]
  ]

-- On a text that has no `*` in it `globMatches` ends, whatever the pattern, and answers whether the
-- text matches the pattern.
pub glob_matches-eq-matches :
    (pattern text : Text) → HasNoStar text → glob_matches pattern text ≡ some (matches pattern text)
unfolding glob_matches
glob_matches-eq-matches pattern text n =
    glob_loop_lem (matches pattern text) (length pattern + 1) _ (length text) pattern text none
      (record {
        hit = λ h. h;
        ahead = leave text;
        saved = λ h. h;
        text_bound = omega arith;
        pattern_bound = omega arith;
        fuel_bound = omega arith;
        no_star = n;
      })
  where
    leave : (t : Text) → Holds (matches pattern t) → Holds (star_matches pattern t)
    leave [] h = unfold some_suffix in h
    leave (c ∷ t) h = unfold some_suffix in ground arith
