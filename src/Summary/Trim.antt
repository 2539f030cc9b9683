-- ===== src/Summary/Trim.antt =====
-- Trailing parameters without an effect, which a summary does not keep.
use coretrace_stack_analyzer.Prelude.{
  ℕ, zero, suc, ◌≤◌, ◌<◌, ◌≡◌, refl, ◌∙◌, sym, inl, inr, true, false, List, [], ◌∷◌, arith, length,
  take, get_or, length-take, take_all, get_or-take_lt, get_or_out, list_ext, ℕ_discrete, dec_lt,
  Bool-cases,
}
use coretrace_stack_analyzer.Summary.{
  ParamEffect, no_effect, is_nil, is_empty_public_param_effect, effective_count,
  effective_public_param_effect_count, trim_trailing_empty_public_param_effects,
}

abbrev pub effect_at : List ParamEffect → ℕ → ParamEffect
effect_at es i = get_or es i no_effect

effective_count-le : (es : List ParamEffect) (n : ℕ) → effective_count es n ≤ n
unfolding effective_count
effective_count-le es zero = omega arith
effective_count-le es (suc n) = ground (arith, effective_count-le es n)

is_nil→eq {ℓ} : {A : Type ℓ} (xs : List A) → is_nil xs ≡ true → xs ≡ []
is_nil→eq [] h = refl
is_nil→eq (x ∷ xs) h = cc

pub is_empty→eq : (e : ParamEffect) → is_empty_public_param_effect e ≡ true → e ≡ no_effect
unfolding is_empty_public_param_effect
is_empty→eq e h = ground (
  arith,
  is_nil→eq e.read_before_write_ranges,
  is_nil→eq e.write_ranges,
  is_nil→eq e.pointer_slot_writes,
)

-- Parameters from the count on have no effect.
effective_count_above :
    (es : List ParamEffect) (n i : ℕ)
    → effective_count es n ≤ i
    → i < n
    → effect_at es i ≡ no_effect
unfolding effective_count
effective_count_above es zero i h k = absurd (omega arith)
effective_count_above es (suc n) i h k =
    elim (Bool-cases (is_empty_public_param_effect (effect_at es n))) [
      | inl empty ↦ elim (ℕ_discrete i n) [
        | yes here ↦ rw here (is_empty→eq (effect_at es n) empty)
        | no other ↦ effective_count_above es n i (rw empty at h) (omega arith)
      ]
      | inr full ↦ absurd (let h' = rw full at h in omega arith)
    ]

-- The last parameter that is kept has an effect.
effective_count_last :
    (es : List ParamEffect) (n k : ℕ)
    → effective_count es n ≡ suc k
    → is_empty_public_param_effect (effect_at es k) ≡ false
unfolding effective_count
effective_count_last es zero k h = absurd (omega arith)
effective_count_last es (suc n) k h =
    elim (Bool-cases (is_empty_public_param_effect (effect_at es n))) [
      | inl empty ↦ effective_count_last es n k (rw empty at h)
      | inr full ↦ let same : n ≡ k = omega (arith, rw full at h) in rw same at full
    ]

module _ (es : List ParamEffect) where
  pub count-le-length : effective_public_param_effect_count es ≤ length es
  unfolding effective_public_param_effect_count
  count-le-length = effective_count-le es (length es)

  pub count_last :
      (k : ℕ)
      → effective_public_param_effect_count es ≡ suc k
      → is_empty_public_param_effect (effect_at es k) ≡ false
  unfolding effective_public_param_effect_count
  count_last k h = effective_count_last es (length es) k h

  -- A list whose last parameter has an effect is kept whole.
  pub count_full :
      (k : ℕ)
      → length es ≡ suc k
      → is_empty_public_param_effect (effect_at es k) ≡ false
      → effective_public_param_effect_count es ≡ length es
  unfolding effective_public_param_effect_count effective_count
  count_full k h full = rw (h, full)

  pub length-trim :
      length (trim_trailing_empty_public_param_effects es) ≡ effective_public_param_effect_count es
  unfolding trim_trailing_empty_public_param_effects
  length-trim =
      omega (arith, length-take (effective_public_param_effect_count es) es, count-le-length)

  -- Trimming changes no parameter: what is cut off has no effect.
  pub effect_at-trim :
      (i : ℕ) → effect_at (trim_trailing_empty_public_param_effects es) i ≡ effect_at es i
  unfolding trim_trailing_empty_public_param_effects effective_public_param_effect_count
  effect_at-trim i =
      let n = effective_count es (length es) in
      elim (dec_lt i n) [
        | yes kept ↦ get_or-take_lt n es i no_effect kept
        | no cut ↦
            get_or_out (take n es) i no_effect (omega (arith, length-take n es))
            ∙ sym (elim (dec_lt i (length es)) [
              | yes inside ↦ effective_count_above es (length es) i (omega arith) inside
              | no outside ↦ get_or_out es i no_effect (omega arith)
            ])
      ]

  -- A list that is as long as its count is not trimmed.
  pub trim_full :
      effective_public_param_effect_count es ≡ length es
      → trim_trailing_empty_public_param_effects es ≡ es
  unfolding trim_trailing_empty_public_param_effects
  trim_full h = take_all _ es (omega arith)

abbrev pub IsTrimmed : List ParamEffect → Type 0
IsTrimmed es = effective_public_param_effect_count es ≡ length es

pub trim-IsTrimmed :
    (es : List ParamEffect) → IsTrimmed (trim_trailing_empty_public_param_effects es)
trim-IsTrimmed es = go (effective_public_param_effect_count es) refl
  where
    cut : List ParamEffect
    cut = trim_trailing_empty_public_param_effects es

    go : (n : ℕ) → effective_public_param_effect_count es ≡ n → IsTrimmed cut
    go zero h = omega (arith, length-trim es, count-le-length cut)
    go (suc k) h =
        count_full cut k (omega (arith, length-trim es))
          (rw (effect_at-trim es k) (count_last es k h))

-- Of two trimmed lists with the same effects neither is longer.
length-le_of_same :
    (es fs : List ParamEffect)
    → IsTrimmed es
    → ((i : ℕ) → effect_at es i ≡ effect_at fs i)
    → length es ≤ length fs
unfolding is_empty_public_param_effect
length-le_of_same es fs t same = go (length es) refl
  where
    go : (n : ℕ) → length es ≡ n → length es ≤ length fs
    go zero h = omega arith
    go (suc k) h = elim (dec_lt k (length fs)) [
      | yes inside ↦ omega arith
      | no outside ↦
          let full = count_last es k (omega arith) in
          let out = same k ∙ get_or_out fs k no_effect (omega arith) in absurd (cc (rw out at full))
    ]

pub trimmed_ext :
    (es fs : List ParamEffect)
    → IsTrimmed es
    → IsTrimmed fs
    → ((i : ℕ) → effect_at es i ≡ effect_at fs i)
    → es ≡ fs
trimmed_ext es fs t u same =
    list_ext es fs no_effect
      (omega (arith, length-le_of_same es fs t same, length-le_of_same fs es u (λ i. sym (same i))))
      same
