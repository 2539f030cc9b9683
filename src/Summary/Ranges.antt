-- ===== src/Summary/Ranges.antt =====
-- `addPublicRange` does what `addRange` does, and its flag is exact.
use coretrace_stack_analyzer.Prelude.{
  ℕ, suc, ◌≤◌, ◌<◌, ◌≡◌, refl, ap, ◌↔◌, true, false, ◌||◌, [], ◌∷◌, min, max, arith, length, leb,
  or-false_iff, ◌∙◌, sym, inl, inr, Bool-cases, ltb,
}
use coretrace_stack_analyzer.ByteRanges.{
  ByteRange, RangeSet, range, absorb, insert_range, add_range,
}
use coretrace_stack_analyzer.ByteRanges.Contains.{inside, contains, IsNormalFrom, IsNormal}
use coretrace_stack_analyzer.ByteRanges.Add.{contains-add_range}
use coretrace_stack_analyzer.ByteRanges.Canonical.{canonical}
use coretrace_stack_analyzer.Summary.{
  absorbs_next, insert_public_range, add_public_range, add_public_ranges,
}

insert_public_range-eq :
    (rs : RangeSet) (b e : ℕ) → (insert_public_range rs b e).0 ≡ insert_range rs b e
unfolding insert_public_range insert_range
insert_public_range-eq [] b e = refl
insert_public_range-eq (it ∷ rs) b e = ground (arith, insert_public_range-eq rs b e)

length-absorb : (b e : ℕ) (rs : RangeSet) → length (absorb b e rs) ≤ suc (length rs)
unfolding absorb
length-absorb b e [] = omega arith
length-absorb b e (r ∷ rs) = ground (arith, length-absorb b (max e r.end) rs)

-- A range that absorbs its successor leaves fewer ranges.
absorb-ne :
    (r : ByteRange) (b e : ℕ) (rs : RangeSet)
    → absorbs_next e rs ≡ true
    → absorb b e rs ≡ r ∷ rs
    → ⊥
unfolding absorb absorbs_next
absorb-ne r b e [] h eq = cc
absorb-ne r b e (n ∷ rs) h eq = ground (arith, length-absorb b (max e n.end) rs, ap length eq)

absorb_stop : (b e : ℕ) (rs : RangeSet) → absorbs_next e rs ≡ false → absorb b e rs ≡ range b e ∷ rs
unfolding absorb absorbs_next
absorb_stop b e [] h = refl
absorb_stop b e (n ∷ rs) h = rw h

-- Growing `it` to `[b, e)` changes nothing exactly when the flag that the source computes is false.
absorb_exact :
    (it : ByteRange) (b e : ℕ) (rs : RangeSet)
    → (absorb b e rs ≡ it ∷ rs) ↔ ((b ≡ it.first) × (e ≡ it.end) × (absorbs_next e rs ≡ false))
absorb_exact it b e rs = elim (Bool-cases (absorbs_next e rs)) [
  | inl more ↦ (λ eq. absurd (absorb-ne it b e rs more eq), λ h. cc (h.2, more))
  | inr stop ↦ rw (absorb_stop b e rs stop) (
    λ eq. (ap head_first eq, ap head_end eq, stop),
    λ h. ap (λ (r : ByteRange). r ∷ rs) (λ i. record { first = h.0 i; end = h.1 i }),
  )
]
  where
    head_first : RangeSet → ℕ
    head_first [] = 0
    head_first (r ∷ _) = r.first

    head_end : RangeSet → ℕ
    head_end [] = 0
    head_end (r ∷ _) = r.end

insert_public_range_exact :
    (lo : ℕ) (rs : RangeSet) (b e : ℕ)
    → IsNormalFrom lo rs
    → b < e
    → ((insert_public_range rs b e).1 ≡ false) ↔ (insert_range rs b e ≡ rs)
unfolding insert_public_range insert_range
insert_public_range_exact lo [] b e n h = (λ p. cc, λ p. cc)
insert_public_range_exact lo (it ∷ rs) b e n h = elim (Bool-cases (ltb it.end b)) [
  | inl later ↦
      let (forth, back) = insert_public_range_exact (suc it.end) rs b e n.2 h in
      rw later (λ p. ap (λ (t : RangeSet). it ∷ t) (forth p), λ p. back (cc))
  | inr touch ↦ elim (Bool-cases (ltb e it.first)) [
    | inl before ↦ rw (touch, before) (λ p. cc, λ p. ground (arith, ap length p))
    | inr meets ↦
        rw (touch, meets) (ground (arith, absorb_exact it (min it.first b) (max it.end e) rs))
  ]
]

-- On a normal set `addPublicRange` leaves the set that `addRange` leaves, and its flag is false
-- exactly when that is the set it was given.
pub add_public_range_lem :
    (rs : RangeSet) (b e : ℕ)
    → IsNormal rs
    → ((add_public_range rs b e).0 ≡ add_range rs b e)
      × (((add_public_range rs b e).1 ≡ false) ↔ ((add_public_range rs b e).0 ≡ rs))
unfolding add_public_range add_range
add_public_range_lem rs b e n = elim (Bool-cases (leb e b)) [
  | inl none_added ↦ rw none_added (refl, (λ p. refl, λ p. refl))
  | inr some_added ↦
      let same = insert_public_range-eq rs b e in
      rw (some_added, same) (refl, insert_public_range_exact 0 rs b e n (ground arith))
]

pub contains-add_public_range :
    (rs : RangeSet) (b e : ℕ)
    → IsNormal rs
    → IsNormal (add_public_range rs b e).0
      × ((x : ℕ) → contains (add_public_range rs b e).0 x ≡ (inside (range b e) x || contains rs x))
contains-add_public_range rs b e n =
    rw ((add_public_range_lem rs b e n).0) (contains-add_range rs b e n)

-- The loop over several ranges.
pub contains-add_public_ranges :
    (dst src : RangeSet)
    → IsNormal dst
    → IsNormal (add_public_ranges dst src).0
      × ((x : ℕ) → contains (add_public_ranges dst src).0 x ≡ (contains dst x || contains src x))
unfolding add_public_ranges contains
contains-add_public_ranges dst [] n = (n, λ x. ground arith)
contains-add_public_ranges dst (r ∷ src) n =
    let (normal, one) = contains-add_public_range dst r.first r.end n in
    let (normal', more) =
      contains-add_public_ranges (add_public_range dst r.first r.end).0 src normal in
    (normal', λ x. ground (arith, one x, more x))

pub add_public_ranges_exact :
    (dst src : RangeSet)
    → IsNormal dst
    → ((add_public_ranges dst src).1 ≡ false) ↔ ((add_public_ranges dst src).0 ≡ dst)
unfolding add_public_ranges
add_public_ranges_exact dst [] n = (λ p. refl, λ p. refl)
add_public_ranges_exact dst (r ∷ src) n =
    let added : RangeSet = (add_public_range dst r.first r.end).0 in
    let (normal, one) = contains-add_public_range dst r.first r.end n in
    let step = (add_public_range_lem dst r.first r.end n).1 in
    let rest = add_public_ranges_exact added src normal in
    let more = (contains-add_public_ranges added src normal).1 in
    (
      λ p. let (h, k) = (or-false_iff _ _).0 p in rest.0 k ∙ step.0 h,
      λ p.
          let back : added ≡ dst =
            canonical 0 0 added dst normal n
              (λ x. ground (arith, one x, more x, ap (λ t. contains t x) p)) in
          (or-false_iff _ _).1 (step.1 back, rest.1 (p ∙ sym back)),
    )
