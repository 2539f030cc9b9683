-- ===== src/Summary/Effect.antt =====
-- Merging the effects of one parameter: what the result says, the flag, and that a second merge of
-- the same effect changes nothing.
use coretrace_stack_analyzer.Prelude.{
  ℕ, ◌≤◌, ◌≡◌, refl, ap, ◌↔◌, inl, inr, true, false, ◌||◌, List, [], ◌∷◌, ◌++◌, arith, length,
  length-append, Bool-cases,
}
use coretrace_stack_analyzer.ByteRanges.{RangeSet}
use coretrace_stack_analyzer.ByteRanges.Contains.{contains, IsNormal}
use coretrace_stack_analyzer.ByteRanges.Canonical.{canonical}
use coretrace_stack_analyzer.Summary.{
  PointerSlotWrite, ParamEffect, add_public_ranges, has_slot_write, add_slot_writes,
  merge_public_param_effect,
}
use coretrace_stack_analyzer.Summary.Ranges.{contains-add_public_ranges, add_public_ranges_exact}

abbrev pub IsNormalEffect : ParamEffect → Type 0
IsNormalEffect effect = IsNormal effect.read_before_write_ranges × IsNormal effect.write_ranges

length-add_slot_writes :
    (dst src : List PointerSlotWrite) → length dst ≤ length (add_slot_writes dst src).0
unfolding add_slot_writes
length-add_slot_writes dst [] = omega arith
length-add_slot_writes dst (w ∷ src) = elim (Bool-cases (has_slot_write dst w)) [
  | inl known ↦ rw known (length-add_slot_writes dst src)
  | inr fresh ↦
      rw fresh
        (omega (arith, length-add_slot_writes (dst ++ w ∷ []) src, length-append dst (w ∷ [])))
]

add_slot_writes_exact :
    (dst src : List PointerSlotWrite)
    → ((add_slot_writes dst src).1 ≡ false) ↔ ((add_slot_writes dst src).0 ≡ dst)
unfolding add_slot_writes
add_slot_writes_exact dst [] = (λ p. refl, λ p. refl)
add_slot_writes_exact dst (w ∷ src) = elim (Bool-cases (has_slot_write dst w)) [
  | inl known ↦ rw known (add_slot_writes_exact dst src)
  | inr fresh ↦ rw fresh (
    λ p. cc,
    λ p. absurd (
        omega (
          arith,
          ap length p,
          length-add_slot_writes (dst ++ w ∷ []) src,
          length-append dst (w ∷ []),
        )),
  )
]

has_slot_write-append :
    (xs ys : List PointerSlotWrite) (w : PointerSlotWrite)
    → has_slot_write (xs ++ ys) w ≡ (has_slot_write xs w || has_slot_write ys w)
unfolding has_slot_write
has_slot_write-append [] ys w = refl
has_slot_write-append (x ∷ xs) ys w = ground (arith, has_slot_write-append xs ys w)

has_slot_write_same :
    (dst : List PointerSlotWrite) (v w : PointerSlotWrite)
    → v.slot_offset ≡ w.slot_offset
    → v.write_size_bytes ≡ w.write_size_bytes
    → has_slot_write dst v ≡ has_slot_write dst w
has_slot_write_same dst v w h k =
    ap (has_slot_write dst) (λ i. record { slot_offset = h i; write_size_bytes = k i })

has_slot_write-add_slot_writes :
    (dst src : List PointerSlotWrite) (w : PointerSlotWrite)
    → has_slot_write (add_slot_writes dst src).0 w ≡ (has_slot_write dst w || has_slot_write src w)
unfolding add_slot_writes has_slot_write
has_slot_write-add_slot_writes dst [] w = ground arith
has_slot_write-add_slot_writes dst (v ∷ src) w = elim (Bool-cases (has_slot_write dst v)) [
  | inl known ↦
      rw known
        (ground (arith, has_slot_write-add_slot_writes dst src w, has_slot_write_same dst v w))
  | inr fresh ↦ rw fresh (
      ground (
        arith,
        has_slot_write-add_slot_writes (dst ++ v ∷ []) src w,
        has_slot_write-append dst (v ∷ []) w,
      ))
]

-- Every write of `src` is known after the merge.
add_slot_writes_known :
    (dst src : List PointerSlotWrite)
    → ((w : PointerSlotWrite) → has_slot_write src w ≡ true → has_slot_write dst w ≡ true)
    → add_slot_writes dst src ≡ (dst, false)
unfolding add_slot_writes has_slot_write
add_slot_writes_known dst [] h = refl
add_slot_writes_known dst (w ∷ src) h =
    let here : has_slot_write dst w ≡ true = h w (ground arith) in
    rw here (rw (add_slot_writes_known dst src λ v k. h v (ground arith)))

-- What a merge of parameter effects says: the bytes, the slot writes and the unknown effects of
-- both sides, and nothing else.
pub record MergesTo (dst src merged : ParamEffect) : Type 0 where
  pub reads :
      (x : ℕ)
      → contains merged.read_before_write_ranges x
        ≡ (contains dst.read_before_write_ranges x || contains src.read_before_write_ranges x)
  pub writes :
      (x : ℕ)
      → contains merged.write_ranges x
        ≡ (contains dst.write_ranges x || contains src.write_ranges x)
  pub slots :
      (w : PointerSlotWrite)
      → has_slot_write merged.pointer_slot_writes w
        ≡ (has_slot_write dst.pointer_slot_writes w || has_slot_write src.pointer_slot_writes w)
  pub unknown_read :
      merged.has_unknown_read_before_write
      ≡ (dst.has_unknown_read_before_write || src.has_unknown_read_before_write)
  pub unknown_write : merged.has_unknown_write ≡ (dst.has_unknown_write || src.has_unknown_write)

module _ (dst src : ParamEffect) (n : IsNormalEffect dst) where
  pub merge_public_param_effect-IsNormalEffect :
      IsNormalEffect (merge_public_param_effect dst src).0
  unfolding merge_public_param_effect
  merge_public_param_effect-IsNormalEffect = (
    (contains-add_public_ranges dst.read_before_write_ranges src.read_before_write_ranges n.0).0,
    (contains-add_public_ranges dst.write_ranges src.write_ranges n.1).0,
  )

  -- If the sets of `dst` are normal, the merge holds exactly the read bytes, written bytes, slot
  -- writes and unknown effects that one of the two sides holds.
  pub merge_public_param_effect-MergesTo : MergesTo dst src (merge_public_param_effect dst src).0
  unfolding merge_public_param_effect
  merge_public_param_effect-MergesTo = record {
    reads =
        (contains-add_public_ranges dst.read_before_write_ranges src.read_before_write_ranges
          n.0).1;
    writes = (contains-add_public_ranges dst.write_ranges src.write_ranges n.1).1;
    slots = has_slot_write-add_slot_writes dst.pointer_slot_writes src.pointer_slot_writes;
    unknown_read = refl;
    unknown_write = refl;
  }

  -- If the sets of `dst` are normal, the flag is false exactly when the merge is `dst` itself.
  pub merge_public_param_effect_exact :
      ((merge_public_param_effect dst src).1 ≡ false)
      ↔ ((merge_public_param_effect dst src).0 ≡ dst)
  unfolding merge_public_param_effect
  merge_public_param_effect_exact =
      let reads =
        add_public_ranges_exact dst.read_before_write_ranges src.read_before_write_ranges n.0 in
      let writes = add_public_ranges_exact dst.write_ranges src.write_ranges n.1 in
      let slots = add_slot_writes_exact dst.pointer_slot_writes src.pointer_slot_writes in
      (
        λ h. ground (arith, reads.0, writes.0, slots.0),
        λ p. ground (
          arith,
          ap (λ (t : ParamEffect). t.read_before_write_ranges) p,
          ap (λ (t : ParamEffect). t.write_ranges) p,
          ap (λ (t : ParamEffect). t.pointer_slot_writes) p,
          ap (λ (t : ParamEffect). t.has_unknown_read_before_write) p,
          ap (λ (t : ParamEffect). t.has_unknown_write) p,
        ),
      )

-- Ranges that are in the set already are added in vain.
add_public_ranges_again :
    (dst src : RangeSet)
    → IsNormal dst
    → add_public_ranges (add_public_ranges dst src).0 src ≡ ((add_public_ranges dst src).0, false)
add_public_ranges_again dst src n =
    let once : RangeSet = (add_public_ranges dst src).0 in
    let (normal, bytes) = contains-add_public_ranges dst src n in
    let (normal', bytes') = contains-add_public_ranges once src normal in
    let same : (add_public_ranges once src).0 ≡ once =
      canonical 0 0 _ _ normal' normal (λ x. ground (arith, bytes x, bytes' x)) in
    λ i. (same i, (add_public_ranges_exact once src normal).1 same i)

add_slot_writes_again :
    (dst src : List PointerSlotWrite)
    → add_slot_writes (add_slot_writes dst src).0 src ≡ ((add_slot_writes dst src).0, false)
add_slot_writes_again dst src =
    add_slot_writes_known (add_slot_writes dst src).0 src
      λ w h. ground (arith, has_slot_write-add_slot_writes dst src w)

-- A second merge of the same effect changes nothing and says so.
pub merge_public_param_effect_again :
    (dst src : ParamEffect)
    → IsNormalEffect dst
    → merge_public_param_effect (merge_public_param_effect dst src).0 src
      ≡ ((merge_public_param_effect dst src).0, false)
unfolding merge_public_param_effect
merge_public_param_effect_again dst src n =
    rw
      (
        add_public_ranges_again dst.read_before_write_ranges src.read_before_write_ranges n.0,
        add_public_ranges_again dst.write_ranges src.write_ranges n.1,
        add_slot_writes_again dst.pointer_slot_writes src.pointer_slot_writes,
      )
      (ground arith)
