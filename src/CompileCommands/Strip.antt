-- ===== src/CompileCommands/Strip.antt =====
-- What `stripOutputAndDependencyArgs` leaves.
pub mod Forms
use coretrace_stack_analyzer.CompileCommands.Strip.Forms.{
  Takes, Joined, Alone, Means, arg_action-Means,
}
use mathlib.Core.List.{Memᴰ}
use mathlib.Core.List.Memᴰ
use coretrace_stack_analyzer.Prelude.{
  ℕ, suc, ◌<◌, ◌+◌, ◌≡◌, ◌≢◌, refl, sym, ap, subst, ◌∙◌, Bool, true, false, ◌&&◌, ◌||◌, List, [],
  ◌∷◌, ◌++◌, ◌↔◌, ◌⊎◌, inl, inr, Bool-cases, arith, ◌==◌, ==_iff, length, length-append, ltb,
  if◌then◌else◌,
}
use coretrace_stack_analyzer.Prelude.Text.{Text, codes, text_eq, text_eq_iff}
use coretrace_stack_analyzer.CompileCommands.{
  begins_with, ArgAction, drop_with_next, drop, keep, arg_action, strip_loop,
  strip_output_and_dependency_args,
}

-- The arguments without those options and without the values they take.
pub data StripsTo : List Text → List Text → Type 0 where
  ended : StripsTo [] []
  without_value : {arg : Text} → Takes arg → StripsTo (arg ∷ []) []
  with_value :
      {arg value : Text} {args left : List Text}
      → Takes arg
      → StripsTo args left
      → StripsTo (arg ∷ value ∷ args) left
  single :
      {arg : Text} {args left : List Text}
      → Joined arg ⊎ Alone arg
      → StripsTo args left
      → StripsTo (arg ∷ args) left
  kept :
      {arg : Text} {args left : List Text}
      → ¬ Takes arg
      → ¬ Joined arg
      → ¬ Alone arg
      → StripsTo args left
      → StripsTo (arg ∷ args) (arg ∷ left)

-- The arguments that `stripOutputAndDependencyArgs` leaves are all the others, in their order: it drops
-- each of -o, --output, -MF, -MT and -MQ with the argument behind it, each argument in which a value
-- is joined to -o, -MF, -MT or -MQ, and each of -M, -MM, -MD, -MMD, -MG and -MP. It drops no other,
-- such as --output=x.o or -Wp,-MD,x.d.
pub strip_output_and_dependency_args-StripsTo :
    (args : List Text) → StripsTo args (strip_output_and_dependency_args args)
unfolding strip_output_and_dependency_args strip_loop
strip_output_and_dependency_args-StripsTo [] = ended
strip_output_and_dependency_args-StripsTo (arg ∷ []) = go (arg_action arg) (arg_action-Means arg)
  where
    go :
        (action : ArgAction)
        → Means arg action
        → StripsTo
            (arg ∷ [])
            (elim action as (λ _. List Text) [ drop_with_next ↦ [] | drop ↦ [] | keep ↦ arg ∷ [] ])
    go drop_with_next t = without_value t
    go drop s = single s ended
    go keep (t, j, a) = kept t j a ended
strip_output_and_dependency_args-StripsTo (arg ∷ value ∷ args) =
    go (arg_action arg) (arg_action-Means arg) (strip_output_and_dependency_args-StripsTo args)
      (strip_output_and_dependency_args-StripsTo (value ∷ args))
  where
    go :
        (action : ArgAction)
        → Means arg action
        → StripsTo args (strip_output_and_dependency_args args)
        → StripsTo (value ∷ args) (strip_output_and_dependency_args (value ∷ args))
        → StripsTo (arg ∷ value ∷ args) (elim action as (λ _. List Text) [
          | drop_with_next ↦ strip_output_and_dependency_args args
          | drop ↦ strip_output_and_dependency_args (value ∷ args)
          | keep ↦ arg ∷ strip_output_and_dependency_args (value ∷ args)
        ])
    go drop_with_next t behind from_value = with_value t behind
    go drop s behind from_value = single s from_value
    go keep (t, j, a) behind from_value = kept t j a from_value
