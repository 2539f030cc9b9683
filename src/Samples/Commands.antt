-- ===== src/Samples/Commands.antt =====
-- Command lines and the comparison of summaries on small inputs.
use coretrace_stack_analyzer.Prelude.{◌≡◌, refl, List, [], ◌∷◌}
use coretrace_stack_analyzer.Prelude.Text.{Text, codes}
use coretrace_stack_analyzer.CompileCommands.{
  tokenize_command_line, strip_output_and_dependency_args,
}
use coretrace_stack_analyzer.CompileCommands.Quote.{
  command_line, IsQuotable, tokenize_command_line-command_line,
}
use coretrace_stack_analyzer.CompileCommands.Strip.{
  StripsTo, strip_output_and_dependency_args-StripsTo,
}

-- A space between quotes and an escaped space belong to their token.
tokenize_run :
    tokenize_command_line (codes "cc  -DX='a b' c\\ d")
    ≡ codes "cc" ∷ codes "-DX=a b" ∷ codes "c d" ∷ []
unfolding tokenize_command_line
tokenize_run = refl

two_words-IsQuotable : IsQuotable (codes "a b")
two_words-IsQuotable = (λ h. cc, (refl, (refl, (refl, tt))))

tokenize_command_line-command_line_example :
    tokenize_command_line (command_line (codes "a b" ∷ codes "a b" ∷ []))
    ≡ codes "a b" ∷ codes "a b" ∷ []
tokenize_command_line-command_line_example =
    tokenize_command_line-command_line (codes "a b" ∷ codes "a b" ∷ [])
      (two_words-IsQuotable, (two_words-IsQuotable, tt))

abbrev arguments : List Text
arguments =
    codes "-c"
    ∷ codes "-MF"
    ∷ codes "x.d"
    ∷ codes "-MD"
    ∷ codes "-o"
    ∷ codes "x.o"
    ∷ codes "x.c"
    ∷ []

strip_run : strip_output_and_dependency_args arguments ≡ codes "-c" ∷ codes "x.c" ∷ []
unfolding strip_output_and_dependency_args
strip_run = refl

-- Forms that look like those that are dropped.
abbrev kept_forms : List Text
kept_forms = codes "--output=x.o" ∷ codes "-Wp,-MD,x.d" ∷ []

strip_kept_run : strip_output_and_dependency_args kept_forms ≡ kept_forms
unfolding strip_output_and_dependency_args
strip_kept_run = refl

strip_output_and_dependency_args-StripsTo_example :
    StripsTo arguments (strip_output_and_dependency_args arguments)
strip_output_and_dependency_args-StripsTo_example =
    strip_output_and_dependency_args-StripsTo arguments
