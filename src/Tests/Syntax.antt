-- ===== src/Tests/Syntax.antt =====
-- A workflow document at a concrete input.
use forgelet.Prelude.{◌≡◌, refl, text, [], ◌∷◌, inl, inr, All, lookup, Text-discrete}
use forgelet.Syntax.Parse.{is_identifier}
use forgelet.Syntax.Jobs.Print.{IsJob, IsStep}
use forgelet.Syntax.Document.{parse_document}
use forgelet.Syntax.Document.Print.{print_workflow, parse_document-print}
use forgelet.Tests.Compile.{workflow, quoted, checkout_step, make_step}

checkout_step-IsStep : IsStep checkout_step
unfolding lookup Text-discrete
checkout_step-IsStep = (tt, (refl, (refl, tt)), inr (refl, refl))

make_step-IsStep : IsStep make_step
make_step-IsStep = (tt, tt, inl (refl, refl, refl))

workflow-IsJob : All IsJob workflow.jobs
unfolding is_identifier lookup
workflow-IsJob =
    let steps : All IsStep (checkout_step ∷ make_step ∷ []) =
      (checkout_step-IsStep, (make_step-IsStep, tt)) in
    (
      (refl, tt, tt, tt, steps),
      ((refl, tt, (refl, tt), (refl, tt), steps), ((refl, tt, tt, tt, steps), tt)),
    )

parse_document-print_example :
    parse_document (text "ci.yml") quoted (λ n. []) (inl (print_workflow workflow)) ≡ inl workflow
parse_document-print_example =
    parse_document-print (text "ci.yml") quoted (λ n. []) workflow refl workflow-IsJob
