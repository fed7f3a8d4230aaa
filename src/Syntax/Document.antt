-- ===== src/Syntax/Document.antt =====
-- internal/workflow/syntax/parse.go: the triggers, the workflow, and `Parse`.
pub mod Print
use forgelet.Prelude.{
  ℕ, zero, suc, Bool, true, false, ◌||◌, Option, none, some, List, [], ◌∷◌, ◌++◌, Text, text,
  text_key, is, is_empty, if◌then◌else◌, ◌⊎◌, inl, inr,
}
use forgelet.Syntax.Ast.{Diagnostic, PushTrigger, Triggers, JobNode, Workflow}
use forgelet.Syntax.Node.{
  Kind, document, sequence, mapping, scalar, alias, Node, Nodes, end, more, kind_of, tag_of,
  value_of, content_of,
}
use forgelet.Syntax.Parse.{
  Noted, subset_message, unwrap_doc, no_push, fail, walk_mapping, scalar_string, string_seq,
}
use forgelet.Syntax.Jobs.{into, parse_jobs}

abbrev pub no_triggers : Triggers
no_triggers = record { push = none; pull_request = none; schedule = [] }

abbrev pub is_scalar : Kind → Bool
is_scalar scalar = true
is_scalar _ = false

-- A visit that looks at nothing: only the keys are checked.
abbrev pub pass : {S : Type 0} → Text → Node → Node → S → Noted S
pass name key value s = (s, [])

module _ (file : Text) (quote : Text → Text) (decimal : ℕ → Text) where
  unfoldable pub visit_push : Text → Node → Node → PushTrigger → Noted PushTrigger
  unfolding string_seq
  visit_push name key value t =
      if is name (text "branches")
      then into (λ v. record t { branches = v })
          (string_seq file quote decimal value (text ".on.push.branches"))
      else (if is name (text "branches-ignore")
          then into (λ v. record t { branches_ignore = v })
              (string_seq file quote decimal value (text ".on.push.branches-ignore"))
          else (t, []))

  unfoldable pub parse_push : Node → Noted (Option PushTrigger)
  unfolding walk_mapping visit_push
  parse_push n =
      let refused : Noted (Option PushTrigger) = (
        none,
        fail file quote decimal n (text ".on.push") (text "expected mapping of push filters") ∷ [],
      ) in
      elim (kind_of n) [
        | mapping ↦
            into (λ t. some t)
              (walk_mapping file quote decimal n (text ".on.push")
                (text "branches" ∷ text "branches-ignore" ∷ []) visit_push no_push)
        | scalar ↦
            if is (tag_of n) (text "!!null") || is_empty (value_of n)
            then (some no_push, [])
            else refused
        | document ↦ refused
        | sequence ↦ refused
        | alias ↦ refused
      ]

  -- The values of the keys `cron` of one item.
  unfoldable pub crons_of : Nodes → Text → Noted (List Text)
  unfolding scalar_string
  crons_of end path = ([], [])
  crons_of (more key end) path = ([], [])
  crons_of (more key (more value rest)) path =
      let (cs, es) = crons_of rest path in
      if is (value_of key) (text "cron")
      then (let (c, ds) = scalar_string file quote decimal value (path ++ text ".cron") in
          (c ∷ cs, ds ++ es))
      else (cs, es)

  unfoldable pub schedule_item : Node → Text → Noted (List Text)
  unfolding crons_of walk_mapping
  schedule_item item path =
      let refused : Noted (List Text) =
        ([], fail file quote decimal item path (text "expected mapping with a cron key") ∷ []) in
      elim (kind_of item) [
        | mapping ↦
            (let (u, ds) =
                walk_mapping file quote decimal item path (text "cron" ∷ []) (pass {S = Unit {0}})
                  tt in
              let (cs, es) = crons_of (content_of item) path in (cs, ds ++ es))
        | document ↦ refused
        | sequence ↦ refused
        | scalar ↦ refused
        | alias ↦ refused
      ]

  -- The loop of `parseSchedule`, from the item with the index `i`.
  unfoldable pub items_from : Text → ℕ → Nodes → Noted (List Text)
  unfolding schedule_item
  items_from path i end = ([], [])
  items_from path i (more item rest) =
      let (cs, ds) = schedule_item item (path ++ text "[" ++ decimal i ++ text "]") in
      let (more_cs, es) = items_from path (suc i) rest in (cs ++ more_cs, ds ++ es)

  unfoldable pub parse_schedule : Node → Text → Noted (List Text)
  unfolding items_from
  parse_schedule n path =
      let refused : Noted (List Text) = (
        [],
        fail file quote decimal n path (text "expected sequence of {cron: expression}") ∷ [],
      ) in
      elim (kind_of n) [
        | sequence ↦ items_from path 0 (content_of n)
        | document ↦ refused
        | mapping ↦ refused
        | scalar ↦ refused
        | alias ↦ refused
      ]

  -- The loop over the values of a trigger mapping.
  unfoldable pub triggers_of : Nodes → Triggers → Noted Triggers
  triggers_of end on = (on, [])
  triggers_of (more key end) on = (on, [])
  triggers_of (more key (more value rest)) on =
      let (u, ds) =
        if is (value_of key) (text "push")
        then into (λ t. record on { push = t }) (parse_push value)
        else (if is (value_of key) (text "pull_request")
            then into (λ t. record on { pull_request = t }) (parse_push value)
            else (if is (value_of key) (text "schedule")
                then into (λ t. record on { schedule = t })
                    (parse_schedule value (text ".on.schedule"))
                else (on, []))) in
      let (t, es) = triggers_of rest u in (t, ds ++ es)

  unfoldable pub parse_on : Node → Triggers → Noted Triggers
  unfolding triggers_of walk_mapping
  parse_on n on =
      let refused : Noted Triggers = (
        on,
        fail file quote decimal n (text ".on") (text "expected a trigger name or a trigger mapping")
            ∷ [],
      ) in
      elim (kind_of n) [
        | scalar ↦
            if is (value_of n) (text "push")
            then (record on { push = some no_push }, [])
            else (if is (value_of n) (text "pull_request")
                then (record on { pull_request = some no_push }, [])
                else (
                  on,
                  fail file quote decimal n (text ".on")
                        (quote (value_of n) ++ text " " ++ subset_message)
                      ∷ [],
                ))
        | mapping ↦
            (let (u, ds) =
                walk_mapping file quote decimal n (text ".on")
                  (text "push" ∷ text "pull_request" ∷ text "schedule" ∷ []) (pass {S = Unit {0}})
                  tt in
              let (t, es) = triggers_of (content_of n) on in (t, ds ++ es))
        | document ↦ refused
        | sequence ↦ refused
        | alias ↦ refused
      ]

  unfoldable pub visit_workflow : Text → Node → Node → Workflow → Noted Workflow
  unfolding scalar_string
  visit_workflow name key value wf =
      if is name (text "name")
      then into (λ v. record wf { name = v })
          (scalar_string file quote decimal value (text ".name"))
      else (if is name (text "on")
          then into (λ v. record wf { on = v }) (parse_on value wf.on)
          else (if is name (text "jobs")
              then into (λ v. record wf { jobs = wf.jobs ++ v })
                  (parse_jobs file quote decimal value)
              else (wf, [])))

  abbrev pub new_workflow : Workflow
  new_workflow = record { file = file; name = []; on = no_triggers; jobs = [] }

  unfoldable pub parse_workflow : Node → Noted Workflow
  unfolding walk_mapping visit_workflow
  parse_workflow root =
      walk_mapping file quote decimal root [] (text "name" ∷ text "on" ∷ text "jobs" ∷ [])
        visit_workflow new_workflow

  -- `Parse`, from the tree that the library decodes or from its complaint on.
  unfoldable pub parse_document : Node ⊎ Text → Workflow ⊎ List Diagnostic
  unfolding parse_workflow unwrap_doc
  parse_document (inr complaint) = inr (
      record {
        file = file;
        line = 1;
        column = 1;
        path = text "$";
        message = text "invalid YAML: " ++ complaint;
      }
      ∷ [])
  parse_document (inl doc) =
      let (wf, ds) = parse_workflow (unwrap_doc doc) in if is_empty ds then inl wf else inr ds
