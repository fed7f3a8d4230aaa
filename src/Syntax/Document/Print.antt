-- ===== src/Syntax/Document/Print.antt =====
-- A workflow written as the node tree of a document, and read again.
use forgelet.Prelude.{
  ℕ, suc, Option, none, some, List, [], ◌∷◌, Text, text, text_key, Text-discrete, inl, ◌≡◌, refl,
  sym, ap, All,
}
use forgelet.Syntax.Ast.{PushTrigger, Triggers, Workflow}
use forgelet.Syntax.Node.{document, Node, node, Nodes, end, more}
use forgelet.Syntax.Parse.{unwrap_doc, scalar_string, string_seq, walk_pairs, walk_mapping}
use forgelet.Syntax.Jobs.Print.{
  str_node, str_nodes, seq_node, map_node, field, print_jobs, IsJob, strings_of-print,
  parse_jobs-print,
}
use forgelet.Syntax.Document.{
  visit_push, parse_push, crons_of, schedule_item, items_from, parse_schedule, triggers_of,
  parse_on, visit_workflow, parse_workflow, parse_document, no_triggers,
}

abbrev pub print_push : PushTrigger → Node
print_push t = map_node 0 0 (
    field (text "branches") (seq_node (str_nodes t.branches))
      (field (text "branches-ignore") (seq_node (str_nodes t.branches_ignore)) end))

-- A trigger that is not declared has no key.
abbrev pub trigger_nodes : Text → Option PushTrigger → Nodes → Nodes
trigger_nodes name none rest = rest
trigger_nodes name (some t) rest = field name (print_push t) rest

abbrev pub cron_nodes : List Text → Nodes
cron_nodes [] = end
cron_nodes (c ∷ cs) = more (map_node 0 0 (field (text "cron") (str_node c) end)) (cron_nodes cs)

abbrev pub print_on : Triggers → Node
print_on on = map_node 0 0 (
    trigger_nodes (text "push") on.push (
      trigger_nodes (text "pull_request") on.pull_request
        (field (text "schedule") (seq_node (cron_nodes on.schedule)) end)))

abbrev pub print_workflow : Workflow → Node
print_workflow wf = node document [] [] 0 0 (
    more
      (map_node 0 0 (
        field (text "name") (str_node wf.name) (
          field (text "on") (print_on wf.on)
            (field (text "jobs") (map_node 0 0 (print_jobs wf.jobs)) end))))
      end)

module _ (file : Text) (quote : Text → Text) (decimal : ℕ → Text) where
  parse_push-print : (t : PushTrigger) → parse_push file quote decimal (print_push t) ≡ (some t, [])
  unfolding parse_push walk_mapping walk_pairs visit_push string_seq Text-discrete
  parse_push-print t =
      rw
        (
          strings_of-print file quote decimal t.branches (text ".on.push.branches"),
          strings_of-print file quote decimal t.branches_ignore (text ".on.push.branches-ignore"),
        )
        refl

  items_from-print :
      (path : Text) (i : ℕ) (cs : List Text)
      → items_from file quote decimal path i (cron_nodes cs) ≡ (cs, [])
  unfolding items_from schedule_item crons_of walk_mapping walk_pairs scalar_string Text-discrete
  items_from-print path i [] = refl
  items_from-print path i (c ∷ cs) = ap (λ r. (c ∷ r.0, r.1)) (items_from-print path (suc i) cs)

  parse_on-print :
      (push pr : Option PushTrigger) (schedule : List Text)
      → parse_on file quote decimal
          (print_on (record { push = push; pull_request = pr; schedule = schedule }))
          no_triggers
        ≡ (record { push = push; pull_request = pr; schedule = schedule }, [])
  unfolding parse_on triggers_of parse_schedule walk_mapping walk_pairs Text-discrete
  parse_on-print none none schedule = rw (items_from-print (text ".on.schedule") 0 schedule) refl
  parse_on-print (some t) none schedule =
      rw (parse_push-print t, items_from-print (text ".on.schedule") 0 schedule) refl
  parse_on-print none (some u) schedule =
      rw (parse_push-print u, items_from-print (text ".on.schedule") 0 schedule) refl
  parse_on-print (some t) (some u) schedule =
      rw (parse_push-print t, parse_push-print u, items_from-print (text ".on.schedule") 0 schedule)
        refl

  -- A workflow that is written as the node tree of a document is read back as it is, the positions
  -- of its jobs and steps included, and no diagnostic is raised. It has the name of the file; the
  -- ids of its jobs and the axes of their matrices are identifiers, no key comes twice in a map,
  -- and each step either runs a command or uses an action.
  pub parse_document-print :
      (wf : Workflow)
      → wf.file ≡ file
      → All IsJob wf.jobs
      → parse_document file quote decimal (inl (print_workflow wf)) ≡ inl wf
  unfolding parse_document parse_workflow unwrap_doc walk_mapping walk_pairs visit_workflow
      scalar_string Text-discrete
  parse_document-print wf f h =
      rw
        (
          parse_on-print wf.on.push wf.on.pull_request wf.on.schedule,
          parse_jobs-print file quote decimal wf.jobs h,
        )
        (ap (λ x. inl (record wf { file = x })) (sym f))
