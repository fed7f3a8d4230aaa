-- ===== src/Syntax/Jobs/Print.antt =====
-- Jobs written as node trees, and read again.
use mathlib.Core.Path.{ap₂}
use mathlib.Core.List.{append_assoc, append-nil}
use forgelet.Prelude.{
  ℕ, suc, Bool, true, false, none, List, [], ◌∷◌, ◌++◌, Text, text, text_key, Text-discrete, Map,
  lookup, insert, is, is_empty, if◌then◌else◌, ◌⊎◌, inl, inr, ◌≡◌, refl, ap, ◌∙◌, All, if_pos,
  if_neg,
}
use forgelet.Syntax.Ast.{StepNode, JobNode}
use forgelet.Syntax.Node.{sequence, mapping, scalar, Node, node, Nodes, end, more}
use forgelet.Syntax.Parse.{
  Noted, is_identifier, scalar_string, condition_string, strings_of, string_seq, env_pairs, env_map,
  axes_of, position, parse_needs, parse_strategy, visit_matrix, walk_pairs, walk_mapping,
}
use forgelet.Syntax.Jobs.{
  continue_field, visit_step, parse_step, steps_from, parse_steps, visit_job, parse_job, job_pairs,
  parse_jobs, step_checks,
}

-- A string, at no particular place.
abbrev pub str_node : Text → Node
str_node s = node scalar (text "!!str") s 0 0 end

abbrev pub bool_node : Bool → Node
bool_node b = node scalar (text "!!bool") (if b then text "true" else text "false") 0 0 end

abbrev pub str_nodes : List Text → Nodes
str_nodes [] = end
str_nodes (s ∷ ss) = more (str_node s) (str_nodes ss)

abbrev pub seq_node : Nodes → Node
seq_node ns = node sequence (text "!!seq") [] 0 0 ns

abbrev pub map_node : ℕ → ℕ → Nodes → Node
map_node line column ns = node mapping (text "!!map") [] line column ns

abbrev pub field : Text → Node → Nodes → Nodes
field name value rest = more (str_node name) (more value rest)

abbrev pub env_nodes : Map Text Text → Nodes
env_nodes [] = end
env_nodes ((k, v) ∷ m) = field k (str_node v) (env_nodes m)

abbrev pub axis_nodes : Map Text (List Text) → Nodes
axis_nodes [] = end
axis_nodes ((k, vs) ∷ m) = field k (seq_node (str_nodes vs)) (axis_nodes m)

-- What the step does: a command, or an action with its inputs.
abbrev pub action_nodes : StepNode → Nodes → Nodes
action_nodes st rest =
    if is_empty st.uses
    then field (text "run") (str_node st.run) rest
    else field (text "uses") (str_node st.uses)
        (field (text "with") (map_node 0 0 (env_nodes st.inputs)) rest)

abbrev pub print_step : StepNode → Node
print_step st = map_node st.pos.line st.pos.column (
    field (text "name") (str_node st.name) (
      field (text "if") (str_node st.condition) (
        field (text "continue-on-error") (bool_node st.continue_on_error)
          (field (text "env") (map_node 0 0 (env_nodes st.env)) (action_nodes st end)))))

abbrev pub print_steps : List StepNode → Nodes
print_steps [] = end
print_steps (st ∷ sts) = more (print_step st) (print_steps sts)

abbrev pub print_job : JobNode → Node
print_job job = map_node 0 0 (
    field (text "name") (str_node job.name) (
      field (text "runs-on") (str_node job.runs_on) (
        field (text "if") (str_node job.condition) (
          field (text "needs") (seq_node (str_nodes job.needs)) (
            field (text "strategy")
              (map_node 0 0 (field (text "matrix") (map_node 0 0 (axis_nodes job.matrix)) end))
              (field (text "env") (map_node 0 0 (env_nodes job.env))
                (field (text "steps") (seq_node (print_steps job.steps)) end)))))))

abbrev pub print_jobs : List JobNode → Nodes
print_jobs [] = end
print_jobs (job ∷ jobs) =
    more (node scalar (text "!!str") job.id job.pos.line job.pos.column end)
      (more (print_job job) (print_jobs jobs))

-- No key of the map is in `seen` or comes twice.
abbrev pub IsMap : {V : Type 0} → Map Text V → Map Text V → Type 0
IsMap seen [] = Unit
IsMap seen ((k, v) ∷ m) = (lookup k seen ≡ none) × IsMap (seen ++ (k, v) ∷ []) m

-- A step as the parser makes them: it runs a command and has no inputs, or it uses an action and
-- runs nothing.
abbrev pub IsStep : StepNode → Type 0
IsStep st =
    IsMap [] st.env
    × IsMap [] st.inputs
    × (((is_empty st.uses ≡ true) × (st.inputs ≡ []) × (st.uses ≡ []))
        ⊎ ((is_empty st.uses ≡ false) × (st.run ≡ [])))

abbrev pub IsJob : JobNode → Type 0
IsJob job =
    (is_identifier job.id ≡ true)
    × IsMap [] job.env
    × IsMap [] job.matrix
    × All (λ axis. is_identifier axis.0 ≡ true) job.matrix
    × All IsStep job.steps

insert-fresh :
    {V : Type 0} (k : Text) (v : V) (m : Map Text V)
    → lookup k m ≡ none
    → insert k v m ≡ m ++ (k, v) ∷ []
unfolding insert lookup
insert-fresh k v [] h = refl
insert-fresh k v ((j, w) ∷ m) h = elim (text_key.dec j k) [
  | yes e ↦ let c = (rw (if_pos (text_key.dec j k) e) at h) in cc
  | no e ↦
      let c = (rw (if_neg (text_key.dec j k) e) at h) in
      rw (if_neg (text_key.dec j k) e) (ap (◌∷◌ (j, w)) (insert-fresh k v m c))
]

bool_back : (b : Bool) → is (if b then text "true" else text "false") (text "true") ≡ b
unfolding Text-discrete
bool_back true = refl
bool_back false = refl

abbrev joined : Noted StepNode → Noted (List StepNode) → Noted (List StepNode)
joined r q = (r.0 ∷ q.0, r.1 ++ q.1)

-- Two results without a diagnostic.
notes :
    (r : Noted StepNode) (q : Noted (List StepNode)) (st : StepNode) (sts : List StepNode)
    → r ≡ (st, [])
    → q ≡ (sts, [])
    → joined r q ≡ joined (st, []) (sts, [])
notes r q st sts e f = ap₂ joined e f

module _ (file : Text) (quote : Text → Text) (decimal : ℕ → Text) where
  pub strings_of-print :
      (ss : List Text) (path : Text) → strings_of file quote decimal (str_nodes ss) path ≡ (ss, [])
  unfolding strings_of scalar_string Text-discrete
  strings_of-print [] path = refl
  strings_of-print (s ∷ ss) path = ap (λ r. (s ∷ r.0, r.1)) (strings_of-print ss path)

  env_pairs-print :
      (m seen : Map Text Text) (path : Text)
      → IsMap seen m
      → env_pairs file quote decimal (env_nodes m) path seen ≡ (seen ++ m, [])
  unfolding env_pairs scalar_string Text-discrete
  env_pairs-print [] seen path h = rw (append-nil seen) refl
  env_pairs-print ((k, v) ∷ m) seen path (f, h) =
      ap (λ l. env_pairs file quote decimal (env_nodes m) path l) (insert-fresh k v seen f)
      ∙ env_pairs-print m (seen ++ (k, v) ∷ []) path h
      ∙ ap (λ l. (l, [])) (append_assoc seen ((k, v) ∷ []) m)

  axes_of-print :
      (m seen : Map Text (List Text)) (path : Text)
      → IsMap seen m
      → All (λ axis. is_identifier axis.0 ≡ true) m
      → axes_of file quote decimal (axis_nodes m) path seen ≡ (seen ++ m, [])
  unfolding axes_of string_seq
  axes_of-print [] seen path h i = rw (append-nil seen) refl
  axes_of-print ((k, vs) ∷ m) seen path (f, h) (i, is) =
      rw (i, strings_of-print vs (path ++ text ".matrix." ++ k), insert-fresh k vs seen f)
        (axes_of-print m (seen ++ (k, vs) ∷ []) path h is
          ∙ ap (λ l. (l, [])) (append_assoc seen ((k, vs) ∷ []) m))

  parse_step-print :
      (path : Text) (st : StepNode)
      → IsStep st
      → parse_step file quote decimal path (print_step st) ≡ (st, [])
  unfolding parse_step walk_mapping walk_pairs visit_step scalar_string condition_string env_map
      continue_field step_checks Text-discrete
  parse_step-print path st (e, i, inl (b, n, u)) =
      rw (b, env_pairs-print st.env [] (path ++ text ".env") e, bool_back st.continue_on_error)
        (rw (u, n) refl)
  parse_step-print path st (e, i, inr (b, n)) =
      rw
        (
          b,
          env_pairs-print st.env [] (path ++ text ".env") e,
          env_pairs-print st.inputs [] (path ++ text ".with") i,
          bool_back st.continue_on_error,
        )
        (rw n refl)

  steps_from-print :
      (job_id : Text) (i : ℕ) (sts : List StepNode)
      → All IsStep sts
      → steps_from file quote decimal job_id i (print_steps sts) ≡ (sts, [])
  unfolding steps_from
  steps_from-print job_id i [] h = refl
  steps_from-print job_id i (st ∷ sts) h =
      notes
        (parse_step file quote decimal
          (text ".jobs." ++ job_id ++ text ".steps[" ++ decimal i ++ text "]") (print_step st))
        (steps_from file quote decimal job_id (suc i) (print_steps sts)) st sts
        (parse_step-print (text ".jobs." ++ job_id ++ text ".steps[" ++ decimal i ++ text "]") st
          h.0)
        (steps_from-print job_id (suc i) sts h.1)

  parse_job-print :
      (key : Node) (job : JobNode)
      → IsJob job
      → parse_job file quote decimal key (print_job job) job.id
        ≡ (record job { pos = position key }, [])
  unfolding parse_job walk_mapping walk_pairs visit_job scalar_string condition_string parse_needs
      string_seq parse_strategy visit_matrix env_map parse_steps Text-discrete
  parse_job-print key job (n, e, m, a, s) =
      let path = text ".jobs." ++ job.id in
      rw
        (
          strings_of-print job.needs (path ++ text ".needs"),
          axes_of-print job.matrix [] (path ++ text ".strategy") m a,
          env_pairs-print job.env [] (path ++ text ".env") e,
          steps_from-print job.id 0 job.steps s,
        )
        refl

  -- Jobs that are written as a mapping of node trees are read back as they are, with their
  -- positions and without a diagnostic. Their ids and the axes of their matrices are identifiers,
  -- no key comes twice in a map, and each step either runs a command or uses an action.
  pub parse_jobs-print :
      (jobs : List JobNode)
      → All IsJob jobs
      → parse_jobs file quote decimal (map_node 0 0 (print_jobs jobs)) ≡ (jobs, [])
  unfolding parse_jobs job_pairs
  parse_jobs-print [] h = refl
  parse_jobs-print (job ∷ jobs) h =
      let key = node scalar (text "!!str") job.id job.pos.line job.pos.column end in
      rw (h.0.0, parse_job-print key job h.0, parse_jobs-print jobs h.1) refl
