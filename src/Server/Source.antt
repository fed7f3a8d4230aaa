-- ===== src/Server/Source.antt =====
-- internal/server/server.go: the workflows of a repository, and the jobs that an event starts.
use forgelet.Prelude.{
  ℕ, Bool, not, Option, none, some, List, [], ◌∷◌, ◌++◌, map, keep, Text, text, text_key, is,
  is_empty, has_suffix, if◌then◌else◌, ◌⊎◌, inl, inr, ◌||◌,
}
use forgelet.Run.Records.{RepositoryRef, Event, JobIntent}
use forgelet.Syntax.Ast.{Diagnostic}
use forgelet.Syntax.Node.{Node}
use forgelet.Syntax.Document.{parse_document}
use forgelet.Compiler.Matrix.{JobInstance}
use forgelet.Compiler.Compile.{
  Step, Compiled, CompileError, compile, matches_push, matches_pull_request, job_intent,
}

pub record WorkflowFile : Type 0 where
  pub name : Text
  pub content : Text

-- What the source asks of the repository's host or of the directory, where `files` is its regular
-- files in the order of their names, of the YAML and JSON libraries, of fmt and of `path.Match`.
-- `base_ref` is the branch that a payload names as the base of its pull request.
pub record SourceHost : Type 0 where
  pub fetcher : Option (RepositoryRef → Text → Option (List WorkflowFile))
  pub files : Option (List WorkflowFile)
  pub unmarshal : Text → Node ⊎ Text
  pub base_ref : Text → Text
  pub quote : Text → Text
  pub decimal : ℕ → Text
  pub names : List Text
  pub glob : Text → Text → Option Bool

pub data SourceError : Type 0 where
  not_loaded : SourceError
  not_parsed : List Diagnostic → SourceError
  not_compiled : CompileError → SourceError

-- `listYAML`, behind the reading of the directory.
abbrev pub yaml_files : List WorkflowFile → List WorkflowFile
yaml_files fs = keep (λ f. has_suffix (text ".yml") f.name || has_suffix (text ".yaml") f.name) fs

module _ (host : SourceHost) where
  unfoldable pub load : RepositoryRef → Text → Option (List WorkflowFile)
  unfolding has_suffix
  load repo ref = elim host.fetcher [
    | some fetch ↦ fetch repo ref
    | none ↦ elim host.files [ none ↦ none | some fs ↦ some (yaml_files fs) ]
  ]

  -- The `switch` over the name of the event.
  unfoldable pub jobs_for : Event → Text → Compiled → List (JobInstance Step)
  unfolding matches_push matches_pull_request
  jobs_for ev payload c =
      if is ev.name (text "push")
      then (if matches_push host.glob c ev.ref then c.jobs else [])
      else (if is ev.name (text "pull_request")
          then (if matches_pull_request host.glob c (host.base_ref payload) then c.jobs else [])
          else (if is ev.name (text "schedule")
              then (if not (is_empty c.schedule) then c.jobs else [])
              else []))

  unfoldable pub compile_file : WorkflowFile → Compiled ⊎ SourceError
  unfolding parse_document compile
  compile_file f = elim (parse_document f.name host.quote host.decimal (host.unmarshal f.content)) [
    | inr ds ↦ inr (not_parsed ds)
    | inl wf ↦ elim (compile host.quote host.names (some wf)) [
      | inr e ↦ inr (not_compiled e)
      | inl c ↦ inl c
    ]
  ]

  -- The loop over the files.
  unfoldable pub jobs_of_files :
      Event → Text → List WorkflowFile → List (JobInstance Step) ⊎ SourceError
  unfolding compile_file jobs_for
  jobs_of_files ev payload [] = inl []
  jobs_of_files ev payload (f ∷ fs) = elim (compile_file f) [
    | inr e ↦ inr e
    | inl c ↦ elim (jobs_of_files ev payload fs) [
      | inr e ↦ inr e
      | inl js ↦ inl (jobs_for ev payload c ++ js)
    ]
  ]

  unfoldable pub matched_jobs : Event → Text → List (JobInstance Step) ⊎ SourceError
  unfolding jobs_of_files load
  matched_jobs ev payload =
      if is ev.name (text "push")
        || is ev.name (text "pull_request")
        || is ev.name (text "schedule")
      then elim (load ev.repository (if is ev.name (text "schedule") then ev.ref else ev.sha)) [
        | none ↦ inr not_loaded
        | some files ↦ jobs_of_files ev payload files
      ]
      else inl []

  -- `Compile` of the source.
  unfoldable pub source_compile : Event → Text → Option (List JobIntent)
  unfolding matched_jobs job_intent
  source_compile ev payload = elim (matched_jobs ev payload) [
    | inr e ↦ none
    | inl jobs ↦ some (map (λ j. record (job_intent j) { condition = j.condition }) jobs)
  ]
