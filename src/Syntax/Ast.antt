-- ===== src/Syntax/Ast.antt =====
-- internal/workflow/syntax/diagnostic.go: the AST of a workflow file and the diagnostics. A nil map
-- or slice is an empty one, as the code only ranges over them and asks for their length.
use forgelet.Prelude.{ℕ, Bool, Option, none, some, List, Text, text, Map, cut_prefix}

pub record Position : Type 0 where
  pub line : ℕ
  pub column : ℕ

pub record Diagnostic : Type 0 where
  pub file : Text
  pub line : ℕ
  pub column : ℕ
  pub path : Text
  pub message : Text

-- The two filter lists of a `push` or `pull_request` trigger.
pub record PushTrigger : Type 0 where
  pub branches : List Text
  pub branches_ignore : List Text

pub record Triggers : Type 0 where
  pub push : Option PushTrigger
  pub pull_request : Option PushTrigger
  pub schedule : List Text

-- `Step`
pub record StepNode : Type 0 where
  pub pos : Position
  pub name : Text
  pub condition : Text
  pub run : Text
  pub uses : Text
  pub inputs : Map Text Text
  pub continue_on_error : Bool
  pub env : Map Text Text

-- `Job`
pub record JobNode : Type 0 where
  pub id : Text
  pub pos : Position
  pub name : Text
  pub runs_on : Text
  pub condition : Text
  pub needs : List Text
  pub matrix : Map Text (List Text)
  pub env : Map Text Text
  pub steps : List StepNode

pub record Workflow : Type 0 where
  pub file : Text
  pub name : Text
  pub on : Triggers
  pub jobs : List JobNode

-- `TrimRefPrefix` of parse.go.
unfoldable pub trim_ref_prefix : Text → Text
unfolding cut_prefix
trim_ref_prefix ref = elim (cut_prefix (text "refs/heads/") ref) [ none ↦ ref | some s ↦ s ]
