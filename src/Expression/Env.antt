-- ===== src/Expression/Env.antt =====
-- internal/workflow/expression/env.go: the contexts of an evaluation.
use forgelet.Prelude.{
  ◌≡◌, Option, some, List, Text, Map, text, to_lower, lookup, insert, keys, text_key, lookup-insert,
  ite,
}
use forgelet.Expression.Value.{Value, str}

-- `WorkspaceHasher`: the digest of the files that match, `none` for an error.
abbrev pub WorkspaceHasher : Type 0
WorkspaceHasher = List Text → Option Text

pub record Env (N : Type 0) : Type 0 where
  pub contexts : Map Text (Value N)
  pub hasher : Option WorkspaceHasher

module _ {N : Type 0} where
  -- `Env.With`: the map is copied, so the old environment is as before.
  unfoldable pub with_context : Text → Value N → Env N → Env N
  with_context name v e = record e { contexts = insert (to_lower name) v e.contexts }

  unfoldable pub lookup_context : Text → Env N → Option (Value N)
  lookup_context name e = lookup (to_lower name) e.contexts

  unfoldable pub available : Env N → List Text
  available e = keys e.contexts

  unfoldable pub with_job_status : Text → Env N → Env N
  unfolding with_context
  with_job_status status e = with_context (text "__jobstatus") (str status) e

  unfoldable pub with_workspace_hasher : WorkspaceHasher → Env N → Env N
  unfolding with_context
  with_workspace_hasher h e =
      record (with_context (text "__workspacehasher") (str (text "registered")) e) {
        hasher = some h;
      }

  -- A context is found under every spelling of its name in capitals and small letters, and the
  -- other contexts are as before.
  pub lookup_context-with_context :
      (name other : Text) (v : Value N) (e : Env N)
      → lookup_context other (with_context name v e)
        ≡ ite (text_key.dec (to_lower name) (to_lower other)) (some v) (lookup_context other e)
  unfolding with_context lookup_context
  lookup_context-with_context name other v e =
      lookup-insert (to_lower name) (to_lower other) v e.contexts
