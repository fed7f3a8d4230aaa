-- ===== src/Memory/Active.antt =====
-- internal/storage/memory/store.go: the store of active objects.
use forgelet.Prelude.{
  ℕ, ◌+◌, Text, text, Map, [], ◌++◌, if◌then◌else◌, is_empty, none, some, lookup, lookup_or, insert,
  delete, text_key,
}
use forgelet.Run.Records.{JobRunId, cr_name}
use forgelet.Memory.Update.{ActiveObject}

pub record ActiveStore : Type 0 where
  pub objects : Map JobRunId ActiveObject
  pub uids : Map Text Text
  pub create_calls : ℕ
  pub delete_calls : ℕ
  pub created : ℕ

unfoldable pub new_active_store : ActiveStore
new_active_store = record {
  objects = [];
  uids = [];
  create_calls = 0;
  delete_calls = 0;
  created = 0;
}

-- The UID under a name, a fresh one where none is kept.
unfoldable pub uid_of : Text → Map Text Text → Text
uid_of name uids =
    let uid = lookup_or [] name uids in if is_empty uid then text "uid-" ++ name else uid

abbrev pub new_object : JobRunId → ActiveStore → ActiveObject
new_object id a = record { name = cr_name id; uid = uid_of (cr_name id) a.uids }

unfoldable pub create_or_get : JobRunId → ActiveStore → ActiveStore × ActiveObject
unfolding uid_of
create_or_get id a = elim (lookup id a.objects) [
  | some obj ↦ (record a { create_calls = a.create_calls + 1 }, obj)
  | none ↦
      let name = cr_name id in
      let uid = uid_of name a.uids in
      let obj = new_object id a in
      (
        record a {
          create_calls = a.create_calls + 1;
          created = a.created + 1;
          uids = if is_empty (lookup_or [] name a.uids) then insert name uid a.uids else a.uids;
          objects = insert id obj a.objects;
        },
        obj,
      )
]

unfoldable pub delete_object : JobRunId → ActiveStore → ActiveStore
delete_object id a = record a { delete_calls = a.delete_calls + 1; objects = delete id a.objects }
