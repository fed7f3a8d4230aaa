-- ===== src/Server/Plans/Entries.antt =====
-- References among the values of a map, and the names of compiled steps.
use mathlib.Core.List.{append_assoc, append-nil, reverse}
use forgelet.Prelude.{
  true, false, none, some, List, [], ◌∷◌, ◌++◌, Text, text, text_key, Map, insert, is_empty, cut,
  trim_left, trim_space, inl, inr, ◌≡◌, refl, sym, ◌∙◌, All, Bool-cases, Option-cases, if_pos,
  if_neg,
}
use forgelet.Syntax.Ast.{StepNode}
use forgelet.Compiler.Compile.{Step}
use forgelet.Compiler.Compile.Steps.{Compiles}
use forgelet.Executor.Plan.{SecretRef}
use forgelet.Provider.Action.{last_cut}
use forgelet.Server.Names.{
  secret_ref_name, split_secrets, word, truncate, first_field, base_of, st_display_name,
}

-- No value of the map is a reference to a secret.
abbrev pub NoRefs : Map Text Text → Type 0
NoRefs m = All (λ kv. secret_ref_name kv.1 ≡ none) m

-- The references among the values, under the names that `env_of` makes of their keys.
abbrev pub refs_in : (Text → Text) → Map Text Text → List SecretRef
refs_in env_of [] = []
refs_in env_of ((k, v) ∷ m) = elim (secret_ref_name v) [
  | some name ↦ record { scope = text "repository"; name = name; env = env_of k } ∷ refs_in env_of m
  | none ↦ refs_in env_of m
]

insert-NoRefs :
    (k v : Text) (m : Map Text Text) → secret_ref_name v ≡ none → NoRefs m → NoRefs (insert k v m)
unfolding insert
insert-NoRefs k v [] p h = (p, tt)
insert-NoRefs k v ((j, w) ∷ m) p h = elim (text_key.dec j k) [
  | yes e ↦ rw (if_pos (text_key.dec j k) e) (p, h.1)
  | no e ↦ rw (if_neg (text_key.dec j k) e) (h.0, insert-NoRefs k v m p h.1)
]

pub split_secrets-NoRefs :
    (env_of : Text → Text) (m plain : Map Text Text) (refs : List SecretRef)
    → NoRefs plain
    → NoRefs (split_secrets env_of m plain refs).0
      × ((split_secrets env_of m plain refs).1 ≡ refs ++ refs_in env_of m)
unfolding split_secrets
split_secrets-NoRefs env_of [] plain refs h = (h, sym (append-nil refs))
split_secrets-NoRefs env_of ((k, v) ∷ m) plain refs h = elim (Option-cases (secret_ref_name v)) [
  | inl e ↦
      rw (split_secrets, refs_in, e)
        (split_secrets-NoRefs env_of m (insert k v plain) refs (insert-NoRefs k v plain e h))
  | inr (name, e) ↦
      let r : SecretRef = record { scope = text "repository"; name = name; env = env_of k } in
      let (a, b) = split_secrets-NoRefs env_of m plain (refs ++ r ∷ []) h in
      rw (split_secrets, refs_in, e) (a, b ∙ append_assoc refs (r ∷ []) (refs_in env_of m))
]

-- The entries of a map that are no references to secrets.
abbrev pub plain_inputs : Map Text Text → Map Text Text
plain_inputs m = (split_secrets (λ k. k) m [] []).0

-- Which values are kept depends neither on the names nor on the references before.
pub split_secrets-kept :
    (e f : Text → Text) (m plain : Map Text Text) (refs more : List SecretRef)
    → (split_secrets e m plain refs).0 ≡ (split_secrets f m plain more).0
unfolding split_secrets
split_secrets-kept e f [] plain refs more = refl
split_secrets-kept e f ((k, v) ∷ m) plain refs more = elim (Option-cases (secret_ref_name v)) [
  | inl q ↦ rw (split_secrets, q) (split_secrets-kept e f m (insert k v plain) refs more)
  | inr (name, q) ↦ rw (split_secrets, q) (split_secrets-kept e f m plain _ _)
]

trim-empty : (t : Text) → is_empty t ≡ true → is_empty (reverse (trim_left (reverse t))) ≡ true
unfolding trim_left
trim-empty [] h = refl
trim-empty (c ∷ t) h = cc

trimmed : (s : Text) → is_empty (trim_space s) ≡ false → is_empty (trim_left s) ≡ false
unfolding trim_space trim_left
trimmed s h = elim (Bool-cases (is_empty (trim_left s))) [
  | inr e ↦ e
  | inl e ↦ let k = trim-empty (trim_left s) e in cc
]

-- A compiled step has a name: its command has a first word.
pub named :
    (node : StepNode) (st : Step) → Compiles node st → (id : Text) × (st_display_name st ≡ some id)
unfolding st_display_name first_field
named node st (_, _, _, _, h) = elim (Bool-cases (is_empty st.name)) [
  | inr e ↦ (st.name, rw (st_display_name, e) refl)
  | inl e ↦ elim h [
    | inl (call, u, _, _, _) ↦ (base_of call.action, rw (st_display_name, e, u) refl)
    | inr (inl (u, _, r, n)) ↦
        let k : is_empty st.raw_uses ≡ false = rw r n in
        elim (Option-cases (cut (text "/") st.raw_uses)) [
          | inl c ↦ (st.raw_uses, rw (st_display_name, e, u, k, c) refl)
          | inr ((owner, base), c) ↦ elim (Option-cases (last_cut base)) [
            | inl l ↦ (base, rw (st_display_name, e, u, k, c, l) refl)
            | inr ((name, ref), l) ↦ (name, rw (st_display_name, e, u, k, c, l) refl)
          ]
        ]
    | inr (inr (u, r, w, t)) ↦
        let f : is_empty (trim_left st.run) ≡ false = trimmed st.run (rw r t) in
        (truncate (word (trim_left st.run)) 24, rw (st_display_name, e, u, w, first_field, f) refl)
  ]
]
