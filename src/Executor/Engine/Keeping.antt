-- ===== src/Executor/Engine/Keeping.antt =====
-- A value that is masked stays masked, and each line is masked before it is logged.
use mathlib.Core.Path.{subst}
use mathlib.Core.List.{append_assoc, append-nil}
use forgelet.Prelude.{
  some, ap, ◌∙◌, sym, map, true, false, List, [], ◌∷◌, ◌++◌, Text, text, text_key, is, is_empty,
  any, ◌||◌, inl, inr, ◌≡◌, refl, Bool-cases, Option-cases, All, if_pos,
}
use forgelet.Executor.FileCommand.{Kv}
use forgelet.Executor.Command.{Command, parse_command}
use forgelet.Executor.Mask.{Masker, add, apply_mask}
use forgelet.Executor.Plan.{PlanStep}
use forgelet.Executor.Engine.{
  Ran, Job, LogLine, handle, write, params_text, Round, next, fail_before, fail_after, cancel_at,
  emit_command, emit_line, emit_lines, output_lines, entries, fold_files, record_step, settle,
  close,
}
use forgelet.Executor.Engine.Rounds.{Verdict-cases}

abbrev pub Holds : Text → Masker → Type 0
Holds v m = any (λ x. is x v) m.vals ≡ true

-- The text is what a masker made of some text.
abbrev pub Masked : Masker → Text → Type 0
Masked m t = (raw : Text) × (t ≡ apply_mask m raw)

-- The line went through a masker that holds the value, its message and each of its attributes.
abbrev pub IsHidden : Text → LogLine → Type 0
IsHidden v l =
    Holds v l.masker
    × Masked l.masker l.message
    × All (λ (a : Text × Text). Masked l.masker a.1) l.attrs

-- What was written to the log since it was `old`.
abbrev pub HiddenSince : Text → List LogLine → List LogLine → Type 0
HiddenSince v old log = (new : List LogLine) × (log ≡ old ++ new) × All (IsHidden v) new

abbrev pub Keeps : Text → List LogLine → Job → Type 0
Keeps v old job = Holds v job.masker × HiddenSince v old job.log

abbrev pub KeepsRound : Text → List LogLine → Round → Type 0
KeepsRound v old (next job) = Keeps v old job
KeepsRound v old (fail_before e job) = Keeps v old job
KeepsRound v old (fail_after e job) = Keeps v old job
KeepsRound v old (cancel_at e job) = Keeps v old job

any-snoc_old :
    (v w : Text) (vs : List Text)
    → any (λ x. is x v) vs ≡ true
    → any (λ x. is x v) (vs ++ w ∷ []) ≡ true
any-snoc_old v w [] h = cc
any-snoc_old v w (x ∷ xs) h = elim (Bool-cases (is x v)) [
  | inl e ↦ rw e refl
  | inr e ↦ rw e (any-snoc_old v w xs (rw e at h))
]

any-snoc_new : (v : Text) (vs : List Text) → any (λ x. is x v) (vs ++ v ∷ []) ≡ true
any-snoc_new v [] = rw (if_pos (text_key.dec v v) refl true false) refl
any-snoc_new v (x ∷ xs) = elim (Bool-cases (is x v)) [
  | inl e ↦ rw e refl
  | inr e ↦ rw e (any-snoc_new v xs)
]

pub add-Holds : (v w : Text) (m : Masker) → Holds v m → Holds v (add w m)
unfolding add
add-Holds v w m h = elim (Bool-cases (is_empty w)) [
  | inl e ↦ rw (add, e) h
  | inr e ↦ elim (Bool-cases (any (λ x. is x w) m.vals)) [
    | inl a ↦ rw (add, e, a) h
    | inr a ↦ rw (add, e, a) (any-snoc_old v w m.vals h)
  ]
]

pub added-Holds : (v : Text) (m : Masker) → is_empty v ≡ false → Holds v (add v m)
unfolding add
added-Holds v m e = elim (Bool-cases (any (λ x. is x v) m.vals)) [
  | inl a ↦ rw (add, e, a) a
  | inr a ↦ rw (add, e, a) (any-snoc_new v m.vals)
]

All-append :
    (v : Text) (xs ys : List LogLine)
    → All (IsHidden v) xs
    → All (IsHidden v) ys
    → All (IsHidden v) (xs ++ ys)
All-append v [] ys h k = k
All-append v (x ∷ xs) ys h k = (h.0, All-append v xs ys h.1 k)

more-Hidden :
    (v : Text) (old log more : List LogLine)
    → HiddenSince v old log
    → All (IsHidden v) more
    → HiddenSince v old (log ++ more)
more-Hidden v old log more (new, e, h) k =
    (new ++ more, ap (λ l. l ++ more) e ∙ append_assoc old new more, All-append v new more h k)

handle-Masked :
    (m : Masker) (attrs : List (Text × Text))
    → All
        (λ (a : Text × Text). Masked m a.1)
        (map (λ (a : Text × Text). (a.0, apply_mask m a.1)) attrs)
handle-Masked m [] = tt
handle-Masked m (a ∷ attrs) = ((a.1, refl), handle-Masked m attrs)

handle-IsHidden :
    (v : Text) (m : Masker) (message : Text) (attrs : List (Text × Text))
    → Holds v m
    → IsHidden v (handle m message attrs)
unfolding handle
handle-IsHidden v m message attrs h = (h, (message, refl), handle-Masked m attrs)

write-Keeps :
    (v message : Text) (attrs : List (Text × Text)) (old : List LogLine) (job : Job)
    → Keeps v old job
    → Keeps v old (write message attrs job)
write-Keeps v message attrs old job (h, l) =
    (h, more-Hidden v old job.log _ l (handle-IsHidden v job.masker message attrs h, tt))

emit_command-Keeps :
    (v : Text) (old : List LogLine) (c : Command) (job : Job)
    → Keeps v old job
    → Keeps v old (emit_command c job)
unfolding emit_command
emit_command-Keeps v old c job (h, l) = elim (Bool-cases (is c.name (text "add-mask"))) [
  | inl a ↦ rw (emit_command, a) (add-Holds v c.message job.masker h, l)
  | inr a ↦ elim (Bool-cases (is c.name (text "group") || is c.name (text "endgroup"))) [
    | inl g ↦
        rw (emit_command, a, g)
          (write-Keeps v (text "group") ((text "action", c.name) ∷ (text "title", c.message) ∷ [])
            old job (h, l))
    | inr g ↦
        rw (emit_command, a, g)
          (write-Keeps v (text "annotation")
            ((text "level", c.name)
              ∷ (text "message", c.message)
              ∷ (text "params", params_text c.parameters)
              ∷ [])
            old job (h, l))
  ]
]

emit_line-Keeps :
    (v : Text) (old : List LogLine) (line : Text) (job : Job)
    → Keeps v old job
    → Keeps v old (emit_line line job)
unfolding emit_line
emit_line-Keeps v old line job k = elim (Option-cases (parse_command line)) [
  | inl e ↦ rw (emit_line, e) (write-Keeps v (text "out") ((text "message", line) ∷ []) old job k)
  | inr (c, e) ↦ rw (emit_line, e) (emit_command-Keeps v old c job k)
]

pub emit_lines-Keeps :
    (v : Text) (old : List LogLine) (lines : List Text) (job : Job)
    → Keeps v old job
    → Keeps v old (emit_lines lines job)
unfolding emit_lines
emit_lines-Keeps v old [] job k = k
emit_lines-Keeps v old (line ∷ lines) job k =
    emit_lines-Keeps v old lines (emit_line line job) (emit_line-Keeps v old line job k)

output_lines-IsHidden :
    (v : Text) (m : Masker) (id : Text) (kvs : List Kv)
    → Holds v m
    → All (IsHidden v) (output_lines m id kvs)
unfolding output_lines
output_lines-IsHidden v m id [] h = tt
output_lines-IsHidden v m id (kv ∷ kvs) h = (
  handle-IsHidden v m (text "step output")
      ((text "step", id) ∷ (text "key", kv.key) ∷ (text "value", kv.value) ∷ []) h,
  output_lines-IsHidden v m id kvs h,
)

settle-KeepsRound :
    (v : Text) (old : List LogLine) (step : PlanStep) (r : Ran) (job : Job)
    → Keeps v old job
    → KeepsRound v old (settle step r job)
unfolding settle record_step
settle-KeepsRound v old step r job k = elim (Verdict-cases r.verdict) [
  | inl e ↦ rw (settle, e) k
  | inr (inl e) ↦ rw (settle, e) k
  | inr (inr e) ↦ elim (Bool-cases step.continue_on_error) [
    | inl c ↦ rw (settle, e, c) k
    | inr c ↦ rw (settle, e, c) k
  ]
]

-- The end of a step whose lines are logged.
pub close_from-KeepsRound :
    (v : Text) (old : List LogLine) (step : PlanStep) (r : Ran) (job : Job)
    → Keeps v old (emit_lines r.lines job)
    → KeepsRound v old (close step r job)
unfolding close fold_files
close_from-KeepsRound v old step r job (h, l) =
    let after = emit_lines r.lines job in
    settle-KeepsRound v old step r (fold_files step r after) (
      h,
      more-Hidden v old after.log _ l
          (output_lines-IsHidden v after.masker step.id (entries r.output_file) h),
    )

pub close-KeepsRound :
    (v : Text) (old : List LogLine) (step : PlanStep) (r : Ran) (job : Job)
    → Keeps v old job
    → KeepsRound v old (close step r job)
close-KeepsRound v old step r job k =
    close_from-KeepsRound v old step r job (emit_lines-Keeps v old r.lines job k)

-- A line with the command `add-mask` lets nothing be logged afterwards that does not go through a
-- masker with its value.
pub added-Keeps :
    (v : Text) (front back : List Text) (line : Text) (c : Command) (job : Job)
    → parse_command line ≡ some c
    → c.name ≡ text "add-mask"
    → c.message ≡ v
    → is_empty v ≡ false
    → Keeps v (emit_lines front job).log (emit_lines (front ++ line ∷ back) job)
unfolding emit_lines emit_line emit_command
added-Keeps v [] back line c job e n m f =
    let a : is c.name (text "add-mask") ≡ true =
      subst (λ x. is x (text "add-mask") ≡ true) (sym n)
        (if_pos (text_key.dec (text "add-mask") (text "add-mask")) refl true false) in
    let here : Keeps v job.log (emit_line line job) =
      rw (emit_line, e, emit_command, a)
        (rw (m) (added-Holds v job.masker f), ([], sym (append-nil job.log), tt)) in
    emit_lines-Keeps v job.log back (emit_line line job) here
added-Keeps v (l ∷ front) back line c job e n m f =
    added-Keeps v front back line c (emit_line l job) e n m f
