-- ===== src/Executor/Command/RoundTrip.antt =====
-- Workflow commands as a step writes them.
use mathlib.Core.List.{append_assoc}
use forgelet.Prelude.{
  ◌≡◌, refl, ap, ◌∙◌, false, some, List, [], ◌∷◌, ◌++◌, is_empty, any, any-append, All, Text, text,
  text_key, Text-discrete, cut-double, cut-single, cut-none, cut_prefix, split_byte, join,
  trim_space, to_lower, Map, insert, map, arith, ◌==◌,
}
use forgelet.Executor.Command.{
  add_param, add_params, parse_params, split_head, recognize, parse_command,
}

pub data Known : Type 0 where
  add_mask group endgroup warning error notice debug : Known

abbrev pub name_of : Known → Text
name_of add_mask = text "add-mask"
name_of group = text "group"
name_of endgroup = text "endgroup"
name_of warning = text "warning"
name_of error = text "error"
name_of notice = text "notice"
name_of debug = text "debug"

abbrev pub written : Text × Text → Text
written (key, value) = key ++ b'=' ∷ value

abbrev pub head_of : Known → List (Text × Text) → Text
head_of k [] = name_of k
head_of k (q ∷ qs) = name_of k ++ 32 ∷ join (text ",") (map written (q ∷ qs))

-- The line of a command.
unfoldable pub print_command : Known → List (Text × Text) → Text → Text
print_command k ps message = text "::" ++ (head_of k ps ++ (text "::" ++ message))

-- The parameters as the map that later keys overwrite.
unfoldable pub collected : List (Text × Text) → Map Text Text → Map Text Text
collected [] out = out
collected ((key, value) ∷ ps) out = collected ps (insert key value out)

-- The key is not empty and has no `=`; neither key nor value has a `,` or a `:`.
pub record Plain (q : Text × Text) : Type 0 where
  pub key_filled : is_empty q.0 ≡ false
  pub key_plain : any (λ c. c == b'=') q.0 ≡ false
  pub no_comma : any (λ c. c == b',') (written q) ≡ false
  pub no_colon : any (λ c. c == b':') (written q) ≡ false

name-colon : (k : Known) → any (λ c. c == b':') (name_of k) ≡ false
name-colon add_mask = refl
name-colon group = refl
name-colon endgroup = refl
name-colon warning = refl
name-colon error = refl
name-colon notice = refl
name-colon debug = refl

name-space : (k : Known) → any (λ c. c == 32) (name_of k) ≡ false
name-space add_mask = refl
name-space group = refl
name-space endgroup = refl
name-space warning = refl
name-space error = refl
name-space notice = refl
name-space debug = refl

recognize-name :
    (k : Known) (params : Map Text Text) (message : Text)
    → recognize (name_of k, params) message
      ≡ some (record { name = name_of k; parameters = params; message = message })
unfolding recognize trim_space to_lower Text-discrete
recognize-name add_mask params message = refl
recognize-name group params message = refl
recognize-name endgroup params message = refl
recognize-name warning params message = refl
recognize-name error params message = refl
recognize-name notice params message = refl
recognize-name debug params message = refl

join-more :
    (x y : Text) (xs : List Text)
    → join (text ",") (x ∷ y ∷ xs) ≡ x ++ b',' ∷ join (text ",") (y ∷ xs)
unfolding join
join-more x y xs = append_assoc x (text ",") (join (text ",") (y ∷ xs))

join-colon :
    (ps : List (Text × Text))
    → All Plain ps
    → any (λ c. c == b':') (join (text ",") (map written ps)) ≡ false
unfolding join
join-colon [] h = refl
join-colon (q ∷ []) h = h.0.no_colon
join-colon (q ∷ r ∷ ps) h =
    ap (any (λ c. c == b':')) (join-more (written q) (written r) (map written ps))
    ∙ any-append (λ c. c == b':') (written q) (b',' ∷ join (text ",") (map written (r ∷ ps)))
    ∙ (let a = h.0.no_colon in let b = join-colon (r ∷ ps) (h.1) in ground arith)

head-colon :
    (k : Known) (ps : List (Text × Text))
    → All Plain ps
    → any (λ c. c == b':') (head_of k ps) ≡ false
head-colon k [] h = name-colon k
head-colon k (q ∷ qs) h =
    any-append (λ c. c == b':') (name_of k) (32 ∷ join (text ",") (map written (q ∷ qs)))
    ∙ (let a = name-colon k in let b = join-colon (q ∷ qs) h in ground arith)

split-one : (s : Text) → any (λ c. c == b',') s ≡ false → split_byte b',' s ≡ s ∷ []
unfolding split_byte
split-one [] h = refl
split-one (c ∷ s) h = let ih = split-one s in ground arith

split-more :
    (s rest : Text)
    → any (λ c. c == b',') s ≡ false
    → split_byte b',' (s ++ b',' ∷ rest) ≡ s ∷ split_byte b',' rest
unfolding split_byte
split-more [] rest h = refl
split-more (c ∷ s) rest h = let ih = split-more s rest in ground arith

split-join :
    (q : Text × Text) (ps : List (Text × Text))
    → All Plain (q ∷ ps)
    → split_byte b',' (join (text ",") (map written (q ∷ ps))) ≡ map written (q ∷ ps)
unfolding join
split-join q [] h = split-one (written q) (h.0.no_comma)
split-join q (r ∷ ps) h =
    ap (split_byte b',') (join-more (written q) (written r) (map written ps))
    ∙ split-more (written q) (join (text ",") (map written (r ∷ ps))) (h.0.no_comma)
    ∙ ap (λ (l : List Text). written q ∷ l) (split-join r ps (h.1))

add_param-written :
    (key value : Text) (out : Map Text Text)
    → is_empty key ≡ false
    → any (λ c. c == b'=') key ≡ false
    → add_param (written (key, value)) out ≡ insert key value out
unfolding add_param
add_param-written key value out f h = rw (cut-single b'=' key value h, add_param) (rw f)

add_params-written :
    (ps : List (Text × Text)) (out : Map Text Text)
    → All Plain ps
    → add_params (map written ps) out ≡ collected ps out
unfolding add_params add_param collected
add_params-written [] out h = refl
add_params-written ((key, value) ∷ ps) out h =
    ap (λ (m : Map Text Text). add_params (map written ps) m)
      (add_param-written key value out (h.0.key_filled) (h.0.key_plain))
    ∙ add_params-written ps (insert key value out) (h.1)

split_head-head_of :
    (k : Known) (ps : List (Text × Text))
    → All Plain ps
    → split_head (head_of k ps) ≡ (name_of k, collected ps [])
unfolding split_head parse_params collected
split_head-head_of k [] h = rw (cut-none 32 (name_of k) (name-space k), split_head)
split_head-head_of k (q ∷ qs) h =
    rw
      (
        cut-single 32 (name_of k) (join (text ",") (map written (q ∷ qs))) (name-space k),
        split_head,
      )
      (rw (split-join q qs h)
        (ap (λ (m : Map Text Text). (name_of k, m)) (add_params-written (q ∷ qs) [] h)))

-- A command under one of the seven names is recognized with its message as it is, and with its
-- parameters, a later one with the same key in place of an earlier one. Keys are not empty and
-- have no `=`; no key or value has a comma or a colon.
pub parse_command-print :
    (k : Known) (ps : List (Text × Text)) (message : Text)
    → All Plain ps
    → parse_command (print_command k ps message)
      ≡ some (record { name = name_of k; parameters = collected ps []; message = message })
unfolding parse_command print_command cut_prefix
parse_command-print k ps message h =
    rw (cut-double b':' (head_of k ps) message (head-colon k ps h), parse_command)
      (rw (split_head-head_of k ps h) (recognize-name k (collected ps []) message))
