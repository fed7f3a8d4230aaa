-- ===== src/Executor/FileCommand/RoundTrip.antt =====
-- Heredocs as a step writes them.
use mathlib.Core.List.{reverse, append-nil, reverse-cons, append_assoc}
use forgelet.Prelude.{
  ℕ, ◌≡◌, refl, ap, ◌∙◌, Bool, true, false, not, none, some, List, [], ◌∷◌, ◌++◌, is_empty, Text,
  text, text_key, is, any, any-append, All, map, arith, join, cut, cut-double, trim_space,
  trim_left, is_space, ◌==◌, if_pos, Bool-cases, inl, inr,
}
use forgelet.Executor.FileCommand.{Kv, opener, before_all, parse_lines}

-- A value by its lines, written with a delimiter.
pub record Entry : Type 0 where
  pub key : Text
  pub delim : Text
  pub body : List Text

unfoldable pub render : List Entry → List Text
render [] = []
render (e ∷ es) = (e.key ++ text "<<" ++ e.delim) ∷ (e.body ++ e.delim ∷ render es)

abbrev pub kv_of : Entry → Kv
kv_of e = record { key = e.key; value = join (10 ∷ []) e.body }

-- Key and delimiter are not empty and have no space around them, the key has no `<`, and no line
-- of the value is the delimiter.
pub record Writable (e : Entry) : Type 0 where
  pub key_filled : is_empty e.key ≡ false
  pub key_trimmed : trim_space e.key ≡ e.key
  pub key_plain : any (λ c. c == b'<') e.key ≡ false
  pub delim_filled : is_empty e.delim ≡ false
  pub delim_trimmed : trim_space e.delim ≡ e.delim
  pub body_open : any (λ l. is l e.delim) e.body ≡ false

abbrev solid : ℕ → Bool
solid c = not (is_space c)

any-reverse : (p : ℕ → Bool) (s : Text) → any p (reverse s) ≡ any p s
any-reverse p [] = refl
any-reverse p (c ∷ s) =
    let ih = any-reverse p s in
    let a = any-append p (reverse s) (c ∷ []) in rw (reverse-cons c s) (ground arith)

any-trim_left : (s : Text) → any solid (trim_left s) ≡ any solid s
unfolding trim_left
any-trim_left [] = refl
any-trim_left (c ∷ s) = let ih = any-trim_left s in ground arith

any-trim_space : (s : Text) → any solid (trim_space s) ≡ any solid s
unfolding trim_space
any-trim_space s =
    any-reverse solid (trim_left (reverse (trim_left s)))
    ∙ any-trim_left (reverse (trim_left s))
    ∙ any-reverse solid (trim_left s)
    ∙ any-trim_left s

-- A line with a byte that is no space is not blank.
solid-trim_space : (s : Text) → any solid s ≡ true → is_empty (trim_space s) ≡ false
solid-trim_space s h = let a = any-trim_space s in go (trim_space s) (a ∙ h)
  where
    go : (t : Text) → any solid t ≡ true → is_empty t ≡ false
    go [] e = cc
    go (c ∷ t) e = refl

opener-key :
    (e : Entry) → Writable e → opener (e.key ++ text "<<" ++ e.delim) ≡ some (e.key, e.delim)
unfolding opener
opener-key e w =
    let c : cut (text "<<") (e.key ++ text "<<" ++ e.delim) ≡ some (e.key, e.delim) =
      rw (append_assoc e.key (text "<<") e.delim) (cut-double b'<' e.key e.delim w.key_plain) in
    rw (c, opener) (rw (w.key_filled) (rw (w.key_trimmed) (rw (w.delim_trimmed))))

opener-solid : (key delim : Text) → any solid (key ++ text "<<" ++ delim) ≡ true
unfolding is_space
opener-solid [] delim = refl
opener-solid (c ∷ key) delim = let ih = opener-solid key delim in ground arith

parse_lines-opener :
    (line key delim : Text) (lines : List Text)
    → is_empty (trim_space line) ≡ false
    → opener line ≡ some (key, delim)
    → is_empty key ≡ false
    → is_empty delim ≡ false
    → parse_lines none (line ∷ lines)
      ≡ parse_lines (some (record { key = key; delim = delim; body = [] })) lines
unfolding parse_lines
parse_lines-opener line key delim lines a o k d = rw (a, o, k, d, parse_lines)

parse_lines-body :
    (key delim : Text) (seen body : List Text) (rest : List Text)
    → any (λ l. is l delim) body ≡ false
    → parse_lines (some (record { key = key; delim = delim; body = seen })) (body ++ delim ∷ rest)
      ≡ before_all
          (record { key = key; value = join (10 ∷ []) (seen ++ body) })
          (parse_lines none rest)
unfolding parse_lines
parse_lines-body key delim seen [] rest h =
    rw (if_pos (text_key.dec delim delim) refl, append-nil seen) refl
parse_lines-body key delim seen (l ∷ body) rest h = elim (Bool-cases (is l delim)) [
  | inl e ↦ absurd (ground arith)
  | inr e ↦
      let k : any (λ l. is l delim) body ≡ false = ground arith in
      rw e (
        parse_lines-body key delim (seen ++ l ∷ []) body rest k
        ∙ rw (append_assoc seen (l ∷ []) body) refl)
]

-- Values written as heredocs are read back in order, each under its key with its lines joined by
-- line feeds, whatever the lines hold: assignments, openers and blank lines included. Keys and
-- delimiters are trimmed and not empty, keys have no `<`, no line is the delimiter of its value.
pub parse_lines-render :
    (es : List Entry) → All Writable es → parse_lines none (render es) ≡ some (map kv_of es)
unfolding render parse_lines
parse_lines-render [] h = refl
parse_lines-render (e ∷ es) h =
    let w = h.0 in
    parse_lines-opener (e.key ++ text "<<" ++ e.delim) (e.key) (e.delim)
      (e.body ++ e.delim ∷ render es)
      (solid-trim_space (e.key ++ text "<<" ++ e.delim) (opener-solid e.key e.delim))
      (opener-key e w) (w.key_filled) (w.delim_filled)
    ∙ parse_lines-body e.key e.delim [] e.body (render es) (w.body_open)
    ∙ ap (before_all (kv_of e)) (parse_lines-render es (h.1))
