-- ===== src/Executor/FileCommand/Content.antt =====
-- The content of a file, and its lines.
use forgelet.Prelude.{
  Option, join, ite, text_key, Map, lookup, insert, lookup-insert, ℕ, ◌≡◌, refl, ap, ◌∙◌, Bool,
  false, ◌||◌, none, some, List, [], ◌∷◌, ◌++◌, Text, any, All, map, arith, ◌==◌,
}
use forgelet.Executor.FileCommand.{
  unix_lines, split_on_line_feed, split_lines, parse_lines, apply_kvs, parse_kv_file,
}
use forgelet.Executor.FileCommand.RoundTrip.{Entry, Writable, render, kv_of, parse_lines-render}

-- Every line with a line feed behind it.
abbrev pub unlines : List Text → Text
unlines [] = []
unlines (l ∷ ls) = l ++ 10 ∷ unlines ls

-- No line feed and no carriage return.
abbrev pub OneLine : Text → Type 0
OneLine l = any (λ c. c == 10 || c == 13) l ≡ false

abbrev returns : Text → Bool
returns s = any (λ c. c == 13) s

unix_lines-same : (s : Text) → returns s ≡ false → unix_lines s ≡ s
unfolding unix_lines
unix_lines-same [] h = refl
unix_lines-same (c ∷ []) h = refl
unix_lines-same (c ∷ d ∷ s) h = let ih = unix_lines-same (d ∷ s) in ground arith

returns-line : (l rest : Text) → OneLine l → returns rest ≡ false → returns (l ++ 10 ∷ rest) ≡ false
returns-line [] rest o h = h
returns-line (c ∷ l) rest o h = let ih = returns-line l rest in ground arith

returns-unlines : (ls : List Text) → All OneLine ls → returns (unlines ls) ≡ false
returns-unlines [] o = refl
returns-unlines (l ∷ ls) o = returns-line l (unlines ls) (o.0) (returns-unlines ls (o.1))

split-last : (l : Text) → OneLine l → split_on_line_feed (l ++ 10 ∷ []) ≡ l ∷ []
unfolding split_on_line_feed
split-last [] o = refl
split-last (c ∷ []) o = ground arith
split-last (c ∷ d ∷ l) o = let ih = split-last (d ∷ l) in ground arith

split-line :
    (l : Text) (c : ℕ) (rest : Text)
    → OneLine l
    → split_on_line_feed (l ++ 10 ∷ c ∷ rest) ≡ l ∷ split_on_line_feed (c ∷ rest)
unfolding split_on_line_feed
split-line [] c rest o = refl
split-line (b ∷ []) c rest o = ground arith
split-line (b ∷ d ∷ l) c rest o = let ih = split-line (d ∷ l) c rest in ground arith

split-unlines :
    (l : Text) (ls : List Text)
    → OneLine l
    → All OneLine ls
    → split_on_line_feed (unlines (l ∷ ls)) ≡ l ∷ ls
split-unlines l [] o a = split-last l o
split-unlines l ([] ∷ ls) o a =
    split-line l 10 (unlines ls) o ∙ ap (λ r. l ∷ r) (split-unlines [] ls (a.0) (a.1))
split-unlines l ((c ∷ m) ∷ ls) o a =
    split-line l c (m ++ 10 ∷ unlines ls) o ∙ ap (λ r. l ∷ r) (split-unlines (c ∷ m) ls (a.0) (a.1))

split_lines-unlines : (ls : List Text) → All OneLine ls → split_lines (unlines ls) ≡ ls
unfolding split_lines
split_lines-unlines [] a = refl
split_lines-unlines ([] ∷ ls) a =
    rw (unix_lines-same _ (returns-unlines ([] ∷ ls) a)) (split-unlines [] ls (a.0) (a.1))
split_lines-unlines ((c ∷ l) ∷ ls) a =
    rw (unix_lines-same _ (returns-unlines ((c ∷ l) ∷ ls) a)) (split-unlines (c ∷ l) ls (a.0) (a.1))

-- The value of the last entry under a key, or the given one if there is none.
abbrev pub latest : Text → List Entry → Option Text → Option Text
latest k [] before = before
latest k (e ∷ es) before =
    latest k es (ite (text_key.dec e.key k) (some (join (10 ∷ []) e.body)) before)

apply_kvs-latest :
    (k : Text) (es : List Entry) (env : Map Text Text)
    → lookup k (apply_kvs env (map kv_of es)) ≡ latest k es (lookup k env)
unfolding apply_kvs
apply_kvs-latest k [] env = refl
apply_kvs-latest k (e ∷ es) env =
    apply_kvs-latest k es (insert e.key (join (10 ∷ []) e.body) env)
    ∙ ap (latest k es) (lookup-insert e.key k (join (10 ∷ []) e.body) env)

-- A file of values written as heredocs, whose lines hold no line feed and no carriage return, is
-- read back: each value in order under its key, with its lines joined by line feeds, whatever
-- these hold, be it assignments, openers or nothing. A key that comes more than once is read each
-- time; once the entries are applied to a map, it has its last value, and a key that does not come
-- keeps the value that it had. Keys and delimiters are trimmed and not empty, keys have no `<`, and
-- no line of a value is its delimiter.
pub parse_kv_file-render :
    (es : List Entry) (k : Text) (env : Map Text Text)
    → All Writable es
    → All OneLine (render es)
    → (parse_kv_file (unlines (render es)) ≡ some (map kv_of es))
      × (lookup k (apply_kvs env (map kv_of es)) ≡ latest k es (lookup k env))
unfolding parse_kv_file
parse_kv_file-render es k env w o = (
  ap (parse_lines none) (split_lines-unlines (render es) o) ∙ parse_lines-render es w,
  apply_kvs-latest k es env,
)
