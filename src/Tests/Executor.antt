-- ===== src/Tests/Executor.antt =====
-- Files and commands of a step at concrete inputs.
use forgelet.Prelude.{
  lookup, text_key, ◌≡◌, refl, some, [], ◌∷◌, List, map, text, Text, Text-discrete, text_key,
  trim_space, contains_text, cut_prefix, place, false, All,
}
use forgelet.Executor.FileCommand.{parse_kv_file, apply_kvs}
use forgelet.Executor.FileCommand.RoundTrip.{Entry, Writable, render, kv_of}
use forgelet.Executor.FileCommand.Content.{latest, unlines, OneLine, parse_kv_file-render}
use forgelet.Executor.Command.{parse_command}
use forgelet.Executor.Mask.{Masker, apply_mask}
use forgelet.Executor.Mask.Hidden.{apply_mask-hides}
use forgelet.Executor.Command.RoundTrip.{
  warning, name_of, print_command, collected, parse_command-print,
}

abbrev notes : Entry
notes = record {
  key = text "NOTES";
  delim = text "EOF";
  body = text "a=1" ∷ [] ∷ text "b<<EOF" ∷ [];
}

notes-Writable : Writable notes
unfolding trim_space Text-discrete
notes-Writable = record {
  key_filled = refl;
  key_trimmed = refl;
  key_plain = refl;
  delim_filled = refl;
  delim_trimmed = refl;
  body_open = refl;
}

notes-OneLine : All OneLine (render (notes ∷ []))
unfolding render
notes-OneLine = (refl, (refl, (refl, (refl, (refl, tt)))))

parse_kv_file-render_example :
    (parse_kv_file (unlines (render (notes ∷ []))) ≡ some (map kv_of (notes ∷ [])))
    × (lookup notes.key (apply_kvs [] (map kv_of (notes ∷ [])))
        ≡ latest notes.key (notes ∷ []) (lookup notes.key []))
parse_kv_file-render_example =
    parse_kv_file-render (notes ∷ []) notes.key [] (notes-Writable, tt) notes-OneLine

abbrev place_of : List (Text × Text)
place_of = (text "file", text "a.go") ∷ (text "line", text "3") ∷ []

parse_command-print_example :
    parse_command (print_command warning place_of (text "x::y"))
    ≡ some (record {
      name = name_of warning;
      parameters = collected place_of [];
      message = text "x::y";
    })
parse_command-print_example = parse_command-print warning place_of (text "x::y") (
  record { key_filled = refl; key_plain = refl; no_comma = refl; no_colon = refl },
  (record { key_filled = refl; key_plain = refl; no_comma = refl; no_colon = refl }, tt),
)

abbrev two_secrets : Masker
two_secrets = record { vals = text "abc" ∷ text "cd" ∷ [] }

apply_mask-hides_example :
    All
      (λ v. contains_text v (apply_mask two_secrets (text "x abcd cd")) ≡ false)
      (two_secrets.vals)
apply_mask-hides_example =
    apply_mask-hides two_secrets (text "x abcd cd") ((refl, refl), ((refl, refl), tt))

-- Of two values that overlap, the end of the second one is left over.
overlap_left : apply_mask two_secrets (text "x abcd cd") ≡ text "x ***d ***"
unfolding apply_mask cut_prefix Text-discrete place
overlap_left = refl
