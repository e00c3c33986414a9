-- ===== src/Cli/Sscanf.antt =====
-- `fmt.Sscanf(text, "attachment; filename=\"%s\"", &filename)` of cmd/k-cli/cmd/get.go, on the
-- text of a header in ASCII, which has no control characters but tabs. In other texts `Sscanf` reads runes, and some of
-- them are spaces; this is not modelled.
use kairos_p2p_engine.Base.{
  ℕ, Bool, ◌||◌, ◌&&◌, Option, none, some, [], ◌∷◌, ◌++◌, Bytes, codes, nat_eq, leb, if◌then◌else◌,
}

abbrev pub is_space : ℕ → Bool
is_space c = (leb 9 c && leb c 13) || nat_eq c 32

-- Literal text of the format has to be there.
abbrev pub literal : Bytes → Bytes → Option Bytes
literal [] text = some text
literal (c ∷ format) [] = none
literal (c ∷ format) (d ∷ text) =
    let rest = literal format text in if nat_eq c d then rest else none

abbrev pub skip_spaces : Bytes → Bytes
skip_spaces [] = []
skip_spaces (c ∷ text) = let rest = skip_spaces text in if is_space c then rest else c ∷ text

-- A space of the format matches one space or more, or the end of the text.
abbrev pub spaces : Bytes → Option Bytes
spaces [] = some []
spaces (c ∷ text) = if is_space c then some (skip_spaces text) else none

abbrev pub word : Bytes → Bytes
word [] = []
word (c ∷ text) = let rest = word text in if is_space c then [] else c ∷ rest

-- `%s`: the text up to the next space, after the spaces before it; there has to be one.
abbrev pub verb_s : Bytes → Option Bytes
verb_s [] = none
verb_s (c ∷ text) = some (word (c ∷ text))

-- What is stored in `filename`, if anything; the quotation mark at the end of the format is
-- compared only after that.
unfoldable pub scan_file_name : Bytes → Option Bytes
scan_file_name text = elim (literal (codes "attachment;") text) [
  | none ↦ none
  | some after_word ↦ elim (spaces after_word) [
    | none ↦ none
    | some after_space ↦ elim (literal (codes "filename=" ++ (34 ∷ [])) after_space) [
      | none ↦ none
      | some quoted ↦ verb_s (skip_spaces quoted)
    ]
  ]
]
