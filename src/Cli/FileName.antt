-- ===== src/Cli/FileName.antt =====
-- The name that `get` gives a file, out of the header that the node makes of the manifest's name.
use kairos_p2p_engine.Base.{
  ltb, inr, inl, Bool-cases, ◌&&◌, ltb, leb, nat_eq, ℕ, ◌≡◌, refl, ap, ◌∙◌, Bool, true, false, ◌||◌,
  some, [], ◌∷◌, ◌++◌, Bytes, codes, drop_last, if◌then◌else◌, arith,
}
use kairos_p2p_engine.NodeApi.Files.{disposition}
use kairos_p2p_engine.Cli.{file_name, without_last, or_else}
use kairos_p2p_engine.Cli.Sscanf.{is_space, skip_spaces, word, verb_s, scan_file_name}

abbrev pub has_space : Bytes → Bool
has_space [] = false
has_space (c ∷ text) = is_space c || has_space text

-- The word is read before the quotation mark is compared, so it takes the mark along.
word-quoted : (name : Bytes) → has_space name ≡ false → word (name ++ (34 ∷ [])) ≡ name ++ (34 ∷ [])
word-quoted [] h = refl
word-quoted (c ∷ name) h = ground (arith, h, word-quoted name)

word-spaced :
    (first : Bytes) (c : ℕ) (rest : Bytes)
    → has_space first ≡ false
    → is_space c ≡ true
    → word (first ++ (c ∷ rest)) ≡ first
word-spaced [] c rest h s = rw s refl
word-spaced (d ∷ first) c rest h s = ground (arith, h, word-spaced first c rest)

drop_last-append : (name : Bytes) (c : ℕ) → drop_last (name ++ (c ∷ [])) ≡ name
drop_last-append [] c = refl
drop_last-append (d ∷ []) c = refl
drop_last-append (d ∷ e ∷ name) c = ap (λ t. d ∷ t) (drop_last-append (e ∷ name) c)

skip_spaces-quoted :
    (name : Bytes) → skip_spaces (name ++ (34 ∷ [])) ≡ skip_spaces name ++ (34 ∷ [])
skip_spaces-quoted [] = refl
skip_spaces-quoted (c ∷ name) = ground (arith, skip_spaces-quoted name)

skip_spaces-none : (name : Bytes) → has_space name ≡ false → skip_spaces name ≡ name
skip_spaces-none [] h = refl
skip_spaces-none (c ∷ name) h = ground (arith, h)

-- A word that ends before the quotation mark.
word-before : (text : Bytes) → has_space text ≡ true → word (text ++ (34 ∷ [])) ≡ word text
word-before [] h = absurd (ground (arith, h))
word-before (c ∷ text) h = elim (Bool-cases (is_space c)) [
  | inl s ↦ rw s refl
  | inr n ↦ rw n (ap (λ t. c ∷ t) (word-before text (ground (arith, h, n))))
]

-- No text that is left after spaces are skipped starts with one.
starts_with_space : Bytes → Bool
starts_with_space [] = false
starts_with_space (c ∷ text) = is_space c

skip_spaces-starts : (text : Bytes) → starts_with_space (skip_spaces text) ≡ false
unfolding starts_with_space
skip_spaces-starts [] = refl
skip_spaces-starts (c ∷ text) = ground (arith, skip_spaces-starts text)

scan-disposition :
    (name : Bytes) → scan_file_name (disposition name) ≡ verb_s (skip_spaces (name ++ (34 ∷ [])))
unfolding scan_file_name
scan-disposition name = refl

-- What is left of a text that starts with no space.
abbrev cut : Bytes → Bytes
cut text = if has_space text then drop_last (word text) else text

without_last-append : (name : Bytes) (c : ℕ) → without_last (name ++ (c ∷ [])) ≡ some name
without_last-append [] c = refl
without_last-append (d ∷ name) c = ap some (drop_last-append (d ∷ name) c)

without_last-verb_s :
    (text id : Bytes)
    → starts_with_space text ≡ false
    → without_last (or_else (verb_s (text ++ (34 ∷ []))) id) ≡ some (cut text)
unfolding starts_with_space
without_last-verb_s [] id h = refl
without_last-verb_s (c ∷ text) id h = elim (Bool-cases (has_space text)) [
  | inl e ↦ ground (arith, h, e, word-before text e)
  | inr e ↦ ground (arith, h, e, word-quoted text e, without_last-append (c ∷ text) 34)
]

-- What a header may hold in ASCII: printable characters, spaces and tabs. The spaces of such a text
-- are the same for `Sscanf` and for `is_space`.
abbrev pub is_header_text : Bytes → Bool
is_header_text [] = true
is_header_text (c ∷ text) = ((leb 32 c && ltb c 127) || nat_eq c 9) && is_header_text text

-- Of the header that the node makes of a file's name in ASCII, without control characters but tabs,
-- `get` takes the name back when no space is in it. Otherwise spaces before it are dropped; and if
-- one is left, the name is cut off there, and its last character is lost.
pub file_name-disposition :
    (file_id name : Bytes)
    → is_header_text name ≡ true
    → file_name file_id (disposition name)
      ≡ some (if has_space name then cut (skip_spaces name) else name)
unfolding file_name
file_name-disposition file_id name plain =
    let default = codes "downloaded_" ++ file_id in
    let read : file_name file_id (disposition name) ≡ some (cut (skip_spaces name)) =
      ap (λ t. without_last (or_else t default)) (scan-disposition name)
      ∙ ap (λ t. without_last (or_else (verb_s t) default)) (skip_spaces-quoted name)
      ∙ without_last-verb_s (skip_spaces name) default (skip_spaces-starts name) in
    elim (Bool-cases (has_space name)) [
      | inl e ↦ read ∙ rw e refl
      | inr e ↦ read ∙ rw (skip_spaces-none name e) (rw e refl)
    ]
