-- ===== src/Examples/Wire.antt =====
-- A plain format of values as lists of numbers, which stands for JSON in the examples.
use kairos_p2p_engine.Base.{ℕ, zero, suc, ◌≡◌, refl, ap, ◌∙◌, true, List, [], ◌∷◌, Bytes, length}
use kairos_p2p_engine.Process.Json.{Codec}

-- `write a rest` puts the text of `a` before `rest`.
pub record Wire (A : Type 0) : Type 0 where
  pub write : A → Bytes → Bytes
  pub read : Bytes → A × Bytes
  pub read-write : (a : A) (rest : Bytes) → read (write a rest) ≡ (a, rest)

abbrev read_number : Bytes → ℕ × Bytes
read_number [] = (0, [])
read_number (n ∷ rest) = (n, rest)

abbrev pub number_wire : Wire ℕ
number_wire = record { write = λ n rest. n ∷ rest; read = read_number; read-write = λ n rest. refl }

module _ {A B : Type 0} (a : Wire A) (b : Wire B) where
  abbrev read_pair : Bytes → (A × B) × Bytes
  read_pair text =
      let (x, text') = a.read text in let (y, text'') = b.read text' in ((x, y), text'')

  pub pair_law :
      (x : A) (y : B) (rest : Bytes) → read_pair (a.write x (b.write y rest)) ≡ ((x, y), rest)
  pair_law x y rest = rw (a.read-write x (b.write y rest)) (rw (b.read-write y rest) refl)

  abbrev pub pair_wire : Wire (A × B)
  pair_wire = record {
    write = λ p rest. a.write p.0 (b.write p.1 rest);
    read = read_pair;
    read-write = λ p rest. pair_law p.0 p.1 rest;
  }

module _ {A : Type 0} (a : Wire A) where
  abbrev write_items : List A → Bytes → Bytes
  write_items [] rest = rest
  write_items (x ∷ xs) rest = a.write x (write_items xs rest)

  abbrev read_items : ℕ → Bytes → List A × Bytes
  read_items zero text = ([], text)
  read_items (suc n) text =
      let (x, text') = a.read text in let (xs, text'') = read_items n text' in (x ∷ xs, text'')

  abbrev read_list : Bytes → List A × Bytes
  read_list [] = ([], [])
  read_list (n ∷ text) = read_items n text

  pub items_law :
      (xs : List A) (rest : Bytes) → read_items (length xs) (write_items xs rest) ≡ (xs, rest)
  items_law [] rest = refl
  items_law (x ∷ xs) rest = rw (a.read-write x (write_items xs rest)) (rw (items_law xs rest) refl)

  abbrev pub list_wire : Wire (List A)
  list_wire = record {
    write = λ xs rest. length xs ∷ write_items xs rest;
    read = read_list;
    read-write = λ xs rest. items_law xs rest;
  }

-- A record is written as a tuple of its fields.
abbrev pub record_wire :
    {A B : Type 0} → (to : A → B) → (from : B → A) → ((a : A) → from (to a) ≡ a) → Wire B → Wire A
record_wire to from back w = record {
  write = λ a rest. w.write (to a) rest;
  read = λ text. (from (w.read text).0, (w.read text).1);
  read-write =
      λ a rest. ap (λ r. (from r.0, r.1)) (w.read-write (to a) rest) ∙ ap (λ x. (x, rest)) (back a);
}

abbrev pub bytes_wire : Wire Bytes
bytes_wire = list_wire number_wire

abbrev pub codec : {A : Type 0} → Wire A → Codec A
codec w = record {
  marshal = λ a. w.write a [];
  decode = λ text. ((w.read text).0, true);
  decode-marshal = λ a. ap (λ r. (r.0, true)) (w.read-write a []);
}
