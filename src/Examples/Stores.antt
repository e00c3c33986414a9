-- ===== src/Examples/Stores.antt =====
-- The database operations and the alignment on small stores.
use kairos_p2p_engine.Base.{
  ◌≡◌, refl, true, false, none, some, List, [], ◌∷◌, Bytes, codes, elem, IsDistinct, lookup,
}
use kairos_p2p_engine.Badger.Memory.{Memory, memory, memory_laws, memory-IsReliable}
use kairos_p2p_engine.Database.{make_key, put_data, delete_key, get_all_data, iterate_and_process}
use kairos_p2p_engine.Database.Laws.{stored, stored-put, stored-delete}
use kairos_p2p_engine.Database.Laws.Scan.{
  fold_entries, get_all_data_lem, iterate_and_process-get_all_data,
}
use kairos_p2p_engine.Sync.{active_nodes, manifests, compare_keys, process_alignment}
use kairos_p2p_engine.Sync.Align.{process_alignment_lem}
use kairos_p2p_engine.Sync.Compare.{compare_keys-exact}
use kairos_p2p_engine.Cleanup.{chunks}

-- A key of each of two prefixes.
abbrev two_entries : Memory
two_entries = (codes "chunks:a", codes "x") ∷ (codes "manifests:a", codes "y") ∷ []

stored-put_example :
    stored memory_laws
      (put_data memory two_entries chunks (codes "b") (codes "z")).0
      chunks
      (codes "b")
    ≡ some (codes "z")
unfolding put_data
stored-put_example =
    stored-put memory_laws two_entries chunks chunks (codes "b") (codes "b") (codes "z") refl refl

stored-delete_example :
    stored memory_laws (delete_key memory two_entries chunks (codes "a")).0 chunks (codes "a")
    ≡ none
unfolding delete_key
stored-delete_example =
    stored-delete memory_laws two_entries chunks chunks (codes "a") (codes "a") refl refl

get_all_data_lem_example :
    (lookup (codes "a") (get_all_data memory two_entries chunks).0
      ≡ stored memory_laws two_entries chunks (codes "a"))
    × ((get_all_data memory two_entries chunks).1 ≡ none)
get_all_data_lem_example =
    get_all_data_lem memory_laws two_entries chunks (codes "a") memory-IsReliable

-- A callback that gathers the values.
abbrev gather : List Bytes → Bytes → Bytes → List Bytes
gather values key value = value ∷ values

iterate_and_process-get_all_data_example :
    iterate_and_process memory two_entries chunks gather [] ≡ (
      fold_entries gather [] (get_all_data memory two_entries chunks).0,
      (get_all_data memory two_entries chunks).1,
    )
iterate_and_process-get_all_data_example =
    iterate_and_process-get_all_data memory_laws gather two_entries chunks []

compare_keys-exact_example :
    let r = compare_keys (codes "a" ∷ codes "b" ∷ []) (codes "b" ∷ codes "c" ∷ []) in
    (elem (codes "c") r.0 ≡ true) × (elem (codes "c") r.1 ≡ false) × IsDistinct r.0 × IsDistinct r.1
compare_keys-exact_example =
    compare_keys-exact (codes "a" ∷ codes "b" ∷ []) (codes "b" ∷ codes "c" ∷ []) (codes "c")
      (refl, (refl, tt)) (refl, (refl, tt))

process_alignment_lem_example :
    (stored memory_laws
        (process_alignment memory two_entries
          ((codes "n", codes "1") ∷ [])
          ((codes "a", codes "2") ∷ []))
        active_nodes
        (codes "a")
      ≡ none)
    × (stored memory_laws
          (process_alignment memory two_entries
            ((codes "n", codes "1") ∷ [])
            ((codes "a", codes "2") ∷ []))
          manifests
          (codes "a")
        ≡ some (codes "y"))
unfolding make_key
process_alignment_lem_example =
    process_alignment_lem memory_laws memory-IsReliable two_entries ((codes "n", codes "1") ∷ [])
      ((codes "a", codes "2") ∷ []) (codes "a") (refl, tt)
