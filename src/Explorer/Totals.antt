-- ===== src/Explorer/Totals.antt =====
-- The totals of the overview do not depend on the order in which the nodes answer.
use mathlib.Core.List.{Perm, Permᴰ}
use mathlib.Core.Logic.{∥∥₁_elim}
use native.Mathlib.Nat.{ℕ_set}
use kairos_p2p_engine.Base.{
  ℕ, ◌≡◌, refl, ap, ◌∙◌, Option, none, some, List, [], ◌∷◌, Bytes, arith, nat_eq, length,
  Bool-cases, Option-cases, inl, inr,
}
use kairos_p2p_engine.Process.{
  Response, Method, method_get, method_post, method_delete, other_method,
}
use kairos_p2p_engine.Metrics.{StorageMetrics, NodeMetrics, BootstrapMetrics, add64}
use kairos_p2p_engine.Explorer.{
  NodeDetail, NetworkOverview, add_storage, add_detail, add_details, node_detail, node_details,
  initial_overview, first_available, get_network_overview,
}

NetworkOverview-set : IsSet NetworkOverview
NetworkOverview-set = hlevel (ℕ_set)

-- An overview without the list of the nodes, which stands in the order of the answers.
abbrev pub totals : NetworkOverview → NetworkOverview
totals o = record o { nodes = [] }

abbrev pub totals? : Option NetworkOverview → Option NetworkOverview
totals? none = none
totals? (some o) = some (totals o)

add64_swap : (a b c : ℕ) → add64 (add64 a b) c ≡ add64 (add64 a c) b
add64_swap a b c = omega arith

add_storage_swap :
    (s t u : StorageMetrics) → add_storage (add_storage s t) u ≡ add_storage (add_storage s u) t
add_storage_swap s t u =
    rw
      (
        add64_swap s.database_used_bytes t.database_used_bytes u.database_used_bytes,
        add64_swap s.disk_total_bytes t.disk_total_bytes u.disk_total_bytes,
        add64_swap s.disk_used_bytes t.disk_used_bytes u.disk_used_bytes,
        add64_swap s.disk_free_bytes t.disk_free_bytes u.disk_free_bytes,
      )
      refl

add_detail_swap :
    (o : NetworkOverview) (d e : NodeDetail)
    → totals (add_detail (add_detail o d) e) ≡ totals (add_detail (add_detail o e) d)
add_detail_swap o d e = rw (add64_swap o.total_chunks_distributed d.total_chunks e.total_chunks) (
    ap
      (λ s. totals (record o {
        total_chunks_distributed =
            add64 (add64 o.total_chunks_distributed e.total_chunks) d.total_chunks;
        aggregated_node_storage = s;
      }))
      (add_storage_swap o.aggregated_node_storage d.storage e.storage))

totals-add_details :
    (o p : NetworkOverview) (details : List NodeDetail)
    → totals o ≡ totals p
    → totals (add_details o details) ≡ totals (add_details p details)
totals-add_details o p [] h = h
totals-add_details o p (d ∷ details) h =
    totals-add_details (add_detail o d) (add_detail p d) details
      (ap (λ q. totals (add_detail q d)) h)

module _ (get : Bytes → Option Response) (boot_data : Bytes → BootstrapMetrics)
    (node_data : Bytes → Option NodeMetrics) where
  abbrev detail : Bytes → NodeDetail
  detail = node_detail get boot_data node_data

  totals_permuted :
      (o : NetworkOverview) (xs ys : List Bytes)
      → Permᴰ xs ys
      → totals (add_details o (node_details get boot_data node_data xs))
        ≡ totals (add_details o (node_details get boot_data node_data ys))
  totals_permuted o xs ys Permᴰ.nil = refl
  totals_permuted o (a ∷ xs) (b ∷ ys) (Permᴰ.cons e p) =
      ap
        (λ c. totals (
          add_details (add_detail o (node_detail get boot_data node_data c))
            (node_details get boot_data node_data xs)))
        e
      ∙ totals_permuted (add_detail o (node_detail get boot_data node_data b)) xs ys p
  totals_permuted o (a ∷ b ∷ xs) (c ∷ d ∷ ys) (Permᴰ.swap e f) =
      totals-add_details (add_detail (add_detail o (detail a)) (detail b))
        (add_detail (add_detail o (detail b)) (detail a)) (node_details get boot_data node_data xs)
        (add_detail_swap o (detail a) (detail b))
      ∙ ap
          (λ t. totals (
            add_details (add_detail (add_detail o (detail t)) (detail a))
              (node_details get boot_data node_data xs)))
          f
      ∙ ap
          (λ t. totals (
            add_details (add_detail (add_detail o (detail c)) (detail t))
              (node_details get boot_data node_data xs)))
          e
  totals_permuted o xs ys (Permᴰ.trans {l₂ = zs} p q) =
      totals_permuted o xs zs p ∙ totals_permuted o zs ys q

  totals_perm :
      (o : NetworkOverview) (xs ys : List Bytes)
      → Perm xs ys
      → totals (add_details o (node_details get boot_data node_data xs))
        ≡ totals (add_details o (node_details get boot_data node_data ys))
  totals_perm o xs ys p = ∥∥₁_elim p (NetworkOverview-set _ _) (totals_permuted o xs ys)

  -- For two orders in which the nodes may answer, the handler gives the same error or the same
  -- overview, apart from the order of the list of the nodes.
  pub get_network_overview-order :
      (servers : List Bytes) (perm : List ℕ) (order later : List Bytes → List Bytes)
      (method : Method)
      → ((addresses : List Bytes) → Perm (order addresses) (later addresses))
      → ((get_network_overview get boot_data node_data servers perm order method).0
          ≡ (get_network_overview get boot_data node_data servers perm later method).0)
        × (totals? (get_network_overview get boot_data node_data servers perm order method).1
            ≡ totals? (get_network_overview get boot_data node_data servers perm later method).1)
  unfolding get_network_overview
  get_network_overview-order servers perm order later method_get p =
      elim (Bool-cases (nat_eq (length servers) 0)) [
        | inl e ↦ rw e (refl, refl)
        | inr e ↦ rw e (elim (Option-cases (first_available get boot_data node_data servers perm)) [
          | inl f ↦ rw f (refl, refl)
          | inr ((target, body), f) ↦ rw f (
            refl,
            ap some (
                totals_perm (initial_overview get boot_data node_data target (boot_data body))
                  (order (boot_data body).node_addresses) (later (boot_data body).node_addresses)
                  (p (boot_data body).node_addresses)),
          )
        ])
      ]
  get_network_overview-order servers perm order later method_post p = (refl, refl)
  get_network_overview-order servers perm order later method_delete p = (refl, refl)
  get_network_overview-order servers perm order later other_method p = (refl, refl)
