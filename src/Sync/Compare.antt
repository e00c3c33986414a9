-- ===== src/Sync/Compare.antt =====
-- `CompareKeys` of internal/service/synchronization.go.
use kairos_p2p_engine.Base.{
  ◌≡◌, refl, ◌&&◌, not, List, [], ◌∷◌, Bytes, eq_iff, elem, IsDistinct, arith,
}
use kairos_p2p_engine.Sync.{missing, compare_keys}

pub elem-missing :
    (k : Bytes) (have ks : List Bytes) → elem k (missing have ks) ≡ (elem k ks && not (elem k have))
unfolding missing
elem-missing k have [] = refl
elem-missing k have (x ∷ ks) = ground (arith, eq_iff x k, elem-missing k have ks)

missing-IsDistinct : (have ks : List Bytes) → IsDistinct ks → IsDistinct (missing have ks)
unfolding missing
missing-IsDistinct have [] d = tt
missing-IsDistinct have (x ∷ ks) d =
    ground (arith, missing-IsDistinct have ks d.1, elem-missing x have ks)

-- For lists without repeated keys and every key: the first result holds it exactly when it is a
-- remote key that is not local, the second exactly when it is a local key that is not remote.
-- Neither result repeats a key.
pub compare_keys-exact :
    (local_keys remote_keys : List Bytes) (k : Bytes)
    → IsDistinct local_keys
    → IsDistinct remote_keys
    → let r = compare_keys local_keys remote_keys in
      (elem k r.0 ≡ (elem k remote_keys && not (elem k local_keys)))
      × (elem k r.1 ≡ (elem k local_keys && not (elem k remote_keys)))
      × IsDistinct r.0
      × IsDistinct r.1
unfolding compare_keys
compare_keys-exact local_keys remote_keys k dl dr = (
  elem-missing k local_keys remote_keys,
  elem-missing k remote_keys local_keys,
  missing-IsDistinct local_keys remote_keys dr,
  missing-IsDistinct remote_keys local_keys dl,
)
