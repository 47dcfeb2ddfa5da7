-- ===== src/Xds/Clusters/Names.antt =====
-- When two clusters have one name.
use car_integrated_service_m.Prelude.{Bytes, codes, true, false, ◌≡◌, ◌↔◌, ◌++◌, sym}
use mathlib.Core.List.{append_cancel_left, append_cancel_right}
use car_integrated_service_m.Xds.Clusters.{generate_cluster_name}

-- Clusters of one kind, local or not, have one name exactly if they are of one bundle. The local
-- cluster of a bundle has the name of a cluster that is not local exactly if the bundle of the
-- latter is called as the former with `local_` in front.
pub generate_cluster_name_lem :
    (a b : Bytes)
    → ((generate_cluster_name a true ≡ generate_cluster_name b true) ↔ (a ≡ b))
      × ((generate_cluster_name a false ≡ generate_cluster_name b false) ↔ (a ≡ b))
      × ((generate_cluster_name a true ≡ generate_cluster_name b false) ↔ (b ≡ codes "local_" ++ a))
unfolding generate_cluster_name
generate_cluster_name_lem a b = (
  (
    λ e. append_cancel_right a b (codes "_cluster") (append_cancel_left (codes "local_") _ _ e),
    λ e. rw e,
  ),
  (append_cancel_right a b (codes "_cluster"), λ e. rw e),
  (λ e. sym (append_cancel_right (codes "local_" ++ a) b (codes "_cluster") e), λ e. rw e),
)
