-- ===== src/Mapping/Label.antt =====
-- The label that records the owner of a cluster.
use load_balancer_operator_f.Prelude.{
  String, Bool, false, none, some, ◌≡◌, ◌≢◌, ◌⊎◌, arith, lookup, eq_iff, lookup-insert,
  lookup-delete, literal_ne, refl,
}
use load_balancer_operator_f.Kube.{Cluster}
use load_balancer_operator_f.Kube.Interfaces.{Env, Conditions}
use load_balancer_operator_f.Api.{AkoDeploymentConfig}
use load_balancer_operator_f.Api.Constants.{avi_cluster_label}
use load_balancer_operator_f.Mapping.{
  is_default_wc_adc, selects, may_take, apply_cluster_label, remove_cluster_label,
}

-- ApplyClusterLabel sets the label to the name of the AKODeploymentConfig, RemoveClusterLabel drops
-- it, and both leave a label of any other key.
pub cluster_label :
    (c : Cluster) (obj : AkoDeploymentConfig) (k : String)
    → avi_cluster_label ≢ k
    → (lookup avi_cluster_label (apply_cluster_label c obj).labels ≡ some obj.name)
      × (lookup avi_cluster_label (remove_cluster_label c).labels ≡ none)
      × (lookup k (apply_cluster_label c obj).labels ≡ lookup k c.labels)
      × (lookup k (remove_cluster_label c).labels ≡ lookup k c.labels)
unfolding apply_cluster_label remove_cluster_label
cluster_label c obj k n = (
  lookup-insert avi_cluster_label avi_cluster_label obj.name c.labels,
  lookup-delete avi_cluster_label avi_cluster_label c.labels,
  ground (arith, lookup-insert avi_cluster_label k obj.name c.labels, eq_iff avi_cluster_label k),
  ground (arith, lookup-delete avi_cluster_label k c.labels, eq_iff avi_cluster_label k),
)

taken :
    (owner other : String) (d : Bool)
    → owner ≢ other
    → (owner ≢ "install-ako-for-all") ⊎ (d ≡ false)
    → may_take other d (some owner) ≡ false
unfolding is_default_wc_adc
taken owner other d n k = ground (arith, eq_iff owner other, eq_iff owner "install-ako-for-all")

-- Once an AKODeploymentConfig has put its label on a cluster, no AKODeploymentConfig of another name
-- selects it, unless the label is that of the default one and its selector is empty.
pub selects-apply_cluster_label :
    (env : Env) (cond : Conditions) (c : Cluster) (owner other : AkoDeploymentConfig)
    (default_is_empty : Bool)
    → owner.name ≢ other.name
    → (owner.name ≢ "install-ako-for-all") ⊎ (default_is_empty ≡ false)
    → selects env cond other.name default_is_empty (apply_cluster_label c owner) ≡ false
unfolding selects
selects-apply_cluster_label env cond c owner other d n k =
    ground (arith, cluster_label c owner "" (literal_ne refl), taken owner.name other.name d n k)
