-- ===== src/AviPhase/Keeps.antt =====
-- What the writes and the panics of the phases keep, the phases keep.
use load_balancer_operator_f.Prelude.{
  Bool, true, false, Option, none, some, List, [], ◌∷◌, map, All, if◌then◌else◌,
}
use load_balancer_operator_f.Kube.{Error, Cluster, CtrlResult}
use load_balancer_operator_f.Kube.Exec.{Exec, returns, fails, panics}
use load_balancer_operator_f.Phases.{Phase}
use load_balancer_operator_f.Phases.Keeps.{
  Keeps, reconcile_phases-Keeps, reconcile_clusters_phases-Keeps,
}
use load_balancer_operator_f.AviInit.{AviState, Ended, returned, blocked, panicked}
use load_balancer_operator_f.Reconciler.{
  Write, cluster_patched, Halt, waits_for_ever, has_panicked, State, Server, written, of_exec,
  by_halt, guarded, guarded_in_cluster, of_handler,
}
use load_balancer_operator_f.AviPhase.{clusters_of, patch_by, patches, in_clusters, after_init}

-- A property of the state that writes of some kind keep, and panics.
pub record Closed (W : Write → Type 0) (P : State → Type 0) : Type 0 where
  pub on_writes : (s : State) (ws : List Write) → All W ws → P s → P (written s ws)
  pub on_panic : (s : State) → P s → P (record s { halt = some has_panicked })

All-map :
    {A : Type 0} (W : Write → Type 0) (f : A → Write)
    → ((a : A) → W (f a))
    → (xs : List A) → All W (map f xs)
All-map W f h [] = tt
All-map W f h (x ∷ xs) = (h x, All-map W f h xs)

pub either-Keeps :
    (P : State → Type 0) (b : Bool) (x y : State × CtrlResult × Option Error)
    → P x.0
    → P y.0
    → P (if b then x else y).0
either-Keeps P true x y p q = p
either-Keeps P false x y p q = q

module _ (W : Write → Type 0) (P : State → Type 0) (closed : Closed W P) where
  pub of_exec-Keeps :
      {V A : Type 0} (f : V → Write) (g : A → CtrlResult)
      → ((v : V) → W (f v))
      → (s : State) (m : Exec V A) → P s
      → P (of_exec f g s m).0
  of_exec-Keeps f g h s (ws, returns a) p = closed.on_writes s (map f ws) (All-map W f h ws) p
  of_exec-Keeps f g h s (ws, fails e) p = closed.on_writes s (map f ws) (All-map W f h ws) p
  of_exec-Keeps f g h s (ws, panics) p =
      closed.on_panic (written s (map f ws)) (closed.on_writes s (map f ws) (All-map W f h ws) p)

  pub of_handler-Keeps :
      {V A : Type 0} (f : V → Write) (g : A → CtrlResult)
      (handler : State → Cluster → Cluster × Exec V A)
      → ((v : V) → W (f v))
      → (x : State × Cluster) → P x.0
      → P (of_handler f g handler x).0.0
  of_handler-Keeps f g handler h (s, cluster) p = of_exec-Keeps f g h s (handler s cluster).1 p

  by_halt-Keeps :
      (h : Option Halt) (phase : Phase State)
      → Keeps P phase
      → (s : State) → P s
      → P (by_halt h phase s).0
  by_halt-Keeps none phase k s p = k s p
  by_halt-Keeps (some h) phase k s p = p

  pub guarded-Keeps : (phase : Phase State) → Keeps P phase → Keeps P (guarded phase)
  guarded-Keeps phase k s p = by_halt-Keeps s.halt phase k s p

  All-guarded :
      (phases : List (Phase State)) → All (Keeps P) phases → All (Keeps P) (map guarded phases)
  All-guarded [] h = tt
  All-guarded (phase ∷ phases) (h, hs) = (guarded-Keeps phase h, All-guarded phases hs)

  abbrev pub InCluster : Phase (State × Cluster) → Type 0
  InCluster phase = (x : State × Cluster) → P x.0 → P (phase x).0.0

  in_cluster_by :
      (h : Option Halt) (phase : Phase (State × Cluster))
      → InCluster phase
      → (x : State × Cluster) → P x.0
      → P (by_halt h phase x).0.0
  in_cluster_by none phase k x p = k x p
  in_cluster_by (some h) phase k x p = p

  All-InCluster :
      (phases : List (Phase (State × Cluster)))
      → All InCluster phases
      → All InCluster (map guarded_in_cluster phases)
  All-InCluster [] h = tt
  All-InCluster (phase ∷ phases) (h, hs) =
      ((λ x p. in_cluster_by x.0.halt phase h x p), All-InCluster phases hs)

  module _ (srv : Server) where
    patch_by-Keeps :
        ((c : Cluster) → W (cluster_patched c))
        → (h : Option Halt) (s : State) (c : Cluster) → P s
        → P (patch_by srv h s c).0
    patch_by-Keeps w none s c p = closed.on_writes s (cluster_patched c ∷ []) (w c, tt) p
    patch_by-Keeps w (some h) s c p = p

    pub in_clusters-Keeps :
        (normal_phases delete_phases : List (Phase (State × Cluster)))
        → ((c : Cluster) → W (cluster_patched c))
        → All InCluster normal_phases
        → All InCluster delete_phases
        → Keeps P (in_clusters srv normal_phases delete_phases)
    unfolding in_clusters
    in_clusters-Keeps normal_phases delete_phases w n d s p =
        reconcile_clusters_phases-Keeps P srv.agg (patches srv) s.obj
          (map guarded_in_cluster normal_phases) (map guarded_in_cluster delete_phases)
          (λ s c q. patch_by-Keeps w s.halt s c q) (All-InCluster normal_phases n)
          (All-InCluster delete_phases d) (clusters_of srv s) s p

    pub after_init-Keeps :
        (phases : List (Phase State))
        → ((s : State) (avi : AviState) → P s → P (record s { avi = avi }))
        → ((s : State) → P s → P (record s { halt = some waits_for_ever }))
        → All (Keeps P) phases
        → (s : State) (i : AviState × Ended) → P s
        → P (after_init srv phases s i).0
    after_init-Keeps phases a w k s (avi, returned (some e)) p = a s avi p
    after_init-Keeps phases a w k s (avi, returned none) p =
        reconcile_phases-Keeps P srv.agg (map guarded phases) (All-guarded phases k)
          (record s { avi = avi }) (a s avi p)
    after_init-Keeps phases a w k s (avi, blocked) p = w (record s { avi = avi }) (a s avi p)
    after_init-Keeps phases a w k s (avi, panicked) p =
        closed.on_panic (record s { avi = avi }) (a s avi p)
