-- ===== src/System/Runs.antt =====
-- All runs of the two controllers: any number of reconciliations, of any objects, in any order.
use cluster_stack_provider_o.Base.{String, refl, []}
use cluster_stack_provider_o.Base.Int.{ℤ}
use cluster_stack_provider_o.Api.{
  NamespacedName, OpenStackNodeImageRelease, node_image_release_object,
}
use cluster_stack_provider_o.Runtime.Calls.{History}
use cluster_stack_provider_o.Runtime.Env.{Env}
use cluster_stack_provider_o.NodeImage.Reconcile.{reconcile as reconcile_node_image}
use cluster_stack_provider_o.ClusterStack.Reconcile.{reconcile as reconcile_cluster_stack}
use cluster_stack_provider_o.ClusterStack.Lock.{IsOrderly, reconcile-IsOrderly}
use cluster_stack_provider_o.System.Mutex.{node_image-IsOrderly}

abbrev O : Type 0
O = OpenStackNodeImageRelease

-- The settings of the command line.
module _ (env : Env) (minutes : ℤ) (directory : String) where
  pub data IsReachable : History → Type 0 where
    start : IsReachable []
    node_image :
        (req : NamespacedName) (h : History)
        → IsReachable h
        → IsReachable (reconcile_node_image env minutes req h).1
    cluster_stack :
        (req : NamespacedName) (h : History)
        → IsReachable h
        → IsReachable (reconcile_cluster_stack env directory req h).1

  -- In every run, the mutex is free between the reconciliations, and the release directory was
  -- only ever written while it was held.
  pub IsReachable-IsOrderly : (h : History) → IsReachable h → IsOrderly h
  IsReachable-IsOrderly _ start = (refl, refl)
  IsReachable-IsOrderly _ (node_image req h before) =
      node_image-IsOrderly env minutes req h (IsReachable-IsOrderly h before)
  IsReachable-IsOrderly _ (cluster_stack req h before) =
      reconcile-IsOrderly env directory req h (IsReachable-IsOrderly h before)
