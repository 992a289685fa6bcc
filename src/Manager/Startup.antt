-- ===== src/Manager/Startup.antt =====
-- What the start is made of: the calls of controller-runtime and of the scheme, and how the process
-- ends.
use cluster_stack_provider_o.Base.{ℕ, String, Bool, List, ◌∷◌, if◌then◌else◌}
use cluster_stack_provider_o.Base.Int.{ℤ}

-- `assetsclient.Factory`: one of the three of cluster-stack-operator.
pub data Factory : Type 0 where
  fake oci github : Factory

-- `ctrl.Options`, the fields that are set; the period is in nanoseconds.
pub record Options : Type 0 where
  pub metrics_bind_address : String
  pub health_probe_bind_address : String
  pub leader_election : Bool
  pub leader_election_id : String
  pub sync_period : ℕ

-- The reconcilers, the fields that do not come from the manager.
pub record ClusterStackReconciler : Type 0 where
  pub release_directory : String
  pub assets_client_factory : Factory

pub record NodeImageReconciler : Type 0 where
  pub image_import_timeout : ℤ

pub data Action : Type 0 where
  -- the two `AddToScheme` of `init`
  add_core_to_scheme add_api_to_scheme : Action
  -- `ctrl.GetConfigOrDie()`
  get_config : Action
  new_manager : Options → Action
  init_from_recorder : String → Action
  set_up_cluster_stack : ClusterStackReconciler → Action
  set_up_node_image : NodeImageReconciler → Action
  add_healthz_check add_readyz_check : String → Action
  -- `mgr.Start`, which comes back when the manager stops
  start : Action

-- Whether an action succeeds, after those before it, the latest first.
abbrev pub Library : Type 0
Library = List Action → Action → Bool

pub data Ending : Type 0 where
  exited : ℕ → Ending
  panicked : Ending

pub data Progress : Type 0 where
  going : Progress
  ended : Ending → Progress

-- A part of the start: the actions so far go in, and those after it come out.
abbrev pub Part : Type 0
Part = List Action → Progress × List Action

abbrev pub continue : Part → Progress × List Action → Progress × List Action
continue part (going, done) = part done
continue part (ended e, done) = (ended e, done)

infixl 5 ◌>>◌
abbrev pub ◌>>◌ : Part → Part → Part
◌>>◌ m n done = continue n (m done)

-- An action that ends the process where it fails.
abbrev pub or_end : Ending → Library → Action → Part
or_end e library a done = if library done a then (going, a ∷ done) else (ended e, a ∷ done)

-- `if err != nil { os.Exit(1) }`
abbrev pub attempt : Library → Action → Part
attempt = or_end (exited 1)

-- `runtimeutils.Must`
abbrev pub must : Library → Action → Part
must = or_end panicked

-- An action that cannot fail.
abbrev pub perform : Action → Part
perform a done = (going, a ∷ done)

abbrev pub exit : ℕ → Part
exit code done = (ended (exited code), done)
