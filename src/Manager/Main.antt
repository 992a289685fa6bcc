-- ===== src/Manager/Main.antt =====
-- Lines 50 to 53 and 65 to 155: `init` and `main`.
use cluster_stack_provider_o.Base.{List, [], Option, none, some, ◌=s◌, ◌*◌, if◌then◌else◌}
use cluster_stack_provider_o.Api.Constants.{minute}
use cluster_stack_provider_o.Manager.Flags.{Flags}
use cluster_stack_provider_o.Manager.Startup.{
  Factory, fake, oci, github, Options, ClusterStackReconciler, NodeImageReconciler, Action, Library,
  Ending, exited, Progress, going, ended, Part, ◌>>◌, attempt, must, perform, exit,
}

-- Lines 108 to 121: the factory of the assets clients; none for a source that is not allowed.
unfoldable pub choose_factory : Flags → Option Factory
choose_factory flags =
    if flags.local_mode
    then some fake
    else if flags.source =s "oci"
    then some oci
    else if flags.source =s "github"
    then some github
    else none

abbrev pub manager_options : Flags → Options
manager_options flags = record {
  metrics_bind_address = flags.metrics_addr;
  health_probe_bind_address = flags.probe_addr;
  leader_election = flags.enable_leader_election;
  leader_election_id = "openstack.provider.clusterstack.x-k8s.io";
  sync_period = 5 * minute;
}

abbrev pub cluster_stack_reconciler : Flags → Factory → ClusterStackReconciler
cluster_stack_reconciler flags factory = record {
  release_directory = flags.release_dir;
  assets_client_factory = factory;
}

abbrev pub node_image_reconciler : Flags → NodeImageReconciler
node_image_reconciler flags = record { image_import_timeout = flags.image_import_timeout }

module _ (library : Library) where
  -- Lines 50 to 53.
  unfoldable pub init : Part
  init = must library Action.add_core_to_scheme >> must library Action.add_api_to_scheme

  -- Lines 88 to 106.
  unfoldable pub make_manager : Flags → Part
  make_manager flags =
      attempt library Action.get_config
      >> attempt library (Action.new_manager (manager_options flags))
      >> perform (Action.init_from_recorder "cspo-controller")

  -- Lines 123 to 139.
  unfoldable pub set_up : Flags → Factory → Part
  set_up flags factory =
      attempt library (Action.set_up_cluster_stack (cluster_stack_reconciler flags factory))
      >> attempt library (Action.set_up_node_image (node_image_reconciler flags))

  -- Lines 141 to 154.
  unfoldable pub serve : Part
  serve =
      attempt library (Action.add_healthz_check "healthz")
      >> attempt library (Action.add_readyz_check "readyz")
      >> attempt library Action.start

  with_factory : Flags → Option Factory → Part
  with_factory flags none = exit 1
  with_factory flags (some factory) = set_up flags factory >> serve

  -- The process ends with code 0 where `main` comes to its end.
  abbrev end_of : Progress → Ending
  end_of going = exited 0
  end_of (ended e) = e

  -- The whole process: how it ends, and its actions, the latest first.
  unfoldable pub main : Flags → Ending × List Action
  unfolding with_factory
  main flags =
      let (progress, done) =
        (init >> make_manager flags >> with_factory flags (choose_factory flags)) [] in
      (end_of progress, done)
