-- ===== src/Manager/Started.antt =====
-- What has been done where the manager is started.
use cluster_stack_provider_o.Base.{
  ◌≡◌, refl, sym, subst, ◌=s◌, eq_iff, ap, ◌∙◌, Bool, true, false, List, [], ◌∷◌, ◌++◌, Option,
  none, some, any, arith, Bool-cases, inl, inr,
}
use cluster_stack_provider_o.Manager.Flags.{Flags}
use cluster_stack_provider_o.Manager.Startup.{Factory, fake, oci, github, Action, Library, Ending}
use cluster_stack_provider_o.Manager.Main.{
  choose_factory, main, cluster_stack_reconciler, node_image_reconciler,
}
use cluster_stack_provider_o.Manager.Plan.{opening, plan, code_after, succeeds, follow, main_with}

abbrev pub is_start : Action → Bool
is_start Action.start = true
is_start _ = false

abbrev pub has_start : List Action → Bool
has_start = any is_start

-- Some actions, put in their order on those before them.
abbrev pub turned : List Action → List Action → List Action
turned [] done = done
turned (a ∷ actions) done = turned actions (a ∷ done)

-- Up to its last action, a plan is followed without a failure if that action is reached.
follow_started :
    (library : Library) (last : Ending) (before done : List Action)
    → has_start before ≡ false
    → has_start done ≡ false
    → has_start (follow library last (before ++ Action.start ∷ []) done).1 ≡ true
    → (follow library last (before ++ Action.start ∷ []) done).1
      ≡ turned (before ++ Action.start ∷ []) done
follow_started library last [] done h k started = ground arith
follow_started library last (a ∷ before) done h k started =
    let fine : is_start a ≡ false = ground arith in
    let later : has_start before ≡ false = ground arith in
    elim (Bool-cases (succeeds library done a)) [
      | inl e ↦
          rw e (follow_started library last before (a ∷ done) later (ground arith) (ground arith))
      | inr e ↦ absurd (ground arith)
    ]

opening_quiet :
    (library : Library) (last : Ending) (flags : Flags)
    → has_start (follow library last (opening flags) []).1 ≡ false
opening_quiet library last flags = ground arith

-- The plan before its last action.
abbrev before_start : Flags → Factory → List Action
before_start flags factory =
    opening flags
    ++ Action.set_up_cluster_stack (cluster_stack_reconciler flags factory)
      ∷ Action.set_up_node_image (node_image_reconciler flags)
      ∷ Action.add_healthz_check "healthz"
      ∷ Action.add_readyz_check "readyz"
      ∷ []

plan_started :
    (library : Library) (last : Ending) (flags : Flags) (factory : Factory)
    → has_start (follow library last (plan flags (some factory)) []).1 ≡ true
    → (follow library last (plan flags (some factory)) []).1 ≡ turned (plan flags (some factory)) []
plan_started library last flags factory started =
    follow_started library last (before_start flags factory) [] refl refl started

-- The assets client that a command line chooses: the fake one in local mode, and otherwise that of the
-- source, which is "oci" or "github".
pub data Chooses (flags : Flags) : Factory → Type 0 where
  in_local_mode : flags.local_mode ≡ true → Chooses flags fake
  from_oci : flags.local_mode ≡ false → flags.source ≡ "oci" → Chooses flags oci
  from_github : flags.local_mode ≡ false → flags.source ≡ "github" → Chooses flags github

choose_factory-Chooses :
    (flags : Flags) {factory : Factory}
    → choose_factory flags ≡ some factory
    → Chooses flags factory
unfolding choose_factory
choose_factory-Chooses flags {factory} chosen = elim (Bool-cases flags.local_mode) [
  | inl here ↦
      let same : fake ≡ factory = ground (arith, here) in
      subst (Chooses flags) same (in_local_mode here)
  | inr away ↦ elim (Bool-cases (flags.source =s "oci")) [
    | inl is_oci ↦
        let same : oci ≡ factory = ground (arith, away, is_oci) in
        subst (Chooses flags) same (from_oci away ((eq_iff flags.source "oci").0 is_oci))
    | inr not_oci ↦ elim (Bool-cases (flags.source =s "github")) [
      | inl is_github ↦
          let same : github ≡ factory = ground (arith, away, not_oci, is_github) in
          subst (Chooses flags) same (from_github away ((eq_iff flags.source "github").0 is_github))
      | inr neither ↦ absurd (ground (arith, away, not_oci, neither))
    ]
  ]
]

-- What has been done where the manager runs, the latest first.
abbrev pub all_done : Flags → Factory → List Action
all_done flags factory =
    Action.start
    ∷ Action.add_readyz_check "readyz"
    ∷ Action.add_healthz_check "healthz"
    ∷ Action.set_up_node_image (record { image_import_timeout = flags.image_import_timeout })
    ∷ Action.set_up_cluster_stack
        (record { release_directory = flags.release_dir; assets_client_factory = factory })
    ∷ Action.init_from_recorder "cspo-controller"
    ∷ Action.new_manager (record {
      metrics_bind_address = flags.metrics_addr;
      health_probe_bind_address = flags.probe_addr;
      leader_election = flags.enable_leader_election;
      leader_election_id = "openstack.provider.clusterstack.x-k8s.io";
      sync_period = 300000000000;
    })
    ∷ Action.get_config
    ∷ Action.add_api_to_scheme
    ∷ Action.add_core_to_scheme
    ∷ []

-- If the manager is started, then the command line is in local mode or names the source "oci" or
-- "github", the assets client is the one for that, and exactly this has been done before, each once
-- and in this order: the scheme, the manager with the metrics and probe addresses and the leader
-- election of the flags and a sync period of five minutes, the event recorder, the cluster stack
-- reconciler with the release directory of the flags and that assets client, the node image
-- reconciler with the import timeout of the flags, and the two checks.
pub main_started :
    (library : Library) (flags : Flags)
    → has_start (main library flags).1 ≡ true
    → (factory : Factory) × Chooses flags factory
      × ((main library flags).1 ≡ all_done flags factory)
main_started library flags started = go (choose_factory flags) refl
  where
    go :
        (chosen : Option Factory)
        → choose_factory flags ≡ chosen
        → (factory : Factory) × Chooses flags factory
          × ((main library flags).1 ≡ all_done flags factory)
    go none e =
        let same = ap (λ r. has_start r.1) (main_with library flags none e) in
        absurd (cc (started, same, opening_quiet library (code_after none) flags))
    go (some factory) e =
        let same = main_with library flags (some factory) e in
        let ran =
          plan_started library (code_after (some factory)) flags factory
            (sym (ap (λ r. has_start r.1) same) ∙ started) in
        (factory, choose_factory-Chooses flags e, ap (λ r. r.1) same ∙ ran)
