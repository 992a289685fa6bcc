-- ===== src/Manager/Plan.antt =====
-- What the start of the process comes to: a plan that is followed up to the first failure.
use cluster_stack_provider_o.Base.{
  ◌≡◌, refl, Bool, true, List, [], ◌∷◌, ◌++◌, Option, none, some, arith, if◌then◌else◌,
}
use cluster_stack_provider_o.Manager.Flags.{Flags}
use cluster_stack_provider_o.Manager.Startup.{Factory, Action, Library, Ending, exited, panicked}
use cluster_stack_provider_o.Manager.Main.{
  choose_factory, manager_options, cluster_stack_reconciler, node_image_reconciler, init,
  make_manager, set_up, serve, main,
}

-- The actions before the assets clients are chosen, the first first.
abbrev pub opening : Flags → List Action
opening flags =
    Action.add_core_to_scheme
    ∷ Action.add_api_to_scheme
    ∷ Action.get_config
    ∷ Action.new_manager (manager_options flags)
    ∷ Action.init_from_recorder "cspo-controller"
    ∷ []

-- The actions after that.
abbrev pub serving : Flags → Factory → List Action
serving flags factory =
    Action.set_up_cluster_stack (cluster_stack_reconciler flags factory)
    ∷ Action.set_up_node_image (node_image_reconciler flags)
    ∷ Action.add_healthz_check "healthz"
    ∷ Action.add_readyz_check "readyz"
    ∷ Action.start
    ∷ []

-- All actions, and the code at their end; without a factory that is 1.
abbrev pub plan : Flags → Option Factory → List Action
plan flags none = opening flags
plan flags (some factory) = opening flags ++ serving flags factory

abbrev pub code_after : Option Factory → Ending
code_after none = exited 1
code_after (some factory) = exited 0

-- How the process ends where an action fails.
abbrev pub failure : Action → Ending
failure Action.add_core_to_scheme = panicked
failure Action.add_api_to_scheme = panicked
failure _ = exited 1

abbrev pub succeeds : Library → List Action → Action → Bool
succeeds library done (Action.init_from_recorder name) = true
succeeds library done a = library done a

abbrev pub follow : Library → Ending → List Action → List Action → Ending × List Action
follow library last [] done = (last, done)
follow library last (a ∷ plan) done =
    let rest = follow library last plan (a ∷ done) in
    if succeeds library done a then rest else (failure a, a ∷ done)

-- The same, for what is chosen.
pub main_with :
    (library : Library) (flags : Flags) (chosen : Option Factory)
    → choose_factory flags ≡ chosen
    → main library flags ≡ follow library (code_after chosen) (plan flags chosen) []
unfolding main init make_manager set_up serve
main_with library flags none e = ground arith
main_with library flags (some factory) e = ground arith

-- The process does the actions of its plan in their order, up to the first that fails, and no other:
-- it panics where the scheme cannot be built, ends with code 1 where any other action fails or
-- the source is not allowed, and with code 0 otherwise.
pub main-follow :
    (library : Library) (flags : Flags)
    → let chosen = choose_factory flags in
      main library flags ≡ follow library (code_after chosen) (plan flags chosen) []
main-follow library flags = main_with library flags (choose_factory flags) refl
