-- ===== src/Examples/Manager.antt =====
-- Starts of the manager, and the theorems about them.
use cluster_stack_provider_o.Base.{◌≡◌, refl, true, false, [], ◌∷◌}
use cluster_stack_provider_o.Manager.Flags.{Flags, default_flags}
use cluster_stack_provider_o.Manager.Startup.{Factory, Action, Library, exited}
use cluster_stack_provider_o.Manager.Main.{
  choose_factory, init, make_manager, set_up, serve, main, manager_options,
}
use cluster_stack_provider_o.Manager.Plan.{plan, code_after, follow, main-follow}
use cluster_stack_provider_o.Manager.Started.{Chooses, all_done, main_started}

-- All goes well.
abbrev willing : Library
willing done a = true

-- The readiness check cannot be added.
abbrev without_readyz : Library
without_readyz done (Action.add_readyz_check name) = false
without_readyz done _ = true

abbrev local_flags : Flags
local_flags = record default_flags { local_mode = true; source = "nowhere" }

abbrev stray_flags : Flags
stray_flags = record default_flags { source = "nowhere" }

-- A source that is not allowed ends the process after the manager was made.
stray_run : main willing stray_flags ≡ (
  exited 1,
  Action.init_from_recorder "cspo-controller"
      ∷ Action.new_manager (manager_options stray_flags)
      ∷ Action.get_config
      ∷ Action.add_api_to_scheme
      ∷ Action.add_core_to_scheme
      ∷ [],
)
unfolding main init make_manager set_up serve choose_factory
stray_run = refl

main-follow_example :
    let chosen = choose_factory default_flags in
    main without_readyz default_flags
    ≡ follow without_readyz (code_after chosen) (plan default_flags chosen) []
main-follow_example = main-follow without_readyz default_flags

main_started_example :
    (factory : Factory) × Chooses local_flags factory
    × ((main willing local_flags).1 ≡ all_done local_flags factory)
unfolding main init make_manager set_up serve choose_factory
main_started_example = main_started willing local_flags refl
