-- ===== src/Manager/Flags.antt =====
-- Lines 55 to 77: the flags of the command line, as the package `flag` leaves them.
use cluster_stack_provider_o.Base.{String, Bool, false}
use cluster_stack_provider_o.Base.Int.{ℤ, pos}

pub record Flags : Type 0 where
  pub release_dir : String
  pub image_import_timeout : ℤ
  pub local_mode : Bool
  pub source : String
  pub metrics_addr : String
  pub enable_leader_election : Bool
  pub probe_addr : String

-- What they are where the command line does not set them.
abbrev pub default_flags : Flags
default_flags = record {
  metrics_addr = ":8080";
  probe_addr = ":8081";
  enable_leader_election = false;
  release_dir = "/tmp/downloads/";
  image_import_timeout = pos 0;
  local_mode = false;
  source = "github";
}
