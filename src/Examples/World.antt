-- ===== src/Examples/World.antt =====
-- A world to run the controllers in: libraries that answer by simple rules, and some resources.
use cluster_stack_provider_o.Base.{
  ℕ, String, ◌≡◌, ◌≢◌, ◌<>◌, Bool, true, false, Option, none, some, List, [], ◌∷◌, ◌=s◌, length,
  if◌then◌else◌,
}
use cluster_stack_provider_o.Base.Int.{pos}
use cluster_stack_provider_o.Api.{
  Condition, Conditions, Severity, NamespacedName, CreateOpts, OpenStackNodeImage,
  OpenStackNodeImageRelease, OpenStackClusterStackRelease, OwnerReference, TypeMeta,
}
use cluster_stack_provider_o.Runtime.Errors.{Error, external, wrap, plain, Try, ok}
use cluster_stack_provider_o.Runtime.Calls.{Secret, Cloud, AuthOptions, Image, ImageStatus}
use cluster_stack_provider_o.Runtime.Env.{ConditionsLib, Env}
use cluster_stack_provider_o.ClusterStack.Owner.{group_version}

abbrev pub tells_not_found : Error → Bool
tells_not_found (external s) = s =s "not found"
tells_not_found (wrap s e) = tells_not_found e
tells_not_found (plain s) = false

abbrev pub find_condition : String → Conditions → Option Condition
find_condition t [] = none
find_condition t (c ∷ cs) = let rest = find_condition t cs in if c.type =s t then some c else rest

abbrev status_of : Option Condition → Bool
status_of none = false
status_of (some c) = c.status

abbrev time_of : Option Condition → Option ℕ
time_of none = none
time_of (some c) = some c.last_transition_time

time_of-ne-none : (c : Option Condition) → status_of c ≡ true → time_of c ≢ none
time_of-ne-none none h k = cc
time_of-ne-none (some c) h k = cc

-- The newest condition of a type comes first; the clock counts the calls.
abbrev pub conditions : ConditionsLib
conditions = record {
  mark_true = λ h t cs.
      record {
        type = t;
        status = true;
        severity = Severity.unset;
        reason = "";
        message = "";
        last_transition_time = length h;
      }
      ∷ cs;
  mark_false = λ h t reason severity message cs.
      record {
        type = t;
        status = false;
        severity = severity;
        reason = reason;
        message = message;
        last_transition_time = length h;
      }
      ∷ cs;
  set_summary = λ h cs. cs;
  is_true = λ t cs. status_of (find_condition t cs);
  get_last_transition_time = λ t cs. time_of (find_condition t cs);
}

abbrev pub cloud : Cloud
cloud = record {
  auth_info = some 7;
  auth_type = "v3applicationcredential";
  region_name = "RegionOne";
  endpoint_type = "public";
  verify = some true;
}

abbrev pub auth : AuthOptions
auth = record { identity_endpoint = "https://keystone"; allow_reauth = false; others = 7 }

abbrev pub secret : Secret
secret = ("cacert", 9 ∷ []) ∷ ("clouds.yaml", 5 ∷ []) ∷ []

abbrev pub opts : CreateOpts
opts = record {
  name = "ubuntu";
  id = "";
  visibility = none;
  hidden = none;
  tags = "v1" ∷ [];
  container_format = "bare";
  disk_format = "qcow2";
  min_disk = pos 20;
  min_ram = pos 2048;
  protected = none;
  properties = [];
}

abbrev pub node_image : OpenStackNodeImage
node_image = record { url = "https://images/ubuntu.qcow2"; create_opts = some opts }

abbrev pub type_meta : String → TypeMeta
type_meta kind = record { kind = kind; api_version = group_version }

abbrev pub cluster_stack : OpenStackClusterStackRelease
cluster_stack = record {
  type_meta = type_meta "OpenStackClusterStackRelease";
  metadata = record {
    name = "openstack-ferrol-1-27-v1";
    namespace = "cluster";
    uid = "11";
    owner_references = [];
  };
  spec = record { identity_ref = some (record { kind = "Secret"; name = "creds" }) };
  status = record { ready = false; conditions = [] };
}

abbrev pub owner : OwnerReference
owner = record {
  api_version = group_version;
  kind = "OpenStackClusterStackRelease";
  name = "openstack-ferrol-1-27-v1";
  uid = "11";
}

-- A node image release of the cluster stack, or of nobody.
abbrev pub node_image_release : Bool → List OwnerReference → OpenStackNodeImageRelease
node_image_release ready owners = record {
  type_meta = type_meta "OpenStackNodeImageRelease";
  metadata = record {
    name = "openstack-ferrol-1-27-ubuntu-v1";
    namespace = "cluster";
    uid = "12";
    owner_references = owners;
  };
  spec = record {
    identity_ref = some (record { kind = "Secret"; name = "creds" });
    image = some node_image;
  };
  status = record { ready = ready; conditions = [] };
}

abbrev pub glance_image : ImageStatus → Image
glance_image status = record { id = "f00"; name = "ubuntu"; status = status }

abbrev pub req : NamespacedName
req = record { namespace = "cluster"; name = "any" }

-- What differs from one run to another.
pub record Setting : Type 0 where
  pub secret_answer : Try Secret
  pub auth_answer : Option AuthOptions
  pub listed_images : List Image
  pub image_status : ImageStatus
  -- the assets are still to be downloaded
  pub download : Bool
  pub node_image_releases : List OpenStackNodeImageRelease

abbrev pub world : Setting → Env
world setting = record {
  kube = record {
    get_node_image_release = λ h key. ok (node_image_release false []);
    get_cluster_stack_release = λ h key. ok cluster_stack;
    get_secret = λ h key. setting.secret_answer;
    create_node_image_release = λ h n. ok tt;
    update_node_image_release = λ h n. ok tt;
    list_node_image_releases = λ h namespace. ok setting.node_image_releases;
    new_patch_helper = λ h name. ok tt;
    patch_node_image_release = λ h before after. ok tt;
    patch_cluster_stack_release = λ h before after. ok tt;
    is_not_found = tells_not_found;
    ensure_owner_ref = λ refs a. a ∷ refs;
    parse_group =
        λ s. if s =s group_version then some "infrastructure.clusterstack.x-k8s.io" else none;
    kind_group = λ t. "infrastructure.clusterstack.x-k8s.io";
  };
  conditions = conditions;
  yaml = record {
    unmarshal_text = λ bytes. ok "openstack";
    unmarshal_clouds = λ bytes. ok (("openstack", cloud) ∷ []);
    unmarshal_node_images = λ bytes. ok (some node_image ∷ []);
  };
  openstack = record {
    auth_options = λ h wanted. setting.auth_answer;
    new_client = λ endpoint. some 1;
    append_certs_from_pem = λ bytes. true;
    authenticate = λ h provider config wanted. ok tt;
    new_image_client = λ h provider region. ok 2;
    all_pages = λ h client wanted. ok 3;
    extract_images = λ h pages. ok setting.listed_images;
    create_image = λ h client wanted. ok (glance_image ImageStatus.queued);
    import_image = λ h client id uri. ok tt;
    get_image = λ h client id. ok (glance_image setting.image_status);
  };
  assets = record {
    new_release = λ h tag directory.
        ok
          (record { local_download_path = directory; node_image_version = "v1" }, setting.download);
    new_assets_client = λ h. ok 4;
    download_release_assets = λ h client tag path. ok tt;
    remove_all = λ h path. ok tt;
    read_file = λ h path. ok [];
    join_path = λ a b. a <> ("/" <> b);
  };
  now = λ h. length h;
}

pub transition :
    (setting : Setting) (t : String) (cs : Conditions)
    → (world setting).conditions.is_true t cs ≡ true
    → (world setting).conditions.get_last_transition_time t cs ≢ none
transition setting t cs = time_of-ne-none (find_condition t cs)
