-- ===== src/NodeImage/Cloud.antt =====
-- `getCloudFromSecret`, and the settings that `Reconcile` derives from a cloud (lines 129 to 158).
use cluster_stack_provider_o.Base.{
  String, ◌<>◌, false, not, Option, none, some, lookup, if◌then◌else◌,
}
use cluster_stack_provider_o.Api.{NamespacedName}
use cluster_stack_provider_o.Api.Constants.{
  default_cloud_name, cloud_name_secret_key, clouds_secret_key, ca_secret_key,
}
use cluster_stack_provider_o.Runtime.Errors.{plain, ok, wrapped}
use cluster_stack_provider_o.Runtime.Calls.{Bytes, Secret, Cloud, ClientOpts, TlsConfig, Call}
use cluster_stack_provider_o.Runtime.Env.{Env}
use cluster_stack_provider_o.Runtime.Task
use cluster_stack_provider_o.Runtime.Task.{◌>>=◌, Task}

-- The settings of the cloud, which are left out where it has no `auth`.
unfoldable pub client_opts : Cloud → ClientOpts
client_opts cloud = elim (cloud.auth_info) [
  | none ↦ record { auth_info = none; auth_type = ""; region_name = ""; endpoint_type = "" }
  | some auth ↦ record {
    auth_info = some auth;
    auth_type = cloud.auth_type;
    region_name = cloud.region_name;
    endpoint_type = cloud.endpoint_type;
  }
]

module _ (env : Env) where
  -- `default_cloud_name`, or what the key `cloudName` holds.
  unfoldable pub cloud_name_of : Secret → String → Task String
  cloud_name_of secret secret_name = elim (lookup cloud_name_secret_key secret) [
    | none ↦ Task.lift (ok default_cloud_name)
    | some content ↦ Task.lift (
        wrapped ("failed to unmarshal cloudName stored in secret " <> secret_name)
          (env.yaml.unmarshal_text content))
  ]

  unfoldable pub get_cloud_from_secret : String → String → Task (Cloud × Option Bytes)
  unfolding cloud_name_of
  get_cloud_from_secret namespace name = do
    let key : NamespacedName = record { namespace = namespace; name = name }
    secret ←
        Task.wrapping ("failed to get secret " <> (name <> (" in namespace " <> namespace)))
          (Task.ask (Call.get_secret key) (λ h. env.kube.get_secret h key))
    cloud_name ← cloud_name_of secret name
    content ← Task.or_fail (lookup clouds_secret_key secret) (
        plain (
          "OpenStack credentials secret "
          <> (name <> (" did not contain key " <> clouds_secret_key))))
    clouds ← Task.lift (
        wrapped ("failed to unmarshal clouds credentials stored in secret " <> name)
          (env.yaml.unmarshal_clouds content))
    cloud ←
        Task.or_fail (lookup cloud_name clouds)
          (plain ("failed to find cloud " <> (cloud_name <> (" in " <> clouds_secret_key))))
    Task.lift (ok (cloud, lookup ca_secret_key secret))

  -- `cloud.Verify` turned round, and the certificates, if one of them can be read.
  unfoldable pub tls_config : Cloud → Option Bytes → TlsConfig
  tls_config cloud ca_cert = record {
    insecure_skip_verify = elim (cloud.verify) [ none ↦ false | some v ↦ not v ];
    root_cas = elim ca_cert [
      | none ↦ none
      | some pem ↦ if env.openstack.append_certs_from_pem pem then some pem else none
    ];
  }
