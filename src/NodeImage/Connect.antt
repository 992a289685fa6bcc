-- ===== src/NodeImage/Connect.antt =====
-- `Reconcile` up to the image's id (lines 103 to 195).
use cluster_stack_provider_o.Base.{String, true, Option, if◌then◌else◌}
use cluster_stack_provider_o.Api.{
  OpenStackNodeImageRelease, CreateOpts, Severity, node_image_release_object,
}
use cluster_stack_provider_o.Api.ConditionType
use cluster_stack_provider_o.Api.Reason
use cluster_stack_provider_o.Api.Constants.{minute}
use cluster_stack_provider_o.Runtime.Errors.{
  Error, Try, wrap, text, ok, err, empty, requeue_in, returns, fails,
}
use cluster_stack_provider_o.Runtime.Calls.{Address, Bytes, Cloud, Call}
use cluster_stack_provider_o.Runtime.Env.{Env}
use cluster_stack_provider_o.Runtime.Task
use cluster_stack_provider_o.Runtime.Body.{
  ◌>>=◌, ◌>>◌, Body, pure, return, deref, get, call, consult, mark_true, mark_false, warnf,
}
use cluster_stack_provider_o.NodeImage.Cloud.{get_cloud_from_secret, client_opts, tls_config}
use cluster_stack_provider_o.NodeImage.Glance.{get_image_id}

abbrev O : Type 0
O = OpenStackNodeImageRelease

module _ (env : Env) where
  -- Lines 106 to 115.
  secret_missing : Error → Body O (Cloud × Option Bytes)
  secret_missing e = do
    mark_false env ConditionType.cloud_available Reason.secret_not_found Severity.error (text e)
    warnf "SecretNotFound" (text e)
    return (returns (requeue_in minute))

  -- Lines 117 to 124.
  cloud_missing : Error → Body O (Cloud × Option Bytes)
  cloud_missing e = do
    mark_false env ConditionType.cloud_available Reason.cloud_not_set Severity.error (text e)
    warnf "CloudNotSet" (text e)
    return (fails (wrap "failed to get cloud from secret" e))

  keep_cloud : Try (Cloud × Option Bytes) → Body O (Cloud × Option Bytes)
  unfolding secret_missing cloud_missing
  keep_cloud (ok found) = do mark_true env ConditionType.cloud_available; pure found
  keep_cloud (err e) = if env.kube.is_not_found e then secret_missing e else cloud_missing e

  -- Lines 103 to 127.
  unfoldable pub load_cloud : Body O (Cloud × Option Bytes)
  unfolding keep_cloud
  load_cloud = do
    r ← get
    identity ← deref r.spec.identity_ref
    found ← call (get_cloud_from_secret env r.metadata.namespace identity.name)
    keep_cloud found

  -- Lines 160 to 166.
  keep_login : Try (Unit {0}) → Body O (Unit {0})
  keep_login (ok _) = pure tt
  keep_login (err e) = do warnf "OpenStackProviderClientNotSet" (text e); return (returns empty)

  -- Lines 168 to 182.
  keep_client : Try Address → Body O Address
  keep_client (ok client) = do
    mark_true env ConditionType.open_stack_image_service_client_available
    pure client
  keep_client (err e) = do
    mark_false env ConditionType.open_stack_image_service_client_available
        Reason.open_stack_image_service_client_not_set Severity.error (text e)
    warnf "OpenStackImageServiceClientNotSet" (text e)
    return (returns empty)

  -- Lines 129 to 182. The errors of `AuthOptions` and `NewClient` are dropped; the pointers that
  -- come with them are nil.
  unfoldable pub connect : Cloud → Option Bytes → Body O Address
  unfolding keep_login keep_client
  connect cloud ca_cert = do
    let wanted = client_opts cloud
    found ← consult (Call.auth_options wanted) (λ h. env.openstack.auth_options h wanted)
    opts ← deref found
    let reauth = record opts { allow_reauth = true }
    let config = tls_config env cloud ca_cert
    provider ← deref (env.openstack.new_client reauth.identity_endpoint)
    login ← call (
        Task.ask (Call.authenticate provider config reauth)
          (λ h. env.openstack.authenticate h provider config reauth))
    keep_login login
    client ← call (
        Task.ask (Call.new_image_client provider cloud.region_name)
          (λ h. env.openstack.new_image_client h provider cloud.region_name))
    keep_client client

  -- Lines 184 to 195.
  keep_image_id : Try String → Body O String
  keep_image_id (ok id) = pure id
  keep_image_id (err e) = do
    mark_false env ConditionType.open_stack_image_ready Reason.issue_with_open_stack_image
        Severity.error (text e)
    warnf "OpenStackImageFailedToFind" (text e)
    return (returns empty)

  unfoldable pub find_image : Address → CreateOpts → Body O String
  unfolding keep_image_id
  find_image client opts = do found ← call (get_image_id env client opts); keep_image_id found
