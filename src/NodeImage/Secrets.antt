-- ===== src/NodeImage/Secrets.antt =====
-- The cloud of the secret: what `getCloudFromSecret` finds, and how `Reconcile` ends without it.
use cluster_stack_provider_o.Base.{
  String, ◌≡◌, refl, Option, some, none, false, ◌∷◌, [], arith, lookup, if◌then◌else◌, Bool,
}
use cluster_stack_provider_o.Base.Int.{ℤ}
use cluster_stack_provider_o.Api.{
  NamespacedName, OpenStackIdentityReference, OpenStackNodeImageRelease,
}
use cluster_stack_provider_o.Api.Constants.{
  minute, default_cloud_name, cloud_name_secret_key, clouds_secret_key, ca_secret_key,
}
use cluster_stack_provider_o.Runtime.Errors.{
  Error, wrap, plain, text, Try, ok, err, requeue_in, returns, fails,
}
use cluster_stack_provider_o.Runtime.Calls.{Bytes, Secret, Cloud, Call, History}
use cluster_stack_provider_o.Runtime.Env.{Env}
use cluster_stack_provider_o.Runtime.Body.{Session, outcome_of}
use cluster_stack_provider_o.NodeImage.Cloud.{get_cloud_from_secret}
use cluster_stack_provider_o.NodeImage.Connect.{load_cloud}
use cluster_stack_provider_o.NodeImage.Reconcile.{reconcile_body}

abbrev O : Type 0
O = OpenStackNodeImageRelease

abbrev pub key_of : String → String → NamespacedName
key_of namespace name = record { namespace = namespace; name = name }

infixl 5 ◌>>=◌
abbrev ◌>>=◌ {ℓ κ} : {A : Type ℓ} {B : Type κ} → Option A → (A → Option B) → Option B
none >>= f = none
some a >>= f = f a

abbrev pub to_option : {A : Type 0} → Try A → Option A
to_option (ok a) = some a
to_option (err e) = none

module _ (env : Env) where
  -- The name of the cloud in a secret: "openstack" unless the key `cloudName` says otherwise.
  abbrev name_in : Secret → Option String
  name_in secret = elim (lookup cloud_name_secret_key secret) [
    | none ↦ some default_cloud_name
    | some content ↦ to_option (env.yaml.unmarshal_text content)
  ]

  -- The cloud of that name in the key `clouds.yaml`, with the key `cacert`.
  abbrev pub cloud_in : Secret → Option (Cloud × Option Bytes)
  cloud_in secret = do
    name ← name_in secret
    content ← lookup clouds_secret_key secret
    clouds ← to_option (env.yaml.unmarshal_clouds content)
    cloud ← lookup name clouds
    some (cloud, lookup ca_secret_key secret)

  -- One call is made, whatever comes of it.
  pub get_cloud_from_secret-history :
      (namespace name : String) (h : History)
      → (get_cloud_from_secret env namespace name h).1 ≡ Call.get_secret (key_of namespace name) ∷ h
  unfolding get_cloud_from_secret
  get_cloud_from_secret-history namespace name h = ground arith

  -- From a secret that is there, `getCloudFromSecret` returns a cloud exactly if the secret holds
  -- one under the name that it gives, or else under "openstack", and then that cloud with the
  -- certificate of the secret, if it has one.
  pub get_cloud_from_secret-cloud_in :
      (namespace name : String) (h : History) {secret : Secret}
      → env.kube.get_secret h (key_of namespace name) ≡ ok secret
      → to_option (get_cloud_from_secret env namespace name h).0 ≡ cloud_in secret
  unfolding get_cloud_from_secret
  get_cloud_from_secret-cloud_in namespace name h got = ground arith

-- What is relied on: `apierrors.IsNotFound` sees through `%w`, and no other error that a secret's
-- content gives rise to is a NotFound.
pub record TellsNotFound (env : Env) : Type 0 where
  pub wrapped :
      (s : String) (e : Error) → env.kube.is_not_found (wrap s e) ≡ env.kube.is_not_found e
  pub plain_error : (s : String) → env.kube.is_not_found (plain s) ≡ false
  pub yaml_text :
      (b : Bytes) (e : Error) → env.yaml.unmarshal_text b ≡ err e → env.kube.is_not_found e ≡ false
  pub yaml_clouds :
      (b : Bytes) (e : Error)
      → env.yaml.unmarshal_clouds b ≡ err e
      → env.kube.is_not_found e ≡ false

module _ (env : Env) (laws : TellsNotFound env) where
  -- The API server says that there is no such secret.
  abbrev pub is_missing : Try Secret → Bool
  is_missing (ok secret) = false
  is_missing (err e) = env.kube.is_not_found e

  secret_content_error :
      (namespace name : String) (h : History) {secret : Secret} {e : Error}
      → env.kube.get_secret h (key_of namespace name) ≡ ok secret
      → (get_cloud_from_secret env namespace name h).0 ≡ err e
      → env.kube.is_not_found e ≡ false
  unfolding get_cloud_from_secret
  secret_content_error namespace name h got e =
      grind (arith, laws.wrapped, laws.plain_error, laws.yaml_text, laws.yaml_clouds)

  secret_error :
      (namespace name : String) (h : History) {e e' : Error}
      → env.kube.get_secret h (key_of namespace name) ≡ err e'
      → (get_cloud_from_secret env namespace name h).0 ≡ err e
      → env.kube.is_not_found e ≡ env.kube.is_not_found e'
  unfolding get_cloud_from_secret
  secret_error namespace name h got e = grind (arith, laws.wrapped)

  error_kind :
      (namespace name : String) (h : History) {e : Error}
      → (get_cloud_from_secret env namespace name h).0 ≡ err e
      → env.kube.is_not_found e ≡ is_missing (env.kube.get_secret h (key_of namespace name))
  error_kind namespace name h {e} failed = go (env.kube.get_secret h (key_of namespace name)) refl
    where
      go :
          (t : Try Secret)
          → env.kube.get_secret h (key_of namespace name) ≡ t
          → env.kube.is_not_found e ≡ is_missing t
      go (ok secret) got = secret_content_error namespace name h got failed
      go (err e') got = secret_error namespace name h got failed

  -- If the release has an identity, but no cloud is found for it, and the errors of the secret's
  -- content are told from a NotFound, then the body of `Reconcile` makes one call, for the secret,
  -- and records one warning. It looks again in a minute, with no error, if it is the secret that is
  -- missing; otherwise it returns the error, wrapped. The readiness stays as it was.
  pub reconcile_without_cloud :
      (minutes : ℤ) (s : Session O) {identity : OpenStackIdentityReference} {e : Error}
      → s.object.spec.identity_ref ≡ some identity
      → (get_cloud_from_secret env s.object.metadata.namespace identity.name s.history).0 ≡ err e
      → let (flow, s') = reconcile_body env minutes s in
        let secret =
          env.kube.get_secret s.history (key_of s.object.metadata.namespace identity.name) in
        (outcome_of flow
          ≡ some (
              if is_missing secret
              then returns (requeue_in minute)
              else fails (wrap "failed to get cloud from secret" e)))
        × (s'.history
            ≡ Call.warning s.object.metadata.name
                (if is_missing secret then "SecretNotFound" else "CloudNotSet")
                (text e)
                []
              ∷ Call.get_secret (key_of s.object.metadata.namespace identity.name)
              ∷ s.history)
        × (s'.object.status.ready ≡ s.object.status.ready)
  unfolding reconcile_body load_cloud
  reconcile_without_cloud minutes s {identity} {e} known failed =
      let namespace = s.object.metadata.namespace in
      ground (
        arith,
        error_kind namespace identity.name s.history failed,
        get_cloud_from_secret-history env namespace identity.name s.history,
      )
