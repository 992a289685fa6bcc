-- ===== src/Examples/Converging.antt =====
-- A Glance that shows an imported image as active from the second look on, and a release that becomes
-- ready in it.
use cluster_stack_provider_o.Base.{
  ℕ, suc, ◌-◌, ◌≡◌, ◌≢◌, ◌⊎◌, inl, inr, refl, Bool, true, false, ◌||◌, Option, none, some, [], ◌∷◌,
  arith, leb, if◌then◌else◌, Bool-cases, ◌==◌, ◌=s◌, ◌&&◌,
}
use cluster_stack_provider_o.Base.Int.{pos}
use cluster_stack_provider_o.Runtime.Errors.{ok}
use cluster_stack_provider_o.Runtime.Calls.{
  Image, ImageStatus, active, queued, importing, Call, History,
}
use cluster_stack_provider_o.Runtime.Env.{Env}
use cluster_stack_provider_o.NodeImage.Verdict.{is_pending}
use cluster_stack_provider_o.NodeImage.Service.{to_list, IsServed, Glance}
use cluster_stack_provider_o.NodeImage.Turn.{HasSettled}
use cluster_stack_provider_o.NodeImage.Convergence.{follow-HasSettled}
use cluster_stack_provider_o.Runtime.Requeue.{follow}
use cluster_stack_provider_o.NodeImage.Reconcile.{reconcile as reconcile_node_image}
use cluster_stack_provider_o.Examples.Settings.{fresh}
use cluster_stack_provider_o.Examples.World.{
  world, secret, cloud, auth, opts, node_image, glance_image, node_image_release, req,
}
use cluster_stack_provider_o.Runtime.Later.{is_barred, Called, now, earlier}

abbrev is_creation : Call → Bool
is_creation (Call.create_image client wanted) = true
is_creation c = false

abbrev is_look : Call → Bool
is_look (Call.get_image client id) = true
is_look c = false

abbrev has_created : History → Bool
has_created [] = false
has_created (c ∷ h) = is_creation c || has_created h

abbrev looks : History → ℕ
looks [] = 0
looks (c ∷ h) = let rest = looks h in if is_look c then suc rest else rest

abbrev is_import : Call → Bool
is_import (Call.import_image client id uri) =
    (client == 2) && (id =s "f00") && (uri =s node_image.url)
is_import c = false

abbrev has_imported : History → Bool
has_imported [] = false
has_imported (c ∷ h) = is_import c || has_imported h

abbrev status_at : History → ImageStatus
status_at h = if has_imported h then (if leb 2 (looks h) then active else importing) else queued

abbrev held : History → Option Image
held h = if has_created h then some (glance_image (status_at h)) else none

abbrev changing : Env
changing = record (world fresh) {
  openstack = record ((world fresh).openstack) {
    extract_images = λ h pages. ok (to_list (held h));
    get_image = λ h client id. ok (glance_image (status_at h));
  };
}

served : IsServed changing req (node_image_release false [])
served = record {
  get = λ h. (_, refl);
  new_patch_helper = λ h name. refl;
  patch = λ h a b. refl;
  complete = record {
    identity = record { kind = "Secret"; name = "creds" };
    image = node_image;
    opts = opts;
    has_identity = refl;
    has_image = refl;
    has_opts = refl;
  };
  secret = secret;
  found = (cloud, some (9 ∷ []));
  auth = auth;
  provider = 1;
  client = 2;
  get_secret = λ h. refl;
  has_cloud = refl;
  auth_options = λ h. refl;
  new_client = refl;
  authenticate = λ h. refl;
  new_image_client = λ h. refl;
}

held-ne-none : (h : History) → has_created h ≡ true → held h ≢ none
held-ne-none h there e = ground arith

has_imported_lem :
    {h : History} → Called (Call.import_image 2 "f00" node_image.url) h → has_imported h ≡ true
has_imported_lem now = refl
has_imported_lem (earlier {h} {last} called) = ground (arith, has_imported_lem called)

is_barred-creation : (c : Call) → is_barred c ≡ false → is_creation c ≡ false
is_barred-creation c plain = ground arith

held_absent : (h : History) (c : Call) → is_barred c ≡ false → held h ≡ none → held (c ∷ h) ≡ none
held_absent h c plain none_yet = ground (arith, is_barred-creation c plain)

image_settles :
    (h : History) {image : Image}
    → held h ≡ some image
    → Called (Call.import_image 2 "f00" node_image.url) h
    → (image.status ≡ active) ⊎ ((is_pending image.status ≡ true) × (2 - looks h ≢ 0))
image_settles h e imported =
    let there = has_imported_lem imported in
    elim (Bool-cases (leb 2 (looks h))) [
      | inl seen ↦ inl (ground (arith, e, seen, there))
      | inr early ↦ inr (ground (arith, e, early, there), ground (arith, early))
    ]

glance : Glance changing 2 opts node_image.url
glance = record {
  held = held;
  left = λ h. 2 - looks h;
  id = "f00";
  named = λ e. cc;
  held_id = λ h e. ground arith;
  list = λ h. (3, refl, refl);
  get = λ h e. ground arith;
  create = λ h. (glance_image ImageStatus.queued, refl, refl);
  import_image = λ h id uri. refl;
  created = λ h e. cc;
  kept = λ h c there e. ground arith;
  absent = λ h c plain none_yet. held_absent h c plain none_yet;
  settles = λ h e imported. image_settles h e imported;
  left_never_grows = λ h c. ground arith;
  looked = λ h far. ground arith;
}

follow-HasSettled_example :
    let r = follow (reconcile_node_image changing (pos 0) req) 3 [] in
    HasSettled r × Called (Call.import_image 2 "f00" node_image.url) r.1
unfolding glance served
follow-HasSettled_example =
    follow-HasSettled changing req (node_image_release false []) served glance (pos 0) refl 3 []
      (λ there. absurd (there refl)) (omega arith)
