-- ===== src/Api/Plans/Handlers.antt =====
-- The handlers of hostingplans.go.
use kubecp.Http.{
  Exit, Response, no_body, reply, write_bad_request, write_conflict, write_json, write_not_found,
}
use kubecp.Common.Text.{contains, is_empty, trim_space}
use kubecp.Common.Exec.{Result, attempt, err, fail_if, ok, on_error, pure, ◌>>=◌, ◌>>◌}
use kubecp.Common.{Bool, Option, String, [], false, if◌then◌else◌, map, none, not, some, ◌<>◌, ◌∷◌}
use kubecp.Api.Plans.Quotas.{hard_of, has_no_range, quota_object, range_object}
use kubecp.Api.Plans.Data.{
  CreateHostingPlanRequest, HostingPlanLimits, PlanView, UpdateHostingPlanRequest, assigned_view,
  limits_of, named, new_plan, plan_response, plan_view, plans_view, refused_limits, updated_plan,
}
use kubecp.Api.Crd.Values.{Fields}
use kubecp.Http.{text}
use kubecp.Api.Websites.Objects.{has_entries}
use kubecp.Api.Crd.Owned.{Effect, Refusals, decode_body, get_error, internal}
use kubecp.Api.Crd.Client.{
  Api, Dynamic, LabelMap, Namespace, Resource, Unicode, Unstructured, core_v1, create_object,
  delete_object, get_namespace, get_object, hosting_plans, list_objects, put_label, spec_of,
  update_namespace, update_object,
}

-- `HostingPlanHandler`: whether it has a clientset
pub record PlanSettings : Type 0 where
  pub has_clientset : Bool

-- A plan belongs to no user, so nobody is denied one here.
abbrev pub no_plan : Refusals
no_plan = record {
  missing = "Hosting plan not found";
  failing = "Failed to get hosting plan: ";
  denied = "";
}

abbrev bad : String → Exit PlanView
bad message = reply (write_bad_request message none)

abbrev create_error : String → String → Exit PlanView
create_error name e =
    if contains e "already exists"
    then reply (write_conflict "Hosting plan already exists" (some (("name", text name) ∷ [])))
    else internal "Failed to create hosting plan: " e

abbrev namespace_error : String → String → Exit PlanView
namespace_error namespace e =
    if contains e "not found"
    then reply (write_not_found ("User namespace not found: " <> namespace))
    else internal "Failed to label namespace: " e

abbrev pub or_no_labels : Option LabelMap → LabelMap
or_no_labels none = []
or_no_labels (some m) = m

unfoldable pub labelled : Namespace → String → Namespace
labelled n plan = record n {
  labels = some (put_label "hosting.panel/plan" plan (or_no_labels n.labels));
}

abbrev refused_update : Option HostingPlanLimits → Bool
refused_update none = false
refused_update (some l) = refused_limits l

-- `fmt.Sprintf("hosting-user-%s", username)`
abbrev pub namespace_of : String → String
namespace_of username = "hosting-user-" <> username

module _ (d : Dynamic) where
  abbrev require_clientset : PlanSettings → Api d (Unit {0})
  require_clientset h = fail_if (not h.has_clientset) "kubernetes clientset not available"

  unfoldable pub label_namespace_with_plan : PlanSettings → String → String → Api d (Unit {0})
  label_namespace_with_plan h namespace plan = do
    require_clientset h
    n ← get_namespace d namespace
    update_namespace d (labelled n plan)

  -- A creation where the object could not be read, and else an update of it.
  unfoldable pub write_object :
      Resource → String → Unstructured → Result String Unstructured → Api d (Unit {0})
  write_object r namespace o (err e) = do created ← create_object d r (some namespace) o; pure tt
  write_object r namespace o (ok existing) = do
    updated ←
        update_object d r (some namespace)
          (record o { resource_version = existing.resource_version })
    pure tt

  unfoldable pub put_object : Resource → String → Unstructured → Api d (Unit {0})
  put_object r namespace o = do
    existing ← attempt (get_object d r (some namespace) o.name)
    write_object r namespace o existing

  unfoldable pub apply_resource_quota :
      PlanSettings → String → String → Option Fields → Api d (Unit {0})
  apply_resource_quota h namespace plan limits = do
    require_clientset h
    if has_entries (hard_of limits)
        then put_object (core_v1 "resourcequotas") namespace (quota_object namespace plan limits)
        else pure tt

  unfoldable pub apply_limit_range :
      PlanSettings → String → String → Option Fields → Api d (Unit {0})
  apply_limit_range h namespace plan limits = do
    require_clientset h
    if has_no_range limits
        then pure tt
        else put_object (core_v1 "limitranges") namespace (range_object namespace plan limits)

  abbrev Reply : Type 0
  Reply = Effect d PlanView (Response PlanView)

  abbrev pub load_plan : String → Effect d PlanView Unstructured
  load_plan id = on_error (get_error no_plan) (get_object d hosting_plans none id)

  unfoldable pub list_hosting_plans : Reply
  list_hosting_plans = do
    l ← on_error (internal "Failed to list hosting plans: ") (list_objects d hosting_plans none "")
    pure (write_json 200 (plans_view (map plan_response l)))

  unfoldable pub create_hosting_plan : Unicode → Option CreateHostingPlanRequest → Reply
  create_hosting_plan u body = do
    asked ← decode_body d PlanView body
    let req = named u.lower asked
    fail_if (is_empty req.display_name) (bad "Display name is required")
    fail_if (is_empty req.name) (bad "Plan name is required")
    fail_if (refused_limits req.limits) (bad "Limits must be non-negative")
    created ← on_error (create_error req.name) (create_object d hosting_plans none (new_plan req))
    pure (write_json 201 (plan_view (plan_response created)))

  unfoldable pub get_hosting_plan : String → Reply
  get_hosting_plan id = do o ← load_plan id; pure (write_json 200 (plan_view (plan_response o)))

  unfoldable pub update_hosting_plan : String → Option UpdateHostingPlanRequest → Reply
  update_hosting_plan id body = do
    existing ← load_plan id
    req ← decode_body d PlanView body
    fail_if (refused_update req.limits) (bad "Limits must be non-negative")
    updated ←
        on_error (internal "Failed to update hosting plan: ")
          (update_object d hosting_plans none (updated_plan req existing))
    pure (write_json 200 (plan_view (plan_response updated)))

  unfoldable pub delete_hosting_plan : String → Reply
  delete_hosting_plan id = do
    load_plan id
    on_error (internal "Failed to delete hosting plan: ") (delete_object d hosting_plans none id)
    pure (record { status = 204; body = no_body })

  unfoldable pub assign_plan : PlanSettings → String → Option String → Reply
  assign_plan h id body = do
    asked ← decode_body d PlanView body
    let username = trim_space asked
    fail_if (is_empty username) (bad "Username is required")
    plan ← load_plan id
    let namespace = namespace_of username
    on_error (namespace_error namespace) (label_namespace_with_plan h namespace id)
    let limits = limits_of (spec_of plan)
    on_error (internal "Failed to apply ResourceQuota: ")
        (apply_resource_quota h namespace id limits)
    on_error (internal "Failed to apply LimitRange: ") (apply_limit_range h namespace id limits)
    pure (write_json 200 (assigned_view id namespace))
