-- ===== src/Api/Plans/Data.antt =====
-- The requests, responses and objects of hostingplans.go.
use kubecp.Api.Crd.Values
use kubecp.Common.Text.{is_empty, trim_space}
use kubecp.Common.{
  Bool, Char, List, Option, String, if◌then◌else◌, lt_int, none, pos, some, ℤ, ◌||◌,
}
use kubecp.Api.Plans.Slug.{slug}
use kubecp.Api.Crd.Values.{
  Fields, Values, as_map, as_text, entry, get, int64, int_or_zero, no_fields, object, or_empty, put,
}
use kubecp.Api.Crd.Client.{Unstructured, spec_of}

pub record HostingPlanLimits : Type 0 where
  pub websites : ℤ
  pub databases : ℤ
  pub email_accounts : ℤ
  pub storage_gb : ℤ
  pub cpu_millicores : ℤ
  pub memory_mb : ℤ

pub record CreateHostingPlanRequest : Type 0 where
  pub name : String
  pub display_name : String
  pub limits : HostingPlanLimits

pub record UpdateHostingPlanRequest : Type 0 where
  pub display_name : String
  pub limits : Option HostingPlanLimits

pub record HostingPlanResponse : Type 0 where
  pub name : String
  pub display_name : String
  pub limits : HostingPlanLimits
  pub created_at : String

pub data PlanView : Type 0 where
  plan_view : HostingPlanResponse → PlanView
  plans_view : List HostingPlanResponse → PlanView
  assigned_view : String → String → PlanView

-- `getInt64FromMap`
unfoldable pub get_int64 : Option Fields → String → ℤ
get_int64 none key = pos 0
get_int64 (some m) key = int_or_zero (get key m)

-- The limits as a map of int64.
abbrev pub limits_fields : HostingPlanLimits → Fields
limits_fields l = entry "websites" (int64 l.websites) (
    entry "databases" (int64 l.databases) (
      entry "emailAccounts" (int64 l.email_accounts) (
        entry "storageGB" (int64 l.storage_gb) (
          entry "cpuMillicores" (int64 l.cpu_millicores)
            (entry "memoryMB" (int64 l.memory_mb) no_fields)))))

-- `hostingPlanRequestToUnstructured`
unfoldable pub new_plan : CreateHostingPlanRequest → Unstructured
new_plan req = record {
  api_version = "hosting.hosting.panel/v1alpha1";
  kind = "HostingPlan";
  name = req.name;
  namespace = "";
  labels = none;
  annotations = none;
  created = "";
  resource_version = "";
  spec = object (
      entry "displayName" (Values.text req.display_name)
        (entry "limits" (object (limits_fields req.limits)) no_fields));
  status = Values.nil;
}

abbrev limits_in : Option Fields → HostingPlanLimits
limits_in m = record {
  websites = get_int64 m "websites";
  databases = get_int64 m "databases";
  email_accounts = get_int64 m "emailAccounts";
  storage_gb = get_int64 m "storageGB";
  cpu_millicores = get_int64 m "cpuMillicores";
  memory_mb = get_int64 m "memoryMB";
}

abbrev name_in : Option Fields → String
name_in none = ""
name_in (some spec) = as_text (get "displayName" spec)

-- `limits, _ := spec["limits"].(map[string]interface{})`
abbrev pub limits_of : Option Fields → Option Fields
limits_of none = none
limits_of (some spec) = as_map (get "limits" spec)

-- `unstructuredToHostingPlanResponse`
unfoldable pub plan_response : Unstructured → HostingPlanResponse
plan_response o = record {
  name = o.name;
  display_name = name_in (spec_of o);
  limits = limits_in (limits_of (spec_of o));
  created_at = o.created;
}

abbrev pub put_limits : Option HostingPlanLimits → Fields → Fields
put_limits none m = m
put_limits (some l) m = put "limits" (object (limits_fields l)) m

abbrev pub put_name : String → Fields → Fields
put_name s m = if is_empty s then m else put "displayName" (Values.text s) m

unfoldable pub updated_plan : UpdateHostingPlanRequest → Unstructured → Unstructured
updated_plan req o = record o {
  spec = object (put_limits req.limits (put_name req.display_name (or_empty (spec_of o))));
}

abbrev is_negative : ℤ → Bool
is_negative n = lt_int n (pos 0)

-- The test of the limits of a request.
abbrev pub refused_limits : HostingPlanLimits → Bool
refused_limits l = is_negative l.websites || is_negative l.databases || is_negative l.email_accounts

-- The trimmed request, with a name made of the display name where it has none.
unfoldable pub named : (Char → Char) → CreateHostingPlanRequest → CreateHostingPlanRequest
named lower req =
    let shown = trim_space req.display_name in
    let name = trim_space req.name in
    record req { name = if is_empty name then slug lower shown else name; display_name = shown }
