-- ===== src/Api/Plans/Quotas.antt =====
-- The objects that hostingplans.go puts into a user's namespace.
pub mod Laws
use kubecp.Api.Crd.Values
use kubecp.Api.Websites.Objects.{fields_of}
use kubecp.Common.Text.{show_int}
use kubecp.Common.{
  Bool, List, Option, String, [], div_int, if◌then◌else◌, le_int, lt_int, none, pos, some, ℕ, ℤ,
  ◌&&◌, ◌++◌, ◌<>◌, ◌∷◌,
}
use kubecp.Api.Plans.Data.{get_int64}
use kubecp.Api.Crd.Values.{Fields, Values, entry, no_fields, no_values, object, slice, value}
use kubecp.Api.Crd.Client.{Unstructured}

-- An entry of a map that is there where the number is positive.
abbrev pub if_positive : ℤ → List (String × String) → List (String × String)
if_positive n l = if lt_int (pos 0) n then l else []

abbrev pub gib : ℤ → String
gib n = show_int n <> "Gi"

abbrev pub milli : ℤ → String
milli n = show_int n <> "m"

abbrev pub mib : ℤ → String
mib n = show_int n <> "Mi"

-- The map `hard`
unfoldable pub hard_of : Option Fields → List (String × String)
hard_of limits =
    let storage = get_int64 limits "storageGB" in
    let cpu = get_int64 limits "cpuMillicores" in
    let memory = get_int64 limits "memoryMB" in
    if_positive storage (("requests.storage", gib storage) ∷ [])
    ++ if_positive cpu (("requests.cpu", milli cpu) ∷ ("limits.cpu", milli cpu) ∷ [])
    ++ if_positive memory (("requests.memory", mib memory) ∷ ("limits.memory", mib memory) ∷ [])

-- An object of core/v1 for the plan.
abbrev core_object : String → String → String → String → Fields → Unstructured
core_object kind name namespace plan spec = record {
  api_version = "v1";
  kind = kind;
  name = name;
  namespace = namespace;
  labels = some (("hosting.panel/plan", plan) ∷ ("hosting.panel/managed-by", "panel-core") ∷ []);
  annotations = none;
  created = "";
  resource_version = "";
  spec = object spec;
  status = Values.nil;
}

unfoldable pub quota_object : String → String → Option Fields → Unstructured
quota_object namespace plan limits =
    core_object "ResourceQuota" "hosting-plan-quota" namespace plan
      (entry "hard" (object (fields_of (hard_of limits))) no_fields)

-- The default of a container: a fourth of the plan's limit, but at least the minimum.
unfoldable pub share : ℕ → ℤ → ℤ
share minimum limit =
    if lt_int (div_int limit 4) (pos minimum) then pos minimum else div_int limit 4

unfoldable pub default_limits : Option Fields → List (String × String)
default_limits limits =
    let cpu = get_int64 limits "cpuMillicores" in
    let memory = get_int64 limits "memoryMB" in
    if_positive cpu (("cpu", milli (share 100 cpu)) ∷ [])
    ++ if_positive memory (("memory", mib (share 64 memory)) ∷ [])

unfoldable pub default_requests : Option Fields → List (String × String)
default_requests limits =
    let cpu = get_int64 limits "cpuMillicores" in
    let memory = get_int64 limits "memoryMB" in
    if_positive cpu (("cpu", milli (div_int (share 100 cpu) 2)) ∷ [])
    ++ if_positive memory (("memory", mib (div_int (share 64 memory) 2)) ∷ [])

unfoldable pub range_object : String → String → Option Fields → Unstructured
range_object namespace plan limits = core_object "LimitRange" "hosting-plan-limits" namespace plan (
    entry "limits"
      (slice (
        value
          (object (
            entry "type" (Values.text "Container") (
              entry "default" (object (fields_of (default_limits limits)))
                (entry "defaultRequest" (object (fields_of (default_requests limits))) no_fields))))
          no_values))
      no_fields)

abbrev is_zero : ℤ → Bool
is_zero n = le_int n (pos 0) && le_int (pos 0) n

-- `cpuMillicores == 0 && memoryMB == 0`
abbrev pub has_no_range : Option Fields → Bool
has_no_range limits =
    is_zero (get_int64 limits "cpuMillicores") && is_zero (get_int64 limits "memoryMB")
