-- ===== src/Api/Plans/Tests.antt =====
-- The hosting plans at concrete requests.
use kubecp.Common.Text.{show_nat, to_lower, trim_space}
use kubecp.Common.Exec.{ok}
use kubecp.Common.{[], pos, refl, some, true, ◌∷◌, ◌≡◌}
use kubecp.Api.Plans.Slug.Laws.{IsSlug, slug-IsSlug}
use kubecp.Api.Plans.Slug.{dash_runs, is_slug_char, slug}
use kubecp.Api.Plans.RoundTrip.{change, plan_limit-written}
use kubecp.Api.Plans.Quotas.{default_limits, default_requests, hard_of, share}
use kubecp.Api.Plans.Handlers.{PlanSettings, assign_plan}
use kubecp.Api.Import.{trim_left_dashes, trim_right_dashes}
use kubecp.Api.Plans.Data.{
  CreateHostingPlanRequest, HostingPlanLimits, get_int64, limits_fields, new_plan, updated_plan,
}
use kubecp.Api.Plans.Assignment.{Assigned, assign_plan-Assigned}
use kubecp.Api.Crd.Values.{get}
use kubecp.Api.Crd.Sample.{ascii, cluster, database, idle}
use kubecp.Api.Crd.Quota.{plan_limit}
use kubecp.Api.Crd.Owned.Laws.{Called}

abbrev limits : HostingPlanLimits
limits = record {
  websites = pos 2;
  databases = pos 3;
  email_accounts = pos 5;
  storage_gb = pos 0;
  cpu_millicores = pos 50;
  memory_mb = pos 1024;
}

abbrev small : CreateHostingPlanRequest
small = record { name = ""; display_name = " Small & Plan! "; limits = limits }

abbrev settings : PlanSettings
settings = record { has_clientset = true }

slug-IsSlug_example : IsSlug (slug ascii.lower "Small & Plan!")
slug-IsSlug_example = slug-IsSlug ascii.lower "Small & Plan!"

-- A run of other characters becomes one hyphen, and none stays at the ends.
slug_run : slug ascii.lower "Small & Plan!" ≡ "small-plan"
unfolding slug dash_runs is_slug_char to_lower trim_left_dashes trim_right_dashes
slug_run = refl

plan_limit-written_example :
    (plan_limit "websites" (ok (new_plan small ∷ [])) ≡ small.limits.websites)
    × (plan_limit "databases" (ok (new_plan small ∷ [])) ≡ small.limits.databases)
    × (plan_limit "websites" (ok (updated_plan (change "Big" limits) database ∷ []))
        ≡ limits.websites)
    × (plan_limit "databases" (ok (updated_plan (change "Big" limits) database ∷ []))
        ≡ limits.databases)
plan_limit-written_example = plan_limit-written small "Big" limits database []

assign_plan-Assigned_example :
    Called
      (Assigned cluster "small" (trim_space "bob"))
      (assign_plan cluster settings "small" (some "bob") idle).1
assign_plan-Assigned_example = assign_plan-Assigned cluster settings "small" "bob" idle refl

-- The quota's entries, and the container's defaults, of a plan with little processor time.
small_objects :
    (hard_of (some (limits_fields limits))
      ≡ ("requests.cpu", "50m")
        ∷ ("limits.cpu", "50m")
        ∷ ("requests.memory", "1024Mi")
        ∷ ("limits.memory", "1024Mi")
        ∷ [])
    × (default_limits (some (limits_fields limits)) ≡ ("cpu", "100m") ∷ ("memory", "256Mi") ∷ [])
    × (default_requests (some (limits_fields limits)) ≡ ("cpu", "50m") ∷ ("memory", "128Mi") ∷ [])
unfolding hard_of default_limits default_requests share get_int64 get show_nat
small_objects = (refl, refl, refl)
