-- ===== src/Api/Files/Pods.antt =====
-- The pod of a website and commands in it: `resolveWebsitePod`, `execInPod` and
-- `execInPodWithStdin` of filemanager.go. The cluster is a parameter, and every command is recorded.
use kubecp.Common.{String, ◌<>◌, Bool, not, Option, none, some, List, [], ◌∷◌, ◌++◌, if◌then◌else◌}
use kubecp.Common.Text.{is_empty}
use kubecp.Common.Exec.{Result, Exec, pure, raise, on_error, fail_if, convert, ◌>>=◌, ◌>>◌}
use kubecp.Http.{TokenClaims}
use kubecp.Middleware.Rbac.{is_owner_by_label}

-- What is asked of the exec subresource of a pod.
pub record ExecRequest : Type 0 where
  pub pod : String
  pub namespace : String
  pub container : String
  pub command : List String
  pub stdin : Option String

-- The labels of an object, `none` for a nil map.
abbrev pub Labels : Type 0
Labels = Option (String → Option String)

-- The Kubernetes clients and the pods. A command that fails answers with the error and with what it
-- wrote to stderr.
pub record Pods : Type 1 where
  pub State : Type 0
  pub has_rest_config : Bool
  pub get_website : String → State → Result String Labels × State
  pub list_pods : String → State → Result String (List String) × State
  pub executor_error : ExecRequest → Option String
  pub stream : ExecRequest → State → Result (String × String) String × State

-- The commands that were run, the first in front.
pub record PodWorld (State : Type 0) : Type 0 where
  pub state : State
  pub executed : List ExecRequest

abbrev pub hosting_namespace : String
hosting_namespace = "hosting-system"

abbrev pub exec_container : String
exec_container = "php-fpm"

module _ (p : Pods) where
  abbrev pub Call : Type 0 → Type 0
  Call A = Exec String (PodWorld p.State) A

  unfoldable pub asking : {A : Type 0} → (p.State → Result String A × p.State) → Call A
  asking f w = let (answer, state') = f w.state in (answer, record w { state = state' })

  abbrev pub exec_error : String × String → String
  exec_error (e, stderr) = "exec error: " <> e <> " (stderr: " <> stderr <> ")"

  unfoldable pub streaming : ExecRequest → Call String
  streaming req w =
      let (answer, state') = p.stream req w.state in
      convert exec_error (answer, record { state = state'; executed = w.executed ++ req ∷ [] })

  -- `execInPod`, and `execInPodWithStdin` with a text for stdin
  unfoldable pub exec_in_pod : String × String → List String → Option String → Call String
  exec_in_pod (pod, namespace) command stdin =
      let req : ExecRequest = record {
        pod = pod;
        namespace = namespace;
        container = exec_container;
        command = command;
        stdin = stdin;
      } in
      if not p.has_rest_config
      then raise "rest config not available"
      else elim (p.executor_error req) [
        | some e ↦ raise ("failed to create executor: " <> e)
        | none ↦ streaming req
      ]

  abbrev pub first_pod : String → List String → Call (String × String)
  first_pod website_id [] = raise ("no running pod found for website " <> website_id)
  first_pod website_id (pod ∷ rest) = pure (pod, hosting_namespace)

  unfoldable pub find_pod : TokenClaims → String → Call (String × String)
  find_pod claims website_id = do
    fail_if (is_empty website_id) "websiteId query parameter required"
    labels ← on_error (λ e. "website not found: " <> e) (asking (p.get_website website_id))
    fail_if (not (is_owner_by_label (some claims) labels)) "access denied"
    pods ←
        on_error (λ e. "no running pod found for website " <> website_id)
          (asking (p.list_pods ("hosting.panel/website=" <> website_id)))
    first_pod website_id pods

  -- `resolveWebsitePod`
  unfoldable pub resolve_website_pod : Option TokenClaims → String → Call (String × String)
  resolve_website_pod none website_id = raise "no claims"
  resolve_website_pod (some claims) website_id = find_pod claims website_id
