-- ===== src/Api/Files/Confined.antt =====
-- On the commands that filemanager.go runs, one function at a time.
use kubecp.Common.{
  String, ◌<>◌, ◌≡◌, refl, ◌⊎◌, inl, inr, true, false, not, Option, List, [], ◌∷◌, ◌++◌, All,
  All-append, Bool-cases, Option-cases,
}
use kubecp.Common.Text.{is_empty}
use kubecp.Common.Text.Laws.{is_empty_iff}
use kubecp.Common.Exec.{Result, ok, err, convert, Keeps, Keeps-raise, Keeps-if, Keeps-on_error}
use kubecp.Http.{TokenClaims}
use kubecp.Middleware.Rbac.{is_owner_by_label}
use kubecp.Api.Files.Paths.{sanitize_path, join_path}
use kubecp.Api.Files.Paths.Laws.{IsName, sanitize_path-Below}
use kubecp.Api.Files.Pods.{
  Pods, PodWorld, Labels, ExecRequest, asking, streaming, exec_error, exec_in_pod, exec_container,
}
use kubecp.Api.Files.Handlers.{in_root, or_here, run_command}

-- The path is the web root itself, or names of files below it.
abbrev pub Stays : String → Type 0
Stays q = (q ≡ ".") ⊎ ((names : List String) × All IsName names × (q ≡ join_path names))

-- The commands of the file manager, each on paths that stay below the web root. An upload appends
-- the name that the form gives.
pub data FileCommand : List String → Type 0 where
  lists : {q : String} → Stays q → FileCommand ("ls" ∷ "-la" ∷ in_root q ∷ [])
  reads : {q : String} → Stays q → FileCommand ("cat" ∷ in_root q ∷ [])
  writes : {q : String} → Stays q → FileCommand ("tee" ∷ in_root q ∷ [])
  makes : {q : String} → Stays q → FileCommand ("mkdir" ∷ "-p" ∷ in_root q ∷ [])
  deletes : {q : String} → Stays q → FileCommand ("rm" ∷ "-rf" ∷ in_root q ∷ [])
  renames : {q r : String} → Stays q → Stays r → FileCommand ("mv" ∷ in_root q ∷ in_root r ∷ [])
  copies :
      {q r : String} → Stays q → Stays r → FileCommand ("cp" ∷ "-r" ∷ in_root q ∷ in_root r ∷ [])
  changes : {q : String} (mode : String) → Stays q → FileCommand ("chmod" ∷ mode ∷ in_root q ∷ [])
  uploads :
      {q : String} (file : String) → Stays q → FileCommand ("tee" ∷ in_root (q <> "/" <> file) ∷ [])

pub sanitized-Stays :
    (path : String) → is_empty (sanitize_path path) ≡ false → Stays (sanitize_path path)
sanitized-Stays path h = elim (sanitize_path-Below path) [
  | inl e ↦ cc (h, (is_empty_iff (sanitize_path path)).1 e)
  | inr s ↦ s
]

pub here-Stays : (path : String) → Stays (or_here (sanitize_path path))
here-Stays path = elim (Bool-cases (is_empty (sanitize_path path))) [
  | inl e ↦ rw e (inl refl)
  | inr e ↦ rw e (sanitized-Stays path e)
]

module _ (p : Pods) (claims : Option TokenClaims) (id : String) where
  -- The website is the caller's: the cluster gave labels for it that make him its owner.
  abbrev pub Mine : Type 0
  Mine =
      (s : p.State) × (labels : Labels) × ((p.get_website id s).0 ≡ ok labels)
      × (is_owner_by_label claims labels ≡ true)

  -- A command of the file manager, for a caller who owns the website.
  abbrev pub Confined : ExecRequest → Type 0
  Confined r = Mine × FileCommand r.command

module _ (p : Pods) (Q : ExecRequest → Type 0) where
  abbrev pub Ran : PodWorld p.State → Type 0
  Ran w = All Q w.executed

  streaming-Keeps : (r : ExecRequest) → Q r → Keeps Ran (streaming p r)
  unfolding streaming
  streaming-Keeps r q = record { at = λ w h. kept w (p.stream r w.state) h }
    where
      kept :
          (w : PodWorld p.State) (s : Result (String × String) String × p.State)
          → All Q w.executed
          → Ran
              (convert {W = PodWorld p.State}
                (exec_error p)
                (s.0, record { state = s.1; executed = w.executed ++ r ∷ [] })).1
      kept w (ok a, s) h = All-append Q w.executed (r ∷ []) h (q, tt)
      kept w (err e, s) h = All-append Q w.executed (r ∷ []) h (q, tt)

  pub asking-Keeps : {A : Type 0} (f : p.State → Result String A × p.State) → Keeps Ran (asking p f)
  unfolding asking
  asking-Keeps f = record { at = λ w h. h }

  module _ (sub : (r : ExecRequest) → FileCommand r.command → Q r) where
    pub run-Keeps :
        (what : String) (pod : String × String) (command : List String) (stdin : Option String)
        → FileCommand command
        → Keeps Ran (run_command p what pod command stdin)
    unfolding run_command exec_in_pod
    run-Keeps what (pod, namespace) command stdin c =
        let r : ExecRequest = record {
          pod = pod;
          namespace = namespace;
          container = exec_container;
          command = command;
          stdin = stdin;
        } in
        Keeps-on_error _ _ (
          Keeps-if (not p.has_rest_config) (Keeps-raise _)
            (elim (Option-cases (p.executor_error r)) [
              | inl e ↦ rw (e) (streaming-Keeps r (sub r c))
              | inr (x, e) ↦ rw (e) (Keeps-raise _)
            ]))
