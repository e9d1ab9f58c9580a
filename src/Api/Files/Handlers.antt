-- ===== src/Api/Files/Handlers.antt =====
-- The handlers of filemanager.go.
use kubecp.Common.{String, ◌<>◌, ◌||◌, Option, none, some, List, [], ◌∷◌, if◌then◌else◌}
use kubecp.Common.Text.{is_empty}
use kubecp.Common.Exec.{Exec, pure, raise, on_error, fail_if, ◌>>=◌, ◌>>◌}
use kubecp.Http.{
  Response, no_body, json, TokenClaims, write_bad_request, write_internal_error, write_json,
}
use kubecp.Api.Files.Paths.{sanitize_path}
use kubecp.Api.Files.Listing.{FileEntry, parse_ls_output}
use kubecp.Api.Files.Pods.{Pods, PodWorld, resolve_website_pod, exec_in_pod}

-- `FileManagerRequest`
pub record FileRequest : Type 0 where
  pub path : String
  pub content : String
  pub new_path : String
  pub mode : String

-- The multipart form of an upload. `file` is none without the field; its content is none if it
-- cannot be read.
pub record UploadForm : Type 0 where
  pub path : String
  pub file : Option (String × Option String)

-- A JSON object of texts, a listing, or the raw content of a download.
pub data FileView : Type 0 where
  object : List (String × String) → FileView
  entries : List FileEntry → FileView
  download : String → FileView

-- The routes, with the decoded body: `none` where it does not decode.
pub data FileAction : Type 0 where
  list_files read_file delete_file download_file : FileAction
  write_file make_dir rename_file copy_file chmod_file : Option FileRequest → FileAction
  upload_file : Option UploadForm → FileAction

abbrev pub in_root : String → String
in_root path = "/var/www/html/" <> path

abbrev pub or_here : String → String
or_here path = if is_empty path then "." else path

abbrev bad : String → Response FileView
bad message = write_bad_request message none

abbrev failed : String → String → Response FileView
failed what e = write_internal_error (what <> e)

module _ (p : Pods) where
  abbrev pub Effect : Type 0 → Type 0
  Effect A = Exec (Response FileView) (PodWorld p.State) A

  unfoldable pub decoded : {A : Type 0} → String → Option A → Effect A
  decoded message none = raise (bad message)
  decoded message (some a) = pure a

  unfoldable pub run_command :
      String → String × String → List String → Option String → Effect String
  run_command what pod command stdin = on_error (failed what) (exec_in_pod p pod command stdin)

  module _ (pod : String × String) where
    unfoldable pub handle_list : String → Effect (Response FileView)
    handle_list asked = do
      let path = or_here (sanitize_path asked)
      output ← run_command "Failed to list files: " pod ("ls" ∷ "-la" ∷ in_root path ∷ []) none
      pure (write_json 200 (entries (parse_ls_output output path)))

    unfoldable pub handle_read : String → Effect (Response FileView)
    handle_read asked = do
      let path = sanitize_path asked
      fail_if (is_empty path) (bad "path is required")
      output ← run_command "Failed to read file: " pod ("cat" ∷ in_root path ∷ []) none
      pure (write_json 200 (object (("path", path) ∷ ("content", output) ∷ [])))

    unfoldable pub handle_write : Option FileRequest → Effect (Response FileView)
    handle_write body = do
      req ← decoded "Invalid request body" body
      let path = sanitize_path req.path
      fail_if (is_empty path) (bad "path is required")
      run_command "Failed to write file: " pod ("tee" ∷ in_root path ∷ []) (some req.content)
      pure (write_json 200 (object (("status", "written") ∷ ("path", path) ∷ [])))

    unfoldable pub handle_mkdir : Option FileRequest → Effect (Response FileView)
    handle_mkdir body = do
      req ← decoded "Invalid request body" body
      let path = sanitize_path req.path
      fail_if (is_empty path) (bad "path is required")
      run_command "Failed to create directory: " pod ("mkdir" ∷ "-p" ∷ in_root path ∷ []) none
      pure (write_json 201 (object (("status", "created") ∷ ("path", path) ∷ [])))

    unfoldable pub handle_delete : String → Effect (Response FileView)
    handle_delete asked = do
      let path = sanitize_path asked
      fail_if (is_empty path) (bad "path is required")
      run_command "Failed to delete: " pod ("rm" ∷ "-rf" ∷ in_root path ∷ []) none
      pure (record { status = 204; body = no_body })

    unfoldable pub handle_rename : Option FileRequest → Effect (Response FileView)
    handle_rename body = do
      req ← decoded "Invalid request body" body
      let from = sanitize_path req.path
      let to = sanitize_path req.new_path
      fail_if (is_empty from || is_empty to) (bad "path and newPath are required")
      run_command "Failed to rename: " pod ("mv" ∷ in_root from ∷ in_root to ∷ []) none
      pure (write_json 200 (object (("status", "renamed") ∷ ("from", from) ∷ ("to", to) ∷ [])))

    unfoldable pub handle_copy : Option FileRequest → Effect (Response FileView)
    handle_copy body = do
      req ← decoded "Invalid request body" body
      let from = sanitize_path req.path
      let to = sanitize_path req.new_path
      fail_if (is_empty from || is_empty to) (bad "path and newPath are required")
      run_command "Failed to copy: " pod ("cp" ∷ "-r" ∷ in_root from ∷ in_root to ∷ []) none
      pure (write_json 200 (object (("status", "copied") ∷ ("from", from) ∷ ("to", to) ∷ [])))

    unfoldable pub handle_chmod : Option FileRequest → Effect (Response FileView)
    handle_chmod body = do
      req ← decoded "Invalid request body" body
      let path = sanitize_path req.path
      fail_if (is_empty path || is_empty req.mode) (bad "path and mode are required")
      run_command "Failed to chmod: " pod ("chmod" ∷ req.mode ∷ in_root path ∷ []) none
      pure (
          write_json 200
            (object (("status", "changed") ∷ ("path", path) ∷ ("mode", req.mode) ∷ [])))

    abbrev pub content_of : Option String → Effect String
    content_of none = raise (write_internal_error "Failed to read uploaded file")
    content_of (some text) = pure text

    unfoldable pub handle_upload : Option UploadForm → Effect (Response FileView)
    handle_upload body = do
      form ← decoded "Failed to parse multipart form" body
      let path = or_here (sanitize_path form.path)
      file ← decoded "file field is required" form.file
      content ← content_of file.1
      run_command "Failed to upload file: " pod ("tee" ∷ in_root (path <> "/" <> file.0) ∷ [])
          (some content)
      pure (
          write_json 201 (
            object (
              ("status", "uploaded")
              ∷ ("filename", file.0)
              ∷ ("path", path <> "/" <> file.0)
              ∷ [])))

    unfoldable pub handle_download : String → Effect (Response FileView)
    handle_download asked = do
      let path = sanitize_path asked
      fail_if (is_empty path) (bad "path is required")
      output ← run_command "Failed to download file: " pod ("cat" ∷ in_root path ∷ []) none
      pure (record { status = 200; body = json (download output) })

    unfoldable pub handle_file : String → FileAction → Effect (Response FileView)
    handle_file asked list_files = handle_list asked
    handle_file asked read_file = handle_read asked
    handle_file asked delete_file = handle_delete asked
    handle_file asked download_file = handle_download asked
    handle_file asked (write_file body) = handle_write body
    handle_file asked (make_dir body) = handle_mkdir body
    handle_file asked (rename_file body) = handle_rename body
    handle_file asked (copy_file body) = handle_copy body
    handle_file asked (chmod_file body) = handle_chmod body
    handle_file asked (upload_file body) = handle_upload body

  -- `RegisterRoutes`: every handler resolves the pod first. `path` and `websiteId` are query
  -- parameters.
  unfoldable pub serve_files :
      Option TokenClaims → (String → String) → FileAction → Effect (Response FileView)
  serve_files claims query action = do
    pod ← on_error bad (resolve_website_pod p claims (query "websiteId"))
    handle_file pod (query "path") action
