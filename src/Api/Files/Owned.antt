-- ===== src/Api/Files/Owned.antt =====
-- On the handlers of filemanager.go, taken together.
use kubecp.Common.{
  String, ◌≡◌, refl, inl, inr, Bool, false, not, ◌||◌, Option, none, some, List, [], ◌∷◌,
  Bool-cases, arith,
}
use kubecp.Common.Text.{is_empty}
use kubecp.Common.Exec.{
  Result, ok, err, raise, fail_if, on_error, ◌>>=◌, ◌>>◌, resume, convert, Keeps, Keeps-pure,
  Keeps-raise, Keeps-bind, Keeps-bind_known, Keeps-then, Keeps-on_error, Keeps-fail_if,
  Keeps-unless, on_error_ok,
}
use kubecp.Http.{TokenClaims}
use kubecp.Middleware.Rbac.{is_owner_by_label}
use kubecp.Api.Files.Pods.{
  Pods, PodWorld, Labels, ExecRequest, asking, first_pod, find_pod, resolve_website_pod, Call,
}
use kubecp.Api.Files.Handlers.{
  FileAction, FileRequest, UploadForm, decoded, content_of, handle_list, handle_read, handle_write,
  handle_mkdir, handle_delete, handle_rename, handle_copy, handle_chmod, handle_upload,
  handle_download, handle_file, serve_files, list_files, read_file, write_file, make_dir,
  delete_file, rename_file, copy_file, chmod_file, upload_file, download_file,
}
use kubecp.Api.Files.Confined.{
  FileCommand, lists, reads, writes, makes, deletes, renames, copies, changes, uploads, Mine,
  Confined, Ran, run-Keeps, asking-Keeps, sanitized-Stays, here-Stays,
}

module _ (p : Pods) (Q : ExecRequest → Type 0)
    (sub : (r : ExecRequest) → FileCommand r.command → Q r) (pod : String × String) where
  decoded-Keeps :
      {A : Type 0} (message : String) (body : Option A) → Keeps (Ran p Q) (decoded p message body)
  unfolding decoded
  decoded-Keeps message none = Keeps-raise _
  decoded-Keeps message (some a) = Keeps-pure a

  content-Keeps : (content : Option String) → Keeps (Ran p Q) (content_of p pod content)
  content-Keeps none = Keeps-raise _
  content-Keeps (some text) = Keeps-pure text

  list-Keeps : (asked : String) → Keeps (Ran p Q) (handle_list p pod asked)
  unfolding handle_list
  list-Keeps asked =
      Keeps-bind _ _ (run-Keeps p Q sub _ pod _ none (lists (here-Stays asked)))
        (λ output. Keeps-pure _)

  read-Keeps : (asked : String) → Keeps (Ran p Q) (handle_read p pod asked)
  unfolding handle_read
  read-Keeps asked = Keeps-unless _ _ _ (λ e.
      Keeps-bind _ _ (run-Keeps p Q sub _ pod _ none (reads (sanitized-Stays asked e)))
        (λ output. Keeps-pure _))

  download-Keeps : (asked : String) → Keeps (Ran p Q) (handle_download p pod asked)
  unfolding handle_download
  download-Keeps asked = Keeps-unless _ _ _ (λ e.
      Keeps-bind _ _ (run-Keeps p Q sub _ pod _ none (reads (sanitized-Stays asked e)))
        (λ output. Keeps-pure _))

  delete-Keeps : (asked : String) → Keeps (Ran p Q) (handle_delete p pod asked)
  unfolding handle_delete
  delete-Keeps asked = Keeps-unless _ _ _ (λ e.
      Keeps-then _ _ (run-Keeps p Q sub _ pod _ none (deletes (sanitized-Stays asked e)))
        (Keeps-pure _))

  module _ (body : Option FileRequest) where
    write-Keeps : Keeps (Ran p Q) (handle_write p pod body)
    unfolding handle_write
    write-Keeps = Keeps-bind _ _ (decoded-Keeps _ body) (λ req. Keeps-unless _ _ _ (λ e.
        Keeps-then _ _ (run-Keeps p Q sub _ pod _ _ (writes (sanitized-Stays req.path e)))
          (Keeps-pure _)))

    mkdir-Keeps : Keeps (Ran p Q) (handle_mkdir p pod body)
    unfolding handle_mkdir
    mkdir-Keeps = Keeps-bind _ _ (decoded-Keeps _ body) (λ req. Keeps-unless _ _ _ (λ e.
        Keeps-then _ _ (run-Keeps p Q sub _ pod _ _ (makes (sanitized-Stays req.path e)))
          (Keeps-pure _)))

    both : (a b : Bool) → (a || b) ≡ false → (a ≡ false) × (b ≡ false)
    both a b h = ground arith

    rename-Keeps : Keeps (Ran p Q) (handle_rename p pod body)
    unfolding handle_rename
    rename-Keeps = Keeps-bind _ _ (decoded-Keeps _ body) (λ req. Keeps-unless _ _ _ (λ e.
        let (a, b) = both _ _ e in
        Keeps-then _ _
          (run-Keeps p Q sub _ pod _ _
            (renames (sanitized-Stays req.path a) (sanitized-Stays req.new_path b)))
          (Keeps-pure _)))

    copy-Keeps : Keeps (Ran p Q) (handle_copy p pod body)
    unfolding handle_copy
    copy-Keeps = Keeps-bind _ _ (decoded-Keeps _ body) (λ req. Keeps-unless _ _ _ (λ e.
        let (a, b) = both _ _ e in
        Keeps-then _ _
          (run-Keeps p Q sub _ pod _ _
            (copies (sanitized-Stays req.path a) (sanitized-Stays req.new_path b)))
          (Keeps-pure _)))

    chmod-Keeps : Keeps (Ran p Q) (handle_chmod p pod body)
    unfolding handle_chmod
    chmod-Keeps = Keeps-bind _ _ (decoded-Keeps _ body) (λ req. Keeps-unless _ _ _ (λ e.
        let (a, b) = both _ _ e in
        Keeps-then _ _ (run-Keeps p Q sub _ pod _ _ (changes req.mode (sanitized-Stays req.path a)))
          (Keeps-pure _)))

  upload-Keeps : (body : Option UploadForm) → Keeps (Ran p Q) (handle_upload p pod body)
  unfolding handle_upload
  upload-Keeps body = Keeps-bind _ _ (decoded-Keeps _ body) (λ form.
      Keeps-bind _ _ (decoded-Keeps _ form.file) (λ file.
        Keeps-bind _ _ (content-Keeps file.1) (λ content.
          Keeps-then _ _ (run-Keeps p Q sub _ pod _ _ (uploads file.0 (here-Stays form.path)))
            (Keeps-pure _))))

  handle_file-Keeps :
      (asked : String) (action : FileAction) → Keeps (Ran p Q) (handle_file p pod asked action)
  unfolding handle_file
  handle_file-Keeps asked list_files = list-Keeps asked
  handle_file-Keeps asked read_file = read-Keeps asked
  handle_file-Keeps asked delete_file = delete-Keeps asked
  handle_file-Keeps asked download_file = download-Keeps asked
  handle_file-Keeps asked (write_file body) = write-Keeps body
  handle_file-Keeps asked (make_dir body) = mkdir-Keeps body
  handle_file-Keeps asked (rename_file body) = rename-Keeps body
  handle_file-Keeps asked (copy_file body) = copy-Keeps body
  handle_file-Keeps asked (chmod_file body) = chmod-Keeps body
  handle_file-Keeps asked (upload_file body) = upload-Keeps body

module _ (p : Pods) (c : TokenClaims) (id : String) where
  after_labels :
      (rest : Call p (String × String)) (w : PodWorld p.State) (s : Result String Labels × p.State)
      (st : p.State) (f : String → String) (pod : String × String)
      → (p.get_website id st).0 ≡ s.0
      → (resume
          (λ labels. fail_if (not (is_owner_by_label (some c) labels)) "access denied" >> rest)
          (convert f (s.0, record w { state = s.1 }))).0
        ≡ ok pod
      → Mine p (some c) id
  unfolding fail_if ◌>>◌ ◌>>=◌
  after_labels rest w (ok l, s) st f pod g h = elim (Bool-cases (is_owner_by_label (some c) l)) [
    | inl e ↦ (st, l, g, e)
    | inr e ↦ cc (rw e at h)
  ]
  after_labels rest w (err x, s) st f pod g h = cc

  -- A pod is found only for a website of the caller.
  find_pod-Mine :
      (w : PodWorld p.State) (pod : String × String)
      → (find_pod p c id w).0 ≡ ok pod
      → Mine p (some c) id
  unfolding find_pod fail_if ◌>>◌ ◌>>=◌ on_error asking
  find_pod-Mine w pod h = elim (Bool-cases (is_empty id)) [
    | inl e ↦ cc (rw e at h)
    | inr e ↦ after_labels _ w (p.get_website id w.state) w.state _ pod refl (rw e at h)
  ]

module _ (p : Pods) (Q : ExecRequest → Type 0) (id : String) where
  first_pod-Keeps : (pods : List String) → Keeps (Ran p Q) (first_pod p id pods)
  first_pod-Keeps [] = Keeps-raise _
  first_pod-Keeps (pod ∷ pods) = Keeps-pure _

  resolve_website_pod-Keeps :
      (claims : Option TokenClaims) → Keeps (Ran p Q) (resolve_website_pod p claims id)
  unfolding resolve_website_pod find_pod
  resolve_website_pod-Keeps none = Keeps-raise _
  resolve_website_pod-Keeps (some c) = Keeps-then _ _ (Keeps-fail_if _ _) (
      Keeps-bind _ _ (Keeps-on_error _ _ (asking-Keeps p Q _)) (λ labels.
        Keeps-then _ _ (Keeps-fail_if _ _)
          (Keeps-bind _ _ (Keeps-on_error _ _ (asking-Keeps p Q _)) first_pod-Keeps)))

resolved-Mine :
    {E : Type 0} (p : Pods) (claims : Option TokenClaims) (id : String) (f : String → E)
    (w : PodWorld p.State) (pod : String × String)
    → (on_error f (resolve_website_pod p claims id) w).0 ≡ ok pod
    → Mine p claims id
unfolding resolve_website_pod on_error raise
resolved-Mine p none id f w pod h = cc
resolved-Mine p (some c) id f w pod h =
    find_pod-Mine p c id w pod (on_error_ok f (find_pod p c id) w pod h)

-- A request to the file manager, whatever it asks for and whatever the cluster answers, runs only the
-- commands ls, cat, tee, mkdir, rm, mv, cp and chmod, and only if the caller owns the website. Each
-- path is the web root or names of files below it, but for the file name of an upload, which is
-- appended as the form gives it.
pub serve_files-Confined :
    (p : Pods) (claims : Option TokenClaims) (query : String → String) (action : FileAction)
    (w : PodWorld p.State)
    → w.executed ≡ []
    → Ran p (Confined p claims (query "websiteId")) (serve_files p claims query action w).1
unfolding serve_files
serve_files-Confined p claims query action w empty =
    let served =
      Keeps-bind_known _ _
        (Keeps-on_error _ _ (
          resolve_website_pod-Keeps p (Confined p claims (query "websiteId")) (query "websiteId")
            claims))
        (λ w pod known.
          handle_file-Keeps p (Confined p claims (query "websiteId"))
            (λ r command. (resolved-Mine p claims (query "websiteId") _ w pod known, command)) pod
            (query "path") action) in
    served.at w (rw empty tt)
