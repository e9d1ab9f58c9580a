-- ===== src/Api/Databases/Tenants.antt =====
-- On the calls of the handlers of databases.go below a database.
use kubecp.Http.{TokenClaims}
use kubecp.Common.Exec.{
  Keeps, Keeps-bind, Keeps-bind_known, Keeps-fail_if, Keeps-on_error, Keeps-pure, Keeps-then, ok,
  on_error, on_error_ok,
}
use kubecp.Common.{Option, String, [], inr, none, refl, some, ℕ, ◌≡◌}
use kubecp.Api.Databases.Data.{DatabaseView, annotated}
use kubecp.Api.Crd.Owned.{Effect, hosting_namespace, internal}
use kubecp.Api.Crd.Client.{
  Call, Dynamic, Panel, Unicode, Unstructured, calling, databases, update_object,
}
use kubecp.Api.Databases.Handlers.{
  DatabaseAction, reads, removes, changes_password, serve_database, asked_password, delete_database,
  get_database, update_database_password,
}
use kubecp.Api.Crd.Owned.Laws.{
  Called, Allowed, May, SameIdentity, Stored, calling-Keeps, claims-Keeps, decode_body-Keeps,
  load_for-Allowed, load_owned-Allowed, no_claims-Keeps, no_object-Keeps, status-SameIdentity,
}

module _ (d : Dynamic) (u : Unicode) (claims : TokenClaims) (id : String) where
  abbrev Keeping : {A : Type 0} → Effect d DatabaseView A → Type 0
  Keeping m = Keeps (Called (Allowed d databases claims id)) m

  annotated-SameIdentity :
      (o : Unstructured) (password : String) (now : ℕ) → SameIdentity o (annotated o password now)
  unfolding annotated
  annotated-SameIdentity o password now = record {
    same_kind = refl;
    same_name = refl;
    same_namespace = refl;
    same_labels = refl;
  }

  asked_password-Keeping : (body : Option String) → Keeping (asked_password d u body)
  unfolding asked_password
  asked_password-Keeping body = Keeps-bind _ _ (decode_body-Keeps d _ _ body) (λ asked.
      Keeps-then _ _ (Keeps-fail_if _ _) (Keeps-then _ _ (Keeps-fail_if _ _) (Keeps-pure _)))

  annotated-Stored :
      (o x stored : Unstructured) (w : Panel d.State)
      → SameIdentity o x
      → (on_error
          (internal {P = DatabaseView} "Failed to update database: ")
          (update_object d databases (some hosting_namespace) x)
          w).0
        ≡ ok stored
      → Stored d databases claims id o stored
  unfolding calling
  annotated-Stored o x stored w same h = inr (
    x,
    w.state,
    same,
    on_error_ok (internal {P = DatabaseView} "Failed to update database: ") _ w stored h,
  )

  update_database_password-Keeping :
      (body : Option String) (now : ℕ)
      → Keeping (update_database_password d u (some claims) id body now)
  unfolding update_database_password
  update_database_password-Keeping body now = claims-Keeps d _ _ claims _ (
      Keeps-bind _ _ (asked_password-Keeping body) (λ password.
        load_owned-Allowed d databases claims id _ _ _ (λ o own.
          Keeps-bind_known _ _
            (Keeps-on_error _ _
              (calling-Keeps d _ _ _ (refl, refl, (o, own, annotated-SameIdentity o password now))))
            (λ w stored h.
              Keeps-then _ _
                (Keeps-on_error _ _ (
                  calling-Keeps d _ _ _ (
                    refl,
                    refl,
                    (
                      o,
                      own,
                      (
                        stored,
                        annotated-Stored o _ stored w (annotated-SameIdentity o password now) h,
                        status-SameIdentity stored _,
                      ),
                    ),
                  )))
                (Keeps-pure _)))))

  serve-Keeping : (a : DatabaseAction) → Keeping (serve_database d u (some claims) id a)
  unfolding serve_database get_database delete_database
  serve-Keeping reads = load_for-Allowed d databases claims id _ _ _ (λ o own. Keeps-pure _)
  serve-Keeping removes = load_for-Allowed d databases claims id _ _ _ (λ o own.
      Keeps-then _ _ (Keeps-on_error _ _ (calling-Keeps d _ _ _ (refl, refl, refl, (o, own))))
        (Keeps-pure _))
  serve-Keeping (changes_password body now) = update_database_password-Keeping body now

serve_none-Keeps :
    (d : Dynamic) (u : Unicode) (Q : Call → Type 0) (id : String) (a : DatabaseAction)
    → Keeps (Called Q) (serve_database d u none id a)
unfolding serve_database get_database delete_database update_database_password
serve_none-Keeps d u Q id reads = no_object-Keeps d _ _ _ _ _ _
serve_none-Keeps d u Q id removes = no_object-Keeps d _ _ _ _ _ _
serve_none-Keeps d u Q id (changes_password body now) = no_claims-Keeps d _ _ _

-- Every call of a handler below /api/databases/{id} only reads, or it changes the database of this
-- name, which the server answered with and which the caller owns, or what the server made of it, and
-- leaves its kind, name, namespace and labels as they are, or deletes it. Without claims nothing is
-- called.
pub serve_database-Owned :
    (d : Dynamic) (u : Unicode) (c : Option TokenClaims) (id : String) (a : DatabaseAction)
    (w : Panel d.State)
    → w.calls ≡ []
    → Called (May d databases c id) (serve_database d u c id a w).1
serve_database-Owned d u none id a w fresh = (serve_none-Keeps d u _ id a).at w (rw fresh tt)
serve_database-Owned d u (some claims) id a w fresh =
    (serve-Keeping d u claims id a).at w (rw fresh tt)
