-- ===== src/Api/Databases/Creation.antt =====
-- On `CreateDatabase` of databases.go.
use kubecp.Http.{TokenClaims}
use kubecp.Common.Text.{trim_space}
use kubecp.Common.Exec.{
  Keeps, Keeps-bind, Keeps-bind_known, Keeps-on_error, Keeps-pure, Keeps-unless, ok,
}
use kubecp.Common.{String, [], ap, not-false, refl, some, sym, true, ◌<>◌, ◌∙◌, ◌≡◌}
use kubecp.Api.Databases.Handlers.{completed, create_database}
use kubecp.Api.Databases.Data.{
  CreateDatabaseRequest, DatabaseView, is_database_name, new_database, prefixed, resource_name,
}
use kubecp.Api.Crd.Quota.Laws.{HasRoom, check_quota-HasRoom, check_quota-Keeps, refuse_quota-Keeps}
use kubecp.Api.Crd.Owned.{hosting_namespace}
use kubecp.Api.Crd.Client.{
  Call, Dynamic, Panel, Unicode, create_call, create_zone_call, create_user_call, list_users_call,
  set_password_call, databases, delete_call, get_call, get_namespace_call, list_call,
  put_namespace_call, status_call, update_call,
}
use kubecp.Api.Crd.Owned.Laws.{Called, calling-Keeps, claims-Keeps, decoded-Keeps}
use text.Mathlib.TextLemmas.{append_assoc}

module _ (d : Dynamic) (u : Unicode) (claims : TokenClaims) (asked : CreateDatabaseRequest) where
  -- A list, or the creation of the caller's database of a valid name within the plan's limit.
  abbrev pub Admitted : Call → Type 0
  Admitted (list_call r scope selector) = Unit
  Admitted (create_call r scope o) =
      (r ≡ databases)
      × (scope ≡ some hosting_namespace)
      × (o ≡ new_database u (completed asked claims.username) claims.username)
      × (is_database_name (trim_space asked.name) ≡ true)
      × HasRoom d DatabaseView databases "databases"
  Admitted (get_call r scope name) = ⊥
  Admitted (update_call r scope o) = ⊥
  Admitted (status_call r scope o) = ⊥
  Admitted (delete_call r scope name) = ⊥
  Admitted (get_namespace_call name) = ⊥
  Admitted (put_namespace_call n) = ⊥
  Admitted (create_zone_call zone servers) = ⊥
  Admitted (create_user_call user) = ⊥
  Admitted (list_users_call search) = ⊥
  Admitted (set_password_call user password) = ⊥

  create_database-Keeping : Keeps (Called Admitted) (create_database d u (some claims) (some asked))
  unfolding create_database
  create_database-Keeping = claims-Keeps d _ _ claims _ (
      decoded-Keeps d _ _ asked _ (
        Keeps-unless _ _ _ (λ named. Keeps-unless _ _ _ (λ valid.
          Keeps-bind_known _ _ (check_quota-Keeps d _ _ _ _ (λ r s t. tt)) (λ w q quota.
            refuse_quota-Keeps d _ _ _ _ q _ (λ fits.
              Keeps-bind _ _
                (Keeps-on_error _ _ (
                  calling-Keeps d _ _ _ (
                    refl,
                    refl,
                    refl,
                    not-false _ valid,
                    check_quota-HasRoom d DatabaseView databases "databases" w (quota ∙ ap ok fits),
                  )))
                (λ created. Keeps-pure _)))))))

-- What `CreateDatabase` calls: lists, and the creation of the requested database, completed, for the
-- caller and under his name, after the name was found valid and the first plan's limit not reached,
-- as far as the lists could be read.
pub create_database-Admitted :
    (d : Dynamic) (u : Unicode) (claims : TokenClaims) (asked : CreateDatabaseRequest)
    (w : Panel d.State)
    → w.calls ≡ []
    → Called (Admitted d u claims asked) (create_database d u (some claims) (some asked) w).1
create_database-Admitted d u claims asked w fresh =
    (create_database-Keeping d u claims asked).at w (rw fresh tt)

-- The prefix does not keep users apart: the database `b_n` of a user `a` and the database `n` of a
-- user `a_b` have one name, and so one resource, for which the second creation is a conflict.
prefixed_collide :
    (u : Unicode) (a b n : String)
    → (prefixed a (b <> "_" <> n) ≡ prefixed (a <> "_" <> b) n)
      × (resource_name u (prefixed a (b <> "_" <> n))
          ≡ resource_name u (prefixed (a <> "_" <> b) n))
unfolding prefixed
prefixed_collide u a b n =
    let assoc =
      append_assoc a ("_" <> b) ("_" <> n) ∙ ap (λ s. a <> s) (append_assoc "_" b ("_" <> n)) in
    let same : prefixed a (b <> "_" <> n) ≡ prefixed (a <> "_" <> b) n = sym assoc in
    (same, ap (resource_name u) same)
