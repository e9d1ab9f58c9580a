-- ===== src/Api/Databases/Tests.antt =====
-- The handlers of databases.go at concrete requests.
use kubecp.Common.{refl, some}
use kubecp.Api.Databases.Tenants.{serve_database-Owned}
use kubecp.Api.Databases.Handlers.{changes_password, create_database, serve_database}
use kubecp.Api.Databases.Data.{CreateDatabaseRequest}
use kubecp.Api.Databases.Creation.{Admitted, create_database-Admitted}
use kubecp.Api.Crd.Sample.{alice, ascii, cluster, idle}
use kubecp.Api.Crd.Owned.Laws.{Called, May}
use kubecp.Api.Crd.Client.{databases}

abbrev shop : CreateDatabaseRequest
shop = record { name = " shop "; charset = ""; collation = "" }

serve_database-Owned_example :
    Called
      (May cluster databases (some alice) "alice-shop")
      (serve_database cluster ascii
        (some alice)
        "alice-shop"
        (changes_password (some "correct horse") 17)
        idle).1
serve_database-Owned_example =
    serve_database-Owned cluster ascii (some alice) "alice-shop"
      (changes_password (some "correct horse") 17) idle refl

create_database-Admitted_example :
    Called
      (Admitted cluster ascii alice shop)
      (create_database cluster ascii (some alice) (some shop) idle).1
create_database-Admitted_example = create_database-Admitted cluster ascii alice shop idle refl
