-- ===== src/Api/Websites/Routes.antt =====
-- The routes of websites.go below a website.
use kubecp.Common.{String, Option}
use kubecp.Http.{Response, TokenClaims}
use kubecp.Api.Crd.Client.{Dynamic, Unicode}
use kubecp.Api.Crd.Owned.{Effect}
use kubecp.Api.Websites.Data.{UpdateWebsiteRequest, WebsiteView}
use kubecp.Api.Websites.Handlers.{
  get_website, delete_website, list_aliases, set_website_phase, update_website, add_alias,
  remove_alias, get_website_stats,
}

-- The routes below /{id}, with what the request carries.
pub data WebsiteAction : Type 0 where
  reads removes lists_aliases suspends unsuspends : WebsiteAction
  updates : Option UpdateWebsiteRequest → WebsiteAction
  adds_alias removes_alias : Option String → WebsiteAction
  reads_stats : String → WebsiteAction

unfoldable pub serve_website :
    (d : Dynamic)
    → Unicode
    → Option TokenClaims
    → String
    → WebsiteAction
    → Effect d WebsiteView (Response WebsiteView)
serve_website d u c id reads = get_website d u c id
serve_website d u c id removes = delete_website d u c id
serve_website d u c id lists_aliases = list_aliases d u c id
serve_website d u c id suspends = set_website_phase d u c id "Suspended"
serve_website d u c id unsuspends = set_website_phase d u c id "Running"
serve_website d u c id (updates body) = update_website d u c id body
serve_website d u c id (adds_alias body) = add_alias d u c id body
serve_website d u c id (removes_alias body) = remove_alias d u c id body
serve_website d u c id (reads_stats period) = get_website_stats d u c id period
