-- ===== src/Api/Websites/Data.antt =====
-- The requests and responses of websites.go.
use kubecp.Common.{ℤ, String, Bool, Option, List}

pub record WebsiteDomainSsl : Type 0 where
  pub enabled : Bool
  pub mode : String
  pub issuer : String
  pub secret_name : String

-- `WebsiteResources`; an absent map and an empty one are told apart nowhere.
pub record WebsiteResources : Type 0 where
  pub requests : List (String × String)
  pub limits : List (String × String)

-- Its field `php` is that of `WebsitePHP`, the version.
pub record CreateWebsiteRequest : Type 0 where
  pub primary_domain : String
  pub aliases : List String
  pub php : String
  pub php_config_profile : String
  pub ssl : Option WebsiteDomainSsl
  pub replicas : Option ℤ
  pub resources : WebsiteResources
  pub storage_size : String
  pub create_dns_zone : Bool
  pub create_email_domain : Bool

pub record UpdateWebsiteRequest : Type 0 where
  pub aliases : Option (List String)
  pub php : Option String
  pub php_config_profile : String
  pub ssl : Option WebsiteDomainSsl
  pub replicas : Option ℤ
  pub resources : Option WebsiteResources
  pub storage_size : String

pub record WebsiteDomainStatus : Type 0 where
  pub name : String
  pub certificate_status : String
  pub certificate_expiry : String

pub record WebsiteStatusInfo : Type 0 where
  pub phase : String
  pub replicas : ℤ
  pub ready_replicas : ℤ
  pub domains : List WebsiteDomainStatus

pub record WebsiteResponse : Type 0 where
  pub id : String
  pub name : String
  pub namespace : String
  pub primary_domain : String
  pub aliases : List String
  pub owner : String
  pub php : String
  pub php_config_profile : String
  pub ssl : Option WebsiteDomainSsl
  pub replicas : ℤ
  pub resources : WebsiteResources
  pub storage_size : String
  pub status : WebsiteStatusInfo
  pub created_at : String

-- What a response carries as JSON.
pub data WebsiteView : Type 0 where
  website_view : WebsiteResponse → WebsiteView
  websites_view : List WebsiteResponse → WebsiteView
  aliases_view : List String → WebsiteView
  phase_view : String → String → WebsiteView
  stats_view : String → String → WebsiteView
