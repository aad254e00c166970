-- ===== src/Management/Assets.antt =====
-- The embedded pages (internal/management/assets.go) and the registration of the routes
-- (internal/management/handler.go, `Register`). The embedded files are a parameter.
pub mod Routes
pub mod Headers
use mathlib.Core.Option
use codex_pat.Base.{
  Bytes, List, Option, [], codes, false, if◌then◌else◌, inl, inr, none, same, some, ℕ, ◌++◌, ◌∷◌,
  ◌⊎◌,
}
use codex_pat.Json.{Dict, insert, lookup}
use codex_pat.Management.{
  Response, json_error_response, management_import_path, management_revalidate_path,
  management_status_path,
}

-- `asset`.
pub record Asset : Type 0 where
  pub file : Bytes
  pub content_type : Bytes
  pub csp : Bytes

abbrev pub html_type : Bytes
html_type = codes "text/html; charset=utf-8"

abbrev svg : Bytes → Asset
svg name = record { file = name; content_type = codes "image/svg+xml"; csp = [] }

-- `assetsByPath`.
abbrev pub assets_by_path : Dict Asset
assets_by_path =
    (
      codes "/v0/resource/plugins/codex-pat/manage",
      record {
        file = codes "assets/index.html";
        content_type = html_type;
        csp =
            codes "default-src 'none'; script-src 'self'; style-src 'self'; img-src 'self'; "
            ++ codes
                "connect-src 'self'; base-uri 'none'; form-action 'none'; frame-ancestors 'self'";
      },
    )
    ∷ (
      codes "/v0/resource/plugins/codex-pat/assets/app.css",
      record {
        file = codes "assets/app.css";
        content_type = codes "text/css; charset=utf-8";
        csp = [];
      },
    )
    ∷ (
      codes "/v0/resource/plugins/codex-pat/assets/app.js",
      record {
        file = codes "assets/app.js";
        content_type = codes "text/javascript; charset=utf-8";
        csp = [];
      },
    )
    ∷ (
      codes "/v0/resource/plugins/codex-pat/assets/icons/refresh-cw.svg",
      svg (codes "assets/icons/refresh-cw.svg"),
    )
    ∷ (
      codes "/v0/resource/plugins/codex-pat/assets/icons/trash-2.svg",
      svg (codes "assets/icons/trash-2.svg"),
    )
    ∷ (
      codes "/v0/resource/plugins/codex-pat/assets/icons/key-round.svg",
      svg (codes "assets/icons/key-round.svg"),
    )
    ∷ []

-- `pluginapi.ManagementResponse` of a page.
pub record Page : Type 0 where
  pub status_code : ℕ
  pub headers : Dict Bytes
  pub body : Bytes

abbrev base_headers : Bytes → Dict Bytes
base_headers content_type =
    (codes "Content-Type", content_type)
    ∷ (codes "Cache-Control", codes "no-cache")
    ∷ (codes "X-Content-Type-Options", codes "nosniff")
    ∷ (codes "Referrer-Policy", codes "no-referrer")
    ∷ []

abbrev pub csp_header : Bytes
csp_header = codes "Content-Security-Policy"

unfoldable pub asset_headers : Asset → Dict Bytes
asset_headers a =
    if same a.csp []
    then base_headers a.content_type
    else insert csp_header a.csp (base_headers a.content_type)

module _ (embedded : Bytes → Option Bytes) where
  -- A page, or the response where the file cannot be read.
  unfoldable pub asset_response : Asset → Page ⊎ Response
  asset_response a = elim (embedded a.file) [
    | none ↦ inr (json_error_response 500 "asset_unavailable" "The resource is unavailable." false)
    | some body ↦ inl (record { status_code = 200; headers = asset_headers a; body = body })
  ]

  -- `resourceResponse`; `none` is a path without a resource.
  unfoldable pub resource_response : Bytes → Option (Page ⊎ Response)
  resource_response path = Option.map asset_response (lookup path assets_by_path)

-- `pluginapi.ManagementRoute` and `pluginapi.ResourceRoute`.
pub record ManagementRoute : Type 0 where
  pub method : Bytes
  pub path : Bytes

pub record ResourceRoute : Type 0 where
  pub path : Bytes
  pub menu : Bytes
  pub description : Bytes

pub record ManagementRegistration : Type 0 where
  pub routes : List ManagementRoute
  pub resources : List ResourceRoute

abbrev plain_resource : Bytes → ResourceRoute
plain_resource path = record { path = path; menu = []; description = [] }

-- `Register`.
abbrev pub register : ManagementRegistration
register = record {
  routes =
      record { method = codes "POST"; path = management_import_path }
      ∷ record { method = codes "GET"; path = management_status_path }
      ∷ record { method = codes "POST"; path = management_revalidate_path }
      ∷ [];
  resources =
      record {
        path = codes "/v0/resource/plugins/codex-pat/manage";
        menu = codes "Codex PAT";
        description = codes "Manage Codex PAT credentials.";
      }
      ∷ plain_resource (codes "/v0/resource/plugins/codex-pat/assets/app.css")
      ∷ plain_resource (codes "/v0/resource/plugins/codex-pat/assets/app.js")
      ∷ plain_resource (codes "/v0/resource/plugins/codex-pat/assets/icons/refresh-cw.svg")
      ∷ plain_resource (codes "/v0/resource/plugins/codex-pat/assets/icons/trash-2.svg")
      ∷ plain_resource (codes "/v0/resource/plugins/codex-pat/assets/icons/key-round.svg")
      ∷ [];
}
