-- ===== src/Tests/Pages.antt =====
-- The pages and the routes.
use mathlib.Core.List.{Perm}
use codex_pat.Base.{
  Bytes, List, Option, [], codes, inl, refl, same, some, true, ◌↔◌, ◌∷◌, ◌≡◌, ◌≢◌, ◌⊎◌,
}
use codex_pat.Errors.{Error, err, ok}
use codex_pat.Host.{Host}
use codex_pat.Json.{lookup}
use codex_pat.Management.{
  AccountStatus, Response, accounts, json_error_response, not_found, request_path, resource, route,
}
use codex_pat.Management.Assets.{Page, asset_headers, asset_response, resource_response}
use codex_pat.Management.Assets.Routes.{is_registered, route_registered}
use codex_pat.Management.Encoding.{to_page}
use codex_pat.Management.Encoding.Guarded.{IsConfined, to_page-IsConfined}
use codex_pat.Management.Handler.{handle_status}
use codex_pat.Management.Handler.Listing.{collected, handle_status_sorts}
use codex_pat.Tests.Machine.{live_host, machine, service, zero_file}
use codex_pat.Text.Case.{to_lower, to_upper}
use codex_pat.Text.Order.Sorted.{IsSorted}
use codex_pat.Text.Trim.{trim}

route_registered_example :
    (route machine (codes " get") (codes "/v0/resource/plugins/codex-pat/manage/") ≢ not_found) ↔ (
      is_registered
        (to_upper machine (trim (codes " get")))
        (request_path (codes "/v0/resource/plugins/codex-pat/manage/"))
      ≡ true)
route_registered_example =
    route_registered machine (codes " get") (codes "/v0/resource/plugins/codex-pat/manage/")

abbrev embedded : Bytes → Option Bytes
embedded file = some (codes "text")

abbrev script : Page
script = record {
  status_code = 200;
  headers =
      (codes "Content-Type", codes "text/javascript; charset=utf-8")
      ∷ (codes "Cache-Control", codes "no-cache")
      ∷ (codes "X-Content-Type-Options", codes "nosniff")
      ∷ (codes "Referrer-Policy", codes "no-referrer")
      ∷ [];
  body = codes "text";
}

script_run :
    resource_response embedded (codes "/v0/resource/plugins/codex-pat/assets/app.js")
    ≡ some (inl script)
unfolding resource_response asset_response asset_headers lookup same
script_run = refl

abbrev script_response : Response
script_response = record {
  status_code = 200;
  body = resource (codes "/v0/resource/plugins/codex-pat/assets/app.js");
}

page_run : to_page machine embedded script_response ≡ script
unfolding to_page resource_response asset_response asset_headers lookup same
page_run = refl

to_page-IsConfined_example : IsConfined (to_page machine embedded script_response).headers
to_page-IsConfined_example = to_page-IsConfined machine embedded script_response

abbrev listing_host : Host
listing_host = record live_host {
  auth_list = λ w. (ok (zero_file ∷ record zero_file { name = codes "a.json" } ∷ []), w);
}

handle_status_sorts_example :
    ((found : List AccountStatus) × (shown : List AccountStatus) × ((collected machine listing_host
          service 0 0).0
        ≡ ok found)
      × ((handle_status machine listing_host service 0 0).0
          ≡ ok (record { status_code = 200; body = accounts shown }))
      × Perm shown found
      × IsSorted (λ (a : AccountStatus). to_lower machine a.name) shown)
    ⊎ ((e : Error) × ((collected machine listing_host service 0 0).0 ≡ err e)
        × ((handle_status machine listing_host service 0 0).0
            ≡ ok (
                json_error_response 503 "host_unavailable"
                  "Credential status is temporarily unavailable." true)))
handle_status_sorts_example = handle_status_sorts machine listing_host service 0 0
