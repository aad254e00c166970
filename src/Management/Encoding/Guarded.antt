-- ===== src/Management/Encoding/Guarded.antt =====
-- The headers of every response, pages and JSON.
use mathlib.Core.Option
use codex_pat.Abi.HostCall.{answer}
use codex_pat.Base.{Bytes, Option, codes, inl, inr, none, refl, same, some, ◌++◌, ◌≡◌, ◌⊎◌}
use codex_pat.Json.{Dict, lookup}
use codex_pat.Management.{Body, Response, account, accounts, problem, resource}
use codex_pat.Management.Assets.{Page, csp_header, html_type, resource_response}
use codex_pat.Management.Assets.Headers.{resource_response-IsGuarded}
use codex_pat.Management.Encoding.{
  body_json, json_headers, json_page, json_response, page_by_body, resource_page, to_page,
}
use codex_pat.Platform.{Platform}

-- No type is guessed, and HTML comes with the policy that lets only the plugin's own scripts, styles,
-- images and requests through.
abbrev pub IsConfined : Dict Bytes → Type 0
IsConfined headers =
    (lookup (codes "X-Content-Type-Options") headers ≡ some (codes "nosniff"))
    × (lookup (codes "Content-Type") headers ≡ some html_type
        → lookup csp_header headers
          ≡ some (
              codes "default-src 'none'; script-src 'self'; style-src 'self'; img-src 'self'; "
              ++ codes
                  "connect-src 'self'; base-uri 'none'; form-action 'none'; frame-ancestors 'self'"))

json_headers-IsConfined : IsConfined json_headers
unfolding lookup same
json_headers-IsConfined = (refl, λ h. cc)

module _ (go : Platform) (embedded : Bytes → Option Bytes) where
  json_page-IsConfined : (r : Response) → IsConfined (json_page go embedded r).headers
  unfolding json_page json_response
  json_page-IsConfined r = by_text (Option.map go.json_text (body_json r.body))
    where
      by_text : (o : Option Bytes) → IsConfined (json_response r.status_code o).headers
      by_text none = json_headers-IsConfined
      by_text (some raw) = json_headers-IsConfined

  -- Whatever the management handler answers, a page, data or an error, the headers say that its type
  -- is not guessed, and HTML comes with the policy that lets only the plugin's own scripts, styles,
  -- images and requests through.
  pub to_page-IsConfined : (r : Response) → IsConfined (to_page go embedded r).headers
  unfolding to_page
  to_page-IsConfined r = by_body r.body
    where
      by_resource :
          (path : Bytes) (o : Option (Page ⊎ Response))
          → resource_response embedded path ≡ o
          → IsConfined (resource_page go embedded o r).headers
      by_resource path none e = json_page-IsConfined r
      by_resource path (some (inl page)) e =
          let guarded = (resource_response-IsGuarded embedded path e).1 in (guarded.0, guarded.2)
      by_resource path (some (inr answer)) e = json_page-IsConfined answer

      by_body : (b : Body) → IsConfined (page_by_body go embedded r b).headers
      by_body (resource path) = by_resource path (resource_response embedded path) refl
      by_body (account a) = json_page-IsConfined r
      by_body (accounts as') = json_page-IsConfined r
      by_body (problem code message retryable) = json_page-IsConfined r
