-- ===== src/Management/Assets/Headers.antt =====
-- The headers of the pages.
use mathlib.Core.Option
use codex_pat.Base.{
  All, Bool, Bool-cases, Bytes, Option, [], arith, codes, eq_of_same, false, if◌then◌else◌, inl,
  inr, map, none, refl, same, same_refl, some, some_injective, subst, sym, true, ◌++◌, ◌||◌, ◌∷◌,
  ◌≡◌, ◌⊎◌,
}
use codex_pat.Json.{Dict, insert, lookup}
use codex_pat.Management.{is_listed, json_error_response, resource_paths}
use codex_pat.Management.Assets.{
  Asset, Page, asset_headers, asset_response, assets_by_path, csp_header, html_type,
  resource_response,
}

lookup_All :
    {V : Type 0} (P : V → Type 0) (k : Bytes) (m : Dict V) {v : V}
    → All (λ (e : Bytes × V). P e.1) m
    → lookup k m ≡ some v
    → P v
unfolding lookup
lookup_All P k [] h e = cc
lookup_All {V} P k ((j, w) ∷ m) {v} (p, h) e = by_key (same j k) e (lookup_All P k m h)
  where
    by_key :
        (t : Bool) → (if t then some w else lookup k m) ≡ some v → (lookup k m ≡ some v → P v) → P v
    by_key true e h = subst P (some_injective e) p
    by_key false e h = h e

-- A key that is found is one of the keys.
lookup-is_listed :
    {V : Type 0} (k : Bytes) (m : Dict V) {v : V}
    → lookup k m ≡ some v
    → is_listed k (map (λ (e : Bytes × V). e.0) m) ≡ true
unfolding lookup is_listed
lookup-is_listed k [] e = cc
lookup-is_listed {V} k ((j, w) ∷ m) {v} e = by_key (Bool-cases (same j k)) e (lookup-is_listed k m)
  where
    by_key :
        (same j k ≡ true) ⊎ (same j k ≡ false)
        → (if same j k then some w else lookup k m) ≡ some v
        → (lookup k m ≡ some v → is_listed k (map (λ (e : Bytes × V). e.0) m) ≡ true)
        → (same k j || is_listed k (map (λ (e : Bytes × V). e.0) m)) ≡ true
    by_key (inl t) e h = rw (sym (eq_of_same j k t), same_refl j) refl
    by_key (inr t) e h =
        let listed = h (subst (λ b. (if b then some w else lookup k m) ≡ some v) t e) in
        ground arith

-- What the headers of a page say: no type is guessed, nothing is referred to, and HTML comes with a
-- content security policy that allows nothing but what it names.
abbrev pub IsGuarded : Dict Bytes → Type 0
IsGuarded headers =
    (lookup (codes "X-Content-Type-Options") headers ≡ some (codes "nosniff"))
    × (lookup (codes "Referrer-Policy") headers ≡ some (codes "no-referrer"))
    × (lookup (codes "Content-Type") headers ≡ some html_type
        → lookup csp_header headers
          ≡ some (
              codes "default-src 'none'; script-src 'self'; style-src 'self'; img-src 'self'; "
              ++ codes
                  "connect-src 'self'; base-uri 'none'; form-action 'none'; frame-ancestors 'self'"))

assets-IsGuarded : All (λ (e : Bytes × Asset). IsGuarded (asset_headers e.1)) assets_by_path
unfolding asset_headers lookup insert same
assets-IsGuarded = (
  (refl, refl, λ h. refl),
  (
    (refl, refl, λ h. cc),
    (
      (refl, refl, λ h. cc),
      ((refl, refl, λ h. cc), ((refl, refl, λ h. cc), ((refl, refl, λ h. cc), tt))),
    ),
  ),
)

-- Every page that is handed out has a path that is registered as a resource, and its headers guard
-- it: its type is not guessed, it sends no referrer, and HTML comes with the policy that lets only
-- the plugin's own scripts, styles, images and requests through.
pub resource_response-IsGuarded :
    (embedded : Bytes → Option Bytes) (path : Bytes) {page : Page}
    → resource_response embedded path ≡ some (inl page)
    → (is_listed path resource_paths ≡ true) × IsGuarded page.headers
unfolding resource_response asset_response
resource_response-IsGuarded embedded path {page} e = by_asset (lookup path assets_by_path) refl e
  where
    by_page :
        (a : Asset) (o : Option Bytes)
        → elim o [
          | none ↦
              inr (json_error_response 500 "asset_unavailable" "The resource is unavailable." false)
          | some body ↦ inl (record { status_code = 200; headers = asset_headers a; body = body })
        ]
          ≡ inl page
        → asset_headers a ≡ page.headers
    by_page a none e = cc
    by_page a (some body) e = cc

    by_asset :
        (o : Option Asset)
        → lookup path assets_by_path ≡ o
        → Option.map (asset_response embedded) o ≡ some (inl page)
        → (is_listed path resource_paths ≡ true) × IsGuarded page.headers
    by_asset none f e = cc
    by_asset (some a) f e = (
      lookup-is_listed path assets_by_path f,
      subst IsGuarded (by_page a (embedded a.file) (some_injective e))
          (lookup_All (λ x. IsGuarded (asset_headers x)) path assets_by_path assets-IsGuarded f),
    )
