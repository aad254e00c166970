-- ===== src/Management/Assets/Routes.antt =====
-- What is registered is what is answered.
use codex_pat.Base.{
  Bool, Bytes, List, [], arith, codes, false, if◌then◌else◌, map, refl, same, true, ◌&&◌, ◌||◌, ◌↔◌,
  ◌∷◌, ◌≡◌, ◌≢◌,
}
use codex_pat.Management.{
  is_listed, not_found, request_path, route, to_import, to_resource, to_revalidate, to_status,
}
use codex_pat.Management.Assets.{ManagementRoute, ResourceRoute, register}
use codex_pat.Platform.{Platform}
use codex_pat.Text.Case.{to_upper}
use codex_pat.Text.Trim.{trim}

abbrev any_route : Bytes → Bytes → List ManagementRoute → Bool
any_route method path [] = false
any_route method path (r ∷ rs) =
    same method r.method && same path r.path || any_route method path rs

-- A route with the method, or a resource, which is for GET.
abbrev pub is_registered : Bytes → Bytes → Bool
is_registered method path =
    any_route method path register.routes
    || same method (codes "GET")
      && is_listed path (map (λ (r : ResourceRoute). r.path) register.resources)

-- The four tests of `Handle`, in its order.
tests_registered :
    (a b c d : Bool) (path : Bytes)
    → ((if a
          then to_resource path
          else if b
          then to_import
          else if c
          then to_status
          else if d
          then to_revalidate
          else not_found)
        ≢ not_found)
      ↔ ((b || (c || (d || false)) || a) ≡ true)
tests_registered true b c d path = ((λ h. ground arith), λ h e. cc)
tests_registered false true c d path = ((λ h. ground arith), λ h e. cc)
tests_registered false false true d path = ((λ h. refl), λ h e. cc)
tests_registered false false false true path = ((λ h. refl), λ h e. cc)
tests_registered false false false false path = ((λ h. absurd (h refl)), λ h e. cc)

-- A request is answered by something else than the code for an unknown route exactly if its method,
-- trimmed and in capital letters, and its path, trimmed and without slashes at its end, are registered.
pub route_registered :
    (go : Platform) (method path : Bytes)
    → (route go method path ≢ not_found)
      ↔ (is_registered (to_upper go (trim method)) (request_path path) ≡ true)
unfolding route
route_registered go raw_method raw_path = tests_registered _ _ _ _ (request_path raw_path)
