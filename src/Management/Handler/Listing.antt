-- ===== src/Management/Handler/Listing.antt =====
-- The response of the status route: the statuses of the host's files, in the order of their names.
use mathlib.Core.List.{Perm}
use codex_pat.Base.{List, ap, inl, inr, refl, true, ℕ, ◌∙◌, ◌≡◌, ◌⊎◌}
use codex_pat.Errors.{Error, Result-cases, err, ok}
use codex_pat.Exec.{Exec, attempt, pure, ◌>>=◌}
use codex_pat.Host.{Host}
use codex_pat.Management.{AccountStatus, accounts, json_error_response}
use codex_pat.Management.Handler.{handle_status, list_statuses, sort_statuses, status_response}
use codex_pat.Platform.{Platform}
use codex_pat.Service.{Settings}
use codex_pat.Text.Case.{to_lower}
use codex_pat.Text.Order.Sorted.{IsSorted, sort_by-IsSorted, sort_by-perm}

module _ (go : Platform) (h : Host) (service : Settings) (fuel : ℕ) where
  abbrev pub collected : Exec h.World (List AccountStatus)
  collected = h.auth_list >>= list_statuses go h service fuel

  handle_status_lem :
      (w : h.World)
      → (handle_status go h service fuel w).0
        ≡ ok (status_response go h service fuel (collected w).0)
  unfolding handle_status attempt pure ◌>>=◌
  handle_status_lem w = refl

  -- A status request is answered with 200 and the statuses that the host's files have, each as often
  -- as it was found, no name in small letters before a smaller one; or, where the host fails, with
  -- 503 and an error that may be retried.
  pub handle_status_sorts :
      (w : h.World)
      → ((found : List AccountStatus) × (shown : List AccountStatus) × ((collected w).0 ≡ ok found)
          × ((handle_status go h service fuel w).0
              ≡ ok (record { status_code = 200; body = accounts shown }))
          × Perm shown found
          × IsSorted (λ (a : AccountStatus). to_lower go a.name) shown)
        ⊎ ((e : Error) × ((collected w).0 ≡ err e)
            × ((handle_status go h service fuel w).0
                ≡ ok (
                    json_error_response 503 "host_unavailable"
                      "Credential status is temporarily unavailable." true)))
  unfolding sort_statuses
  handle_status_sorts w = elim (Result-cases (collected w).0) [
    | inl (found, e) ↦ inl (
      found,
      sort_statuses go found,
      e,
      handle_status_lem w ∙ ap (λ r. ok (status_response go h service fuel r)) e,
      sort_by-perm (λ (a : AccountStatus). to_lower go a.name) found,
      sort_by-IsSorted (λ (a : AccountStatus). to_lower go a.name) found,
    )
    | inr (x, e) ↦
        inr (x, e, handle_status_lem w ∙ ap (λ r. ok (status_response go h service fuel r)) e)
  ]
