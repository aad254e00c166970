-- ===== src/Tests/Loads.antt =====
-- A load of version 1.2.3.
use codex_pat.Base.{[], codes, refl, same, some, true, ◌∷◌, ◌≡◌}
use codex_pat.Credential.AuthData.{is_digit}
use codex_pat.Errors.{ok}
use codex_pat.LoadSmoke.{
  ListedPlugin, exited, is_number, responded, split_from, unanswered, valid_version,
  wait_for_registration,
}
use codex_pat.LoadSmoke.Accepts.{Lists, wait_for_registration_accepts}
use codex_pat.Management.Assets.{register}
use codex_pat.Plugin.{new_registration}
use codex_pat.Text.Trim.{trim}

abbrev pub listed : ListedPlugin
listed = record {
  id = codes "codex-pat";
  registered = true;
  effective_enabled = true;
  menus =
      record { path = codes "/v0/resource/plugins/codex-pat/manage"; menu = codes "Codex PAT" }
      ∷ [];
  metadata = some (record {
    name = codes "Codex PAT";
    version = codes "1.2.3";
    author = codes "Ca11back";
    git_hub_repository = codes "https://github.com/Ca11back/codex-pat";
  });
}

listed-Lists : Lists listed (new_registration (codes "1.2.3")) register
unfolding new_registration same trim
listed-Lists = record {
  id_is = refl;
  is_registered = refl;
  is_enabled = refl;
  metadata_is = refl;
  menus_are = refl;
}

version_run : valid_version (codes "1.2.3") ≡ true
unfolding valid_version split_from is_number is_digit
version_run = refl

wait_for_registration_accepts_example :
    wait_for_registration
      (λ body. some (listed ∷ []))
      (codes "1.2.3")
      (unanswered ∷ responded true 503 [] ∷ responded true 200 (codes "p") ∷ exited ∷ [])
    ≡ some (ok tt)
wait_for_registration_accepts_example =
    wait_for_registration_accepts (λ body. some (listed ∷ [])) (codes "1.2.3") listed [] []
      (unanswered ∷ responded true 503 [] ∷ []) (exited ∷ []) (codes "p") version_run listed-Lists
      refl (tt, (tt, tt))
