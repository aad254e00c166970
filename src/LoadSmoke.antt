-- ===== src/LoadSmoke.antt =====
-- The load test (cmd/cpa-load-smoke/main.go): the checks of a plugin library's version and platform,
-- the two loops that poll the host, and what they accept. The decoding of the host's answers is a
-- parameter; the rounds of a loop are a script of what happened in each.
pub mod Accepts
pub mod Run
pub mod Cleanup
pub mod Removed
use codex_pat.Base.{
  Bool, Bytes, List, Option, [], all, codes, false, if◌then◌else◌, length, none, not, reverse, same,
  some, ℕ, ◌&&◌, ◌==◌, ◌||◌, ◌∷◌,
}
use codex_pat.Credential.AuthData.{is_digit}
use codex_pat.Errors.{Result, err, ok, plain, wrapped}
use codex_pat.Json.{Json}
use codex_pat.Plugin.{registered}

-- `strings.Split` at a byte, with the part that is being read, reversed.
unfoldable pub split_from : ℕ → Bytes → Bytes → List Bytes
split_from sep part [] = reverse part ∷ []
split_from sep part (c ∷ s) =
    let closed = split_from sep [] s in
    let open_part = split_from sep (c ∷ part) s in
    if c == sep then reverse part ∷ closed else open_part

unfoldable pub is_number : Bytes → Bool
is_number [] = false
is_number (c ∷ s) = all is_digit (c ∷ s)

-- `validVersion`.
unfoldable pub valid_version : Bytes → Bool
valid_version version =
    let parts = split_from b'.' [] version in length parts == 3 && all is_number parts

-- `libraryExtension`.
unfoldable pub library_extension : Bytes → Option Bytes
library_extension goos =
    if same goos (codes "linux")
    then some (codes ".so")
    else if same goos (codes "darwin")
    then some (codes ".dylib")
    else if same goos (codes "windows")
    then some (codes ".dll")
    else none

pub record Menu : Type 0 where
  pub path : Bytes
  pub menu : Bytes

pub record Metadata : Type 0 where
  pub name : Bytes
  pub version : Bytes
  pub author : Bytes
  pub git_hub_repository : Bytes

-- An item of `pluginList`.
pub record ListedPlugin : Type 0 where
  pub id : Bytes
  pub registered : Bool
  pub effective_enabled : Bool
  pub menus : List Menu
  pub metadata : Option Metadata

abbrev author : Bytes
author = codes "Ca11back"

abbrev repository_url : Bytes
repository_url = codes "https://github.com/Ca11back/codex-pat"

unfoldable pub has_expected_metadata : Bytes → Option Metadata → Bool
has_expected_metadata version none = false
has_expected_metadata version (some m) =
    same m.name (codes "Codex PAT")
    && same m.version version
    && same m.author author
    && same m.git_hub_repository repository_url

unfoldable pub has_expected_menu : List Menu → Bool
has_expected_menu (m ∷ []) =
    same m.menu (codes "Codex PAT") && same m.path (codes "/v0/resource/plugins/codex-pat/manage")
has_expected_menu _ = false

-- The tests of `waitForRegistration` on one plugin.
unfoldable pub is_expected : Bytes → ListedPlugin → Bool
is_expected version p =
    same p.id (codes "codex-pat")
    && p.registered
    && p.effective_enabled
    && has_expected_metadata version p.metadata
    && has_expected_menu p.menus

abbrev pub any_expected : Bytes → List ListedPlugin → Bool
any_expected version [] = false
any_expected version (p ∷ ps) = is_expected version p || any_expected version ps

-- What a round of a loop meets: the host's process has ended, the time is over, the request fails,
-- or there is an answer, which may not be read to its end.
pub data Round : Type 0 where
  exited timed_out unanswered : Round
  responded : Bool → ℕ → Bytes → Round

abbrev pub is_readable : Bool → ℕ → Bool
is_readable read status = read && status == 200

-- `waitForRegistration`; `none` is a loop that still waits when the script ends.
unfoldable pub wait_for_registration :
    (Bytes → Option (List ListedPlugin)) → Bytes → List Round → Option (Result (Unit {0}))
wait_for_registration read_plugins version [] = none
wait_for_registration read_plugins version (exited ∷ rounds) =
    some (err (plain "CPA exited before registration"))
wait_for_registration read_plugins version (timed_out ∷ rounds) =
    some (err (plain "registration timed out"))
wait_for_registration read_plugins version (unanswered ∷ rounds) =
    wait_for_registration read_plugins version rounds
wait_for_registration read_plugins version (responded read status body ∷ rounds) =
    let rest = wait_for_registration read_plugins version rounds in
    if not (is_readable read status) then rest else elim (read_plugins body) [
      | none ↦ rest
      | some plugins ↦ if any_expected version plugins then some (ok tt) else rest
    ]

-- `validateEmptyStatusResponse`: the accounts of the answer, which may be missing.
unfoldable pub validate_empty_status_response :
    (Bytes → Option (Option (List Json))) → Bytes → Result (Unit {0})
validate_empty_status_response read_status body = elim (read_status body) [
  | none ↦ err (wrapped "decode status host-callback response" (plain "json error"))
  | some none ↦ err (plain "status host-callback response omitted accounts")
  | some (some []) ↦ ok tt
  | some (some (a ∷ as')) ↦
      err (plain "status host-callback response found credentials without a PAT")
]

-- `waitForEmptyStatusHostCallback`.
unfoldable pub wait_for_empty_status_host_callback :
    (Bytes → Option (Option (List Json))) → List Round → Option (Result (Unit {0}))
wait_for_empty_status_host_callback read_status [] = none
wait_for_empty_status_host_callback read_status (exited ∷ rounds) =
    some (err (plain "CPA exited before host callback"))
wait_for_empty_status_host_callback read_status (timed_out ∷ rounds) =
    some (err (plain "status host callback timed out"))
wait_for_empty_status_host_callback read_status (unanswered ∷ rounds) =
    wait_for_empty_status_host_callback read_status rounds
wait_for_empty_status_host_callback read_status (responded read status body ∷ rounds) =
    let rest = wait_for_empty_status_host_callback read_status rounds in
    if not (is_readable read status)
    then rest
    else some (validate_empty_status_response read_status body)
