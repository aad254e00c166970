-- ===== src/Service/Save.antt =====
-- Saving, importing and revalidating (internal/pat/service.go). The fuel is that of the two waits;
-- a wait that runs out of it is an error of its own, told apart from those of the code.
pub mod Outcomes
pub mod Imports
pub mod Trace
pub mod Written
pub mod Stores
use codex_pat.Abi.HostCall.{answer}
use codex_pat.Base.{Bool, Bytes, [], false, if◌then◌else◌, not, same, true, ℕ}
use codex_pat.Credential.{
  Credential, apply_identity, disable, new_credential, validate, validation_invalid,
  validation_mismatch,
}
use codex_pat.Credential.Codec.{marshal}
use codex_pat.Errors.{
  Error, Result, err, invalid_input, is_authentication_failure, no_error, ok, pat, plain,
}
use codex_pat.Exec.{Exec, attempt, lift, or_raise, pure, raise, refuse_if, ◌>>=◌, ◌>>◌}
use codex_pat.FileName.{file_name, same_principal}
use codex_pat.Host.{Host}
use codex_pat.Platform.{Platform}
use codex_pat.Resolve.{resolve_file_name}
use codex_pat.Service.{
  Outcome, RevalidationResult, SaveResult, Settings, account_mismatch_found,
  fail_closed_host_payload, failure, invalid, rewrite_secured_credential, valid, validate_token,
}
use codex_pat.Service.Watcher.{await_watcher_persistence, await_watcher_stage}
use codex_pat.Text.Trim.{trim}
use codex_pat.Whoami.{Identity, normalize_token}

abbrev pub out_of_fuel : Error
out_of_fuel = plain "out of fuel"

-- The result of a wait.
abbrev pub ended : Bool → Result (Unit {0})
ended true = ok tt
ended false = err out_of_fuel

module _ (go : Platform) (h : Host) (service : Settings) (fuel : ℕ) where
  abbrev pub encode_payload : Bytes → Exec h.World Bytes
  encode_payload raw =
      or_raise (failure "PAT credential could not be encoded")
        (lift (fail_closed_host_payload go raw))

  abbrev pub await_stage : Bytes → Bytes → Exec h.World (Unit {0})
  await_stage name path =
      or_raise (failure "PAT credential staging did not reach stable host storage")
        (do done ← await_watcher_stage go h service fuel path name; lift (ended done))

  abbrev pub await_persistence : Bytes → Bytes → Bool → Bytes → Exec h.World (Unit {0})
  await_persistence name path disabled raw =
      or_raise (failure "PAT credential did not reach stable host storage") (do
        done ← await_watcher_persistence go h service fuel path name disabled raw
        lift (ended done))

  -- `saveCredential`.
  unfoldable pub save_credential : Credential → Bytes → Exec h.World SaveResult
  save_credential c preferred = do
    or_raise (failure "PAT credential is incomplete") (lift (validate go c))
    name ←
        or_raise (failure "PAT credential filename could not be resolved")
          (resolve_file_name go c h preferred)
    let raw = marshal go c
    payload ← encode_payload raw
    saved ← or_raise (failure "PAT credential could not be saved") (h.auth_save name payload)
    refuse_if (not (same (trim saved.name) name))
        (failure "PAT credential store returned an unexpected file" no_error)
    await_stage name saved.path
    or_raise (failure "PAT credential permissions could not be secured")
        (rewrite_secured_credential go h saved.path name raw)
    await_persistence name saved.path c.disabled raw
    pure (record { credential = c; file_name = name; path = saved.path })

  abbrev read_clock : Exec h.World ℕ
  read_clock w = (ok (h.time_now w), w)

  -- `Import`.
  unfoldable pub import_token : Bytes → Exec h.World SaveResult
  import_token raw_token = do
    token ← lift (normalize_token raw_token)
    identity ← validate_token go h service token
    now ← read_clock
    save_credential (new_credential token identity now) []

  -- Saves a credential of `Revalidate`, and names the outcome.
  unfoldable pub save_as : Outcome → Credential → Bytes → Exec h.World RevalidationResult
  save_as o c name = do saved ← save_credential c name; pure (record { outcome = o; saved = saved })

  -- `Revalidate` behind the validation of the token.
  unfoldable pub conclude : Credential → Bytes → Result Identity → Exec h.World RevalidationResult
  conclude c name (err e) =
      if not (is_authentication_failure e)
      then raise e
      else do now ← read_clock; save_as invalid (disable c validation_invalid now) name
  conclude c name (ok identity) =
      if not (same_principal identity.account_id identity.user_id c.account_id c.chatgpt_user_id)
      then (do
        now ← read_clock
        save_as account_mismatch_found (disable c validation_mismatch now) name)
      else (do now ← read_clock; save_as valid (apply_identity c identity now) name)

  -- `Revalidate`.
  unfoldable pub revalidate : Credential → Bytes → Exec h.World RevalidationResult
  revalidate c name = do
    or_raise (λ e. pat invalid_input "saved PAT credential is malformed" 0 false e)
        (lift (validate go c))
    answer ← attempt (validate_token go h service c.access_token)
    conclude c name answer
