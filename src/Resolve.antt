-- ===== src/Resolve.antt =====
-- The choice of a file name for a credential (internal/pat/service.go, `resolveFileName`).
pub mod Safe
use codex_pat.Base.{
  Bool, Bytes, List, Option, [], false, if◌then◌else◌, none, not, same, some, ◌&&◌, ◌||◌, ◌∷◌,
}
use codex_pat.Credential.{Credential, provider_codex}
use codex_pat.Credential.Codec.{Ownership, decode_owned_credential, foreign, owned, unreadable}
use codex_pat.Errors.{Result, err, ok, plain}
use codex_pat.Exec.{Exec, lift, or_raise, pure, raise, refuse_if, ◌>>=◌, ◌>>◌}
use codex_pat.FileName.{
  file_name, is_owned_file, is_owned_file_for_principal, is_safe_auth_file_name, parse_owned_file,
  principal_hash, same_principal,
}
use codex_pat.Host.{FileEntry, Host, PhysicalFile}
use codex_pat.Json.{Dict, insert, lookup}
use codex_pat.Platform.{Platform}
use codex_pat.Text.Case.{equal_fold, to_lower}
use codex_pat.Text.Trim.{trim}

-- What the loop over the host's files has found: whether the canonical name is taken, and
-- `samePrincipalFiles`, the plugin's own files for the principal by their lower-case names.
pub record Survey : Type 0 where
  pub occupied : Bool
  pub same_principal_files : Dict Bytes

abbrev pub nothing_found : Survey
nothing_found = record { occupied = false; same_principal_files = [] }

abbrev pub or_else : Bytes → Bytes → Bytes
or_else [] other = other
or_else (c ∷ s) other = c ∷ s

abbrev pub clashes : Option Bytes → Bytes → Bool
clashes none name = false
clashes (some current) name = not (same current name)

module _ (go : Platform) (c : Credential) where
  abbrev pub canonical_name : Bytes
  canonical_name = file_name go c.account_id c.chatgpt_user_id c.email c.plan_type

  abbrev pub current_hash : Bytes
  current_hash = principal_hash go c.account_id c.chatgpt_user_id

  -- `samePrincipalFiles[key] = physicalName`, or the error where the names differ by case.
  unfoldable pub record_file : Bytes → Survey → Result Survey
  record_file name f =
      let key = to_lower go name in
      if clashes (lookup key f.same_principal_files) name
      then err (plain "same-principal auth filenames differ only by case")
      else ok (record f { same_principal_files = insert key name f.same_principal_files })

  -- The last test: a name in the plugin's style with the principal's hash.
  abbrev pub check_hash : Bytes → Survey → Result Survey
  check_hash name f = elim (parse_owned_file go name) [
    | none ↦ ok f
    | some hash ↦
        if same hash current_hash
        then err (plain "same-principal plugin filename cannot be safely reused")
        else ok f
  ]

  -- The branches on `existing, owned, decodeErr`.
  unfoldable pub classify : Bytes → Survey → Ownership → Result Survey
  classify name f (owned (ok existing)) =
      if is_owned_file go name
        && not (is_owned_file_for_principal go name existing.account_id existing.chatgpt_user_id)
      then err (plain "plugin-owned auth filename does not match its principal")
      else if same_principal existing.account_id existing.chatgpt_user_id c.account_id
          c.chatgpt_user_id
      then (if is_owned_file go name then record_file name f else ok f)
      else if is_owned_file go name
          && (same (trim existing.account_id) [] || same (trim existing.chatgpt_user_id) [])
      then err (plain "plugin-owned auth file is malformed")
      else check_hash name f
  classify name f (owned (err e)) =
      if is_owned_file go name
      then err (plain "plugin-owned auth file is malformed")
      else check_hash name f
  classify name f unreadable = check_hash name f
  classify name f foreign = ok f

  -- What follows `AuthGet`.
  unfoldable pub inspect_physical : Bytes → Survey → PhysicalFile → Result Survey
  inspect_physical name f physical =
      let physical_name = or_else (trim physical.name) name in
      if not (is_safe_auth_file_name go physical_name)
      then err (plain "candidate auth filename is invalid")
      else classify physical_name
          (record f { occupied = f.occupied || equal_fold go physical_name canonical_name })
          (decode_owned_credential go physical.json)

  abbrev pub is_candidate : Bytes → Bytes → Bool
  is_candidate provider name =
      equal_fold go provider provider_codex
      || is_owned_file go name
      || equal_fold go name canonical_name

  -- The end of the function, where no name is preferred.
  unfoldable pub choose_any : Survey → Result Bytes
  choose_any f = elim f.same_principal_files [
    | [] ↦
        if f.occupied
        then err (plain "canonical auth filename is already occupied")
        else ok canonical_name
    | (key, name) ∷ others ↦ elim others [
      | [] ↦ ok name
      | other ∷ rest ↦ err (plain "multiple PAT files exist for the principal")
    ]
  ]

  unfoldable pub find_preferred : Bytes → Dict Bytes → Result Bytes
  find_preferred preferred [] = err (plain "preferred auth file is not owned by the principal")
  find_preferred preferred ((key, name) ∷ files) =
      if equal_fold go name preferred then ok name else find_preferred preferred files

  abbrev pub choose : Bytes → Survey → Result Bytes
  choose [] f = choose_any f
  choose (d ∷ preferred) f = find_preferred (d ∷ preferred) f.same_principal_files

  module _ (h : Host) where
    -- `AuthGet` of a candidate, and the rest of the round.
    unfoldable pub read_candidate : Bytes → Bytes → Survey → Exec h.World Survey
    read_candidate index name f = do
      physical ← or_raise (λ _. plain "inspect candidate auth file") (h.auth_get index)
      lift (inspect_physical name f physical)

    -- One round of the loop.
    unfoldable pub inspect_file : FileEntry → Survey → Exec h.World Survey
    inspect_file file f =
        let name = trim file.name in
        let f' = record f { occupied = f.occupied || equal_fold go name canonical_name } in
        let provider = or_else (trim file.provider) (trim file.type_name) in
        let index = trim file.auth_index in
        if file.runtime_only
        then pure f
        else if same name []
        then pure f
        else if not (is_candidate provider name)
        then pure f'
        else if same index []
        then raise (plain "candidate auth file has no stable index")
        else read_candidate index name f'

    unfoldable pub survey : List FileEntry → Survey → Exec h.World Survey
    survey [] f = pure f
    survey (file ∷ files) f = do f' ← inspect_file file f; survey files f'

    -- `resolveFileName`.
    unfoldable pub resolve_file_name : Bytes → Exec h.World Bytes
    resolve_file_name raw_preferred = do
      let preferred = trim raw_preferred
      refuse_if (not (same preferred []) && not (is_safe_auth_file_name go preferred))
          (plain "preferred auth filename is invalid")
      files ← or_raise (λ _. plain "list existing auth files") h.auth_list
      found ← survey files nothing_found
      lift (choose preferred found)
