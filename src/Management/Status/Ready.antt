-- ===== src/Management/Status/Ready.antt =====
-- What the status of a file is worth: which files are shown, and which are shown as ready.
use codex_pat.Base.{
  Bytes, Option, [], arith, codes, false, none, not, same, some, true, ℕ, ◌&&◌, ◌||◌, ◌∷◌, ◌≡◌,
}
use codex_pat.Credential.{Credential, is_valid, provider_codex}
use codex_pat.Credential.Codec.{Ownership, foreign, owned, unreadable}
use codex_pat.Errors.{Result, err, ok}
use codex_pat.Exec.{Returns, Returns-bind, Returns-if, Returns-pure, Returns-then}
use codex_pat.FileName.{is_owned_file, is_owned_file_for_principal}
use codex_pat.Host.{FileEntry, Host, PhysicalFile}
use codex_pat.Management.{AccountStatus, status_from_credential}
use codex_pat.Management.Status.{
  broken, credential_status, live_status, owned_status, physical_status, runtime_readiness,
  status_for_file,
}
use codex_pat.Platform.{Platform}
use codex_pat.Resolve.{or_else}
use codex_pat.Text.Case.{equal_fold}
use codex_pat.Text.Trim.{trim}
use codex_pat.Text.Trim.Laws.{trim_idem}

-- A status with a plugin-owned name, whose readiness agrees with its flags and the host's.
pub record IsHonest (go : Platform) (file : FileEntry) (a : AccountStatus) : Type 0 where
  pub own : is_owned_file go a.name ≡ true
  pub enabled : a.readiness ≡ codes "ready" → (a.disabled ≡ false) × (a.unavailable ≡ false)
  pub live : a.readiness ≡ codes "ready" → (file.disabled ≡ false) × (file.unavailable ≡ false)

abbrev Shown : Platform → FileEntry → Option AccountStatus → Type 0
Shown go file none = Unit {0}
Shown go file (some a) = IsHonest go file a

module _ (go : Platform) (h : Host) (file : FileEntry) where
  live_status-IsHonest :
      (c : Credential) (index name : Bytes) (r : Result FileEntry) (now : ℕ)
      → c.disabled ≡ false
      → file.disabled ≡ false
      → file.unavailable ≡ false
      → is_owned_file go (trim name) ≡ true
      → IsHonest go file (live_status go h c index name file r now)
  unfolding live_status status_from_credential runtime_readiness
  live_status-IsHonest c index name (err e) now d fd fu o = record {
    own = o;
    enabled = λ q. ground arith;
    live = λ q. (fd, fu);
  }
  live_status-IsHonest c index name (ok runtime) now d fd fu o = record {
    own = o;
    enabled = λ q. ground arith;
    live = λ q. (fd, fu);
  }

  broken-IsHonest :
      (index name : Bytes) → is_owned_file go name ≡ true → IsHonest go file (broken index name)
  broken-IsHonest index name o = record { own = o; enabled = λ q. cc; live = λ q. cc }

  credential_status-IsHonest :
      (c : Credential) (index name : Bytes)
      → is_owned_file go (trim name) ≡ true
      → Returns (IsHonest go file) (credential_status go h c index name file)
  unfolding credential_status status_from_credential
  credential_status-IsHonest c index name o =
      Returns-if (c.disabled || file.disabled) _ _
        (λ _. Returns-pure _ (record { own = o; enabled = λ q. cc; live = λ q. cc }))
        λ enabled.
          Returns-if file.unavailable _ _
            (λ _. Returns-pure _ (record { own = o; enabled = λ q. cc; live = λ q. cc }))
            λ available. Returns-then _ _ λ runtime. Returns-then _ _ λ now. Returns-pure _ (
              live_status-IsHonest c index name runtime now (ground arith) (ground arith) available
                o)

  owned_status-IsHonest :
      (index name : Bytes) (o : Ownership)
      → trim name ≡ name
      → is_owned_file go name ≡ true
      → Returns (Shown go file) (owned_status go h index name file o)
  unfolding owned_status
  owned_status-IsHonest index name foreign t k = Returns-pure _ tt
  owned_status-IsHonest index name unreadable t k = Returns-pure _ (broken-IsHonest index name k)
  owned_status-IsHonest index name (owned (err e)) t k =
      Returns-pure _ (broken-IsHonest index name k)
  owned_status-IsHonest index name (owned (ok c)) t k =
      Returns-if (not (is_valid go c)) _ _ (λ _. Returns-pure _ (broken-IsHonest index name k))
        λ _.
          Returns-if (not (is_owned_file_for_principal go name c.account_id c.chatgpt_user_id)) _ _
            (λ _. Returns-pure _ tt)
            λ _.
              Returns-bind _ _ (credential_status-IsHonest c index name (rw t k))
                λ status honest. Returns-pure _ honest

  trim-or_else : (s t : Bytes) → trim (or_else (trim s) (trim t)) ≡ or_else (trim s) (trim t)
  trim-or_else s t = by_empty (trim s) (trim_idem s)
    where
      by_empty : (x : Bytes) → trim x ≡ x → trim (or_else x (trim t)) ≡ or_else x (trim t)
      by_empty [] q = trim_idem t
      by_empty (c ∷ x) q = q

  physical_status-IsHonest :
      (index : Bytes) (r : Result PhysicalFile)
      → Returns (Shown go file) (physical_status go h index file r)
  unfolding physical_status
  physical_status-IsHonest index (err e) = Returns-pure _ tt
  physical_status-IsHonest index (ok p) =
      let name = or_else (trim p.name) (trim file.name) in
      Returns-if (not (is_owned_file go name)) _ _ (λ _. Returns-pure _ tt)
        λ k. owned_status-IsHonest index name _ (trim-or_else p.name file.name) (ground arith)

  status_for_file-IsHonest : Returns (Shown go file) (status_for_file go h file)
  unfolding status_for_file
  status_for_file-IsHonest =
      let index = trim file.auth_index in
      let provider = or_else (trim file.provider) (trim file.type_name) in
      Returns-if (not (same provider []) && not (equal_fold go provider provider_codex)) _ _
        (λ _. Returns-pure _ tt)
        λ _.
          Returns-if (same index []) _ _ (λ _. Returns-pure _ tt)
            λ _. Returns-then _ _ λ r. physical_status-IsHonest index r

  -- If the status of a file is shown as ready, whatever the host returns for the file, then its name
  -- is plugin-owned, and neither the status nor the host's list entry is disabled or unavailable.
  pub status_for_file_ready :
      (w : h.World) {a : AccountStatus}
      → (status_for_file go h file w).0 ≡ ok (some a)
      → a.readiness ≡ codes "ready"
      → (is_owned_file go a.name ≡ true)
        × (a.disabled ≡ false)
        × (a.unavailable ≡ false)
        × (file.disabled ≡ false)
        × (file.unavailable ≡ false)
  status_for_file_ready w {a} e q =
      let honest = status_for_file-IsHonest.at w (some a) e in
      (honest.own, (honest.enabled q).0, (honest.enabled q).1, (honest.live q).0, (honest.live q).1)
