-- ===== src/Resolve/Safe.antt =====
-- A credential is only ever written to a file of its own principal.
use mathlib.Core.Path.{subst₂}
use codex_pat.Base.{
  All, Bool, Bool-cases, Bytes, List, [], arith, eq_of_same, false, if◌then◌else◌, inl, inr, none,
  not, same, some, subst, take, true, ◌++◌, ◌||◌, ◌∷◌, ◌≡◌, ◌≢◌, ◌⊎◌,
}
use codex_pat.Credential.{Credential}
use codex_pat.Credential.Codec.{Ownership, decode_owned_credential, foreign, owned, unreadable}
use codex_pat.Errors.{err, ok, ok_injective, plain}
use codex_pat.Exec.{
  Returns, Returns-bind, Returns-if, Returns-lift, Returns-pure, Returns-raise, Returns-then,
}
use codex_pat.FileName.{
  frame, hex_encode, is_owned_file_for_principal, parse_owned_file, principal_hash,
  principal_hash_domain, principal_preimage, same_principal,
}
use codex_pat.FileName.Owned.{is_owned_file_for_principal-file_name}
use codex_pat.Host.{FileEntry, Host, PhysicalFile}
use codex_pat.Json.{Dict, insert}
use codex_pat.Platform.{IsDigest, Platform}
use codex_pat.Resolve.{
  Survey, canonical_name, check_hash, choose, choose_any, classify, find_preferred, inspect_file,
  inspect_physical, is_candidate, nothing_found, or_else, read_candidate, record_file,
  resolve_file_name, survey,
}
use codex_pat.Text.Case.{equal_fold, to_lower}
use codex_pat.Text.Trim.{trim}

module _ (go : Platform) (c : Credential) where
  -- A name that the plugin owns, for the credential's principal.
  abbrev pub IsOwn : Bytes → Type 0
  IsOwn name = is_owned_file_for_principal go name c.account_id c.chatgpt_user_id ≡ true

  -- All files found are own files.
  abbrev pub Found : Survey → Type 0
  Found f = All (λ entry. IsOwn entry.1) f.same_principal_files

  -- Principals are told apart up to white space around their parts.
  IsOwn-of_same :
      (name account user : Bytes)
      → is_owned_file_for_principal go name account user ≡ true
      → same_principal account user c.account_id c.chatgpt_user_id ≡ true
      → IsOwn name
  unfolding same_principal is_owned_file_for_principal principal_hash principal_preimage
  IsOwn-of_same name account user h q =
      let parts : (same (trim account) (trim c.account_id) ≡ true)
          × (same (trim user) (trim c.chatgpt_user_id) ≡ true) =
        ground arith in
      subst₂ (λ x y. test x y ≡ true) (eq_of_same _ _ (parts.0)) (eq_of_same _ _ (parts.1)) h
    where
      test : Bytes → Bytes → Bool
      test x y = elim (parse_owned_file go name) [
        | none ↦ false
        | some hash ↦
            if same x [] || same y []
            then false
            else same hash (hex_encode (take 12 (go.sha256 (principal_hash_domain ++ frame x y))))
      ]

  insert-All :
      (k name : Bytes) (m : Dict Bytes)
      → All (λ entry. IsOwn entry.1) m
      → IsOwn name
      → All (λ entry. IsOwn entry.1) (insert k name m)
  unfolding insert
  insert-All k name [] h o = (o, tt)
  insert-All k name ((j, other) ∷ m) (x, h) o = ground (arith, insert-All k name m h o)

  record_file-Found :
      (name : Bytes) (f f' : Survey)
      → IsOwn name
      → record_file go c name f ≡ ok f'
      → Found f
      → Found f'
  unfolding record_file
  record_file-Found name f f' o e h =
      let i = insert-All (to_lower go name) name f.same_principal_files h o in
      subst Found (taken e) i
    where
      taken :
          record_file go c name f ≡ ok f'
          → record f {
            same_principal_files = insert (to_lower go name) name f.same_principal_files;
          }
            ≡ f'
      taken e = ground arith

  check_hash-same : (name : Bytes) (f f' : Survey) → check_hash go c name f ≡ ok f' → f ≡ f'
  check_hash-same name f f' e = ground arith

  -- Where a file is recorded, and where the survey stays as it is.
  classify_cases :
      (name : Bytes) (f f' : Survey) (o : Ownership)
      → classify go c name f o ≡ ok f'
      → (f ≡ f')
        ⊎ ((x : Credential) × (record_file go c name f ≡ ok f')
            × (is_owned_file_for_principal go name x.account_id x.chatgpt_user_id ≡ true)
            × (same_principal x.account_id x.chatgpt_user_id c.account_id c.chatgpt_user_id ≡ true))
  unfolding classify
  classify_cases name f f' foreign e = inl (ok_injective e)
  classify_cases name f f' unreadable e = inl (check_hash-same name f f' e)
  classify_cases name f f' (owned (err x)) e = ground (arith, check_hash-same name f f')
  classify_cases name f f' (owned (ok x)) e = go' parts
    where
      parts :
          (f ≡ f')
          ⊎ ((record_file go c name f ≡ ok f')
              × (is_owned_file_for_principal go name x.account_id x.chatgpt_user_id ≡ true)
              × (same_principal x.account_id x.chatgpt_user_id c.account_id c.chatgpt_user_id
                  ≡ true))
      parts = ground (arith, check_hash-same name f f')

      go' :
          (f ≡ f')
            ⊎ ((record_file go c name f ≡ ok f')
                × (is_owned_file_for_principal go name x.account_id x.chatgpt_user_id ≡ true)
                × (same_principal x.account_id x.chatgpt_user_id c.account_id c.chatgpt_user_id
                    ≡ true))
          → (f ≡ f')
            ⊎ ((x : Credential) × (record_file go c name f ≡ ok f')
                × (is_owned_file_for_principal go name x.account_id x.chatgpt_user_id ≡ true)
                × (same_principal x.account_id x.chatgpt_user_id c.account_id c.chatgpt_user_id
                    ≡ true))
      go' (inl q) = inl q
      go' (inr (a, b, d)) = inr (x, a, b, d)

  inspect_physical-Found :
      (name : Bytes) (f : Survey) (p : PhysicalFile) (f' : Survey)
      → inspect_physical go c name f p ≡ ok f'
      → Found f
      → Found f'
  unfolding inspect_physical
  inspect_physical-Found name f p f' e h = go' (
      classify_cases (or_else (trim p.name) name) g f' (decode_owned_credential go p.json)
        classified)
    where
      g : Survey
      g = record f {
        occupied = f.occupied || equal_fold go (or_else (trim p.name) name) (canonical_name go c);
      }

      classified :
          classify go c (or_else (trim p.name) name) g (decode_owned_credential go p.json) ≡ ok f'
      classified = ground arith

      go' :
          (g ≡ f')
            ⊎ ((x : Credential) × (record_file go c (or_else (trim p.name) name) g ≡ ok f')
                × (is_owned_file_for_principal go
                      (or_else (trim p.name) name)
                      x.account_id
                      x.chatgpt_user_id
                    ≡ true)
                × (same_principal x.account_id x.chatgpt_user_id c.account_id c.chatgpt_user_id
                    ≡ true))
          → Found f'
      go' (inl q) = subst Found q h
      go' (inr (x, r, o, q)) =
          record_file-Found (or_else (trim p.name) name) g f'
            (IsOwn-of_same (or_else (trim p.name) name) x.account_id x.chatgpt_user_id o q) r h

  module _ (h : Host) where
    read_candidate-Found :
        (index name : Bytes) (f : Survey)
        → Found f
        → Returns Found (read_candidate go c h index name f)
    unfolding read_candidate
    read_candidate-Found index name f found =
        Returns-then _ _
          λ physical. Returns-lift _ λ f' e. inspect_physical-Found name f physical f' e found

    inspect_file-Found :
        (file : FileEntry) (f : Survey) → Found f → Returns Found (inspect_file go c h file f)
    unfolding inspect_file
    inspect_file-Found file f found =
        let g = record f {
          occupied = f.occupied || equal_fold go (trim file.name) (canonical_name go c);
        } in
        let provider = or_else (trim file.provider) (trim file.type_name) in
        Returns-if file.runtime_only _ _ (λ _. Returns-pure f found)
          λ _.
            Returns-if (same (trim file.name) []) _ _ (λ _. Returns-pure f found)
              λ _.
                Returns-if (not (is_candidate go c provider (trim file.name))) _ _
                  (λ _. Returns-pure g found)
                  λ _.
                    Returns-if (same (trim file.auth_index) []) _ _
                      (λ _. Returns-raise (plain "candidate auth file has no stable index"))
                      λ _. read_candidate-Found (trim file.auth_index) (trim file.name) g found

    survey-Found :
        (files : List FileEntry) (f : Survey) → Found f → Returns Found (survey go c h files f)
    unfolding survey
    survey-Found [] f found = Returns-pure f found
    survey-Found (file ∷ files) f found =
        Returns-bind {Q = Found} _ _ (inspect_file-Found file f found)
          λ f' found'. survey-Found files f' found'

    find_preferred-IsOwn :
        (preferred : Bytes) (m : Dict Bytes) (name : Bytes)
        → find_preferred go c preferred m ≡ ok name
        → All (λ entry. IsOwn entry.1) m
        → IsOwn name
    unfolding find_preferred
    find_preferred-IsOwn preferred [] name e a = cc
    find_preferred-IsOwn preferred ((k, n) ∷ m) name e (o, a) =
        elim (Bool-cases (equal_fold go n preferred)) [
          | inl y ↦ subst IsOwn (ground arith) o
          | inr y ↦ find_preferred-IsOwn preferred m name (ground arith) a
        ]

    choose-IsOwn :
        IsDigest go.sha256
        → trim c.account_id ≢ []
        → trim c.chatgpt_user_id ≢ []
        → (preferred : Bytes) (f : Survey) (name : Bytes) → choose go c preferred f ≡ ok name
        → Found f
        → IsOwn name
    unfolding choose_any
    choose-IsOwn digest a u (d ∷ preferred) f name e found =
        find_preferred-IsOwn (d ∷ preferred) f.same_principal_files name e found
    choose-IsOwn digest a u [] f name e found = go' f.same_principal_files f.occupied e found
      where
        go' :
            (m : Dict Bytes) (b : Bool)
            → choose_any go c (record { occupied = b; same_principal_files = m }) ≡ ok name
            → All (λ entry. IsOwn entry.1) m
            → IsOwn name
        go' [] false e found = subst IsOwn (ok_injective e) (
            is_owned_file_for_principal-file_name go digest c.account_id c.chatgpt_user_id c.email
              c.plan_type a u)
        go' [] true e found = cc
        go' ((k, n) ∷ []) b e found = subst IsOwn (ok_injective e) (found.0)
        go' ((k, n) ∷ x ∷ m) b e found = cc

    pub resolve_file_name-IsOwn :
        IsDigest go.sha256
        → trim c.account_id ≢ []
        → trim c.chatgpt_user_id ≢ []
        → (preferred : Bytes) → Returns IsOwn (resolve_file_name go c h preferred)
    unfolding resolve_file_name
    resolve_file_name-IsOwn digest a u preferred = Returns-then _ _ λ _. Returns-then _ _ λ files.
        Returns-bind {Q = Found} _ _ (survey-Found files nothing_found tt) λ f found.
          Returns-lift _ λ name e. choose-IsOwn digest a u (trim preferred) f name e found

    -- If `resolveFileName` returns a file name for a credential with an account and a user, whatever
    -- the host lists and returns, then the plugin owns that name, and for just that principal. The
    -- digest is taken to be 32 bytes long.
    pub resolve_file_name_safe :
        IsDigest go.sha256
        → trim c.account_id ≢ []
        → trim c.chatgpt_user_id ≢ []
        → (preferred : Bytes) (w : h.World) {name : Bytes}
        → (resolve_file_name go c h preferred w).0 ≡ ok name
        → is_owned_file_for_principal go name c.account_id c.chatgpt_user_id ≡ true
    resolve_file_name_safe digest a u preferred w {name} e =
        (resolve_file_name-IsOwn digest a u preferred).at w name e
