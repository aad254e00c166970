-- ===== src/Service/Save/Trace/Order.antt =====
-- What a save gives the host to store, and in which order.
use codex_pat.Base.{
  Bool, Bytes, List, [], arith, codes, refl, same, same_refl, subst, true, ℕ, ◌∷◌, ◌≡◌,
}
use codex_pat.Credential.{Credential, validate}
use codex_pat.Credential.Codec.{marshal}
use codex_pat.Errors.{ok, ok_injective}
use codex_pat.Exec.{Exec}
use codex_pat.Exec.Runs.{
  Runs, Runs-Returns, Runs-assume, Runs-bind, Runs-if, Runs-kept, Runs-lift, Runs-or_raise,
  Runs-pure, Runs-weaken,
}
use codex_pat.FileName.{is_owned_file_for_principal}
use codex_pat.Host.{Host}
use codex_pat.Json.{
  Fields, Scan, array, boolean, malformed, null, number, object, single, sort_keys, string,
  to_fields, trailing_garbage, trailing_value,
}
use codex_pat.Platform.{IsDigest, Platform}
use codex_pat.Resolve.Safe.{resolve_file_name-IsOwn}
use codex_pat.Service.{Settings, fail_closed_fields, fail_closed_host_payload, fail_closed_scan}
use codex_pat.Service.Payload.{fail_closed_fields_lem}
use codex_pat.Service.Reads.{
  IsQuiet, quiet-lift, quiet-pure, quiet-refuse_if, quiet-resolve_file_name,
}
use codex_pat.Service.Save.{await_persistence, await_stage, save_credential}
use codex_pat.Service.Save.Outcomes.{metadata_parts}
use codex_pat.Service.Save.Trace.{
  Call, IsClosed, IsSound, has_saved, noted, recorded, replacing, storing,
}
use codex_pat.Service.Save.Trace.Waits.{On, noted-Runs, recorded-ReadsKeep, rewriting, waiting}
use codex_pat.Service.Watcher.{await_watcher_persistence, await_watcher_stage}
use codex_pat.Text.Affix.{path_base}

module _ (go : Platform) where
  IsClosed-fields :
      (fs : Fields)
      → IsClosed go (go.json_text (object (to_fields (sort_keys (fail_closed_fields go fs)))))
  unfolding same
  IsClosed-fields fs = record {
    fields = fs;
    text = refl;
    empty_token = fail_closed_fields_lem go fs (codes "access_token");
    disabled = fail_closed_fields_lem go fs (codes "disabled");
  }

  pub fail_closed_host_payload-IsClosed :
      (raw : Bytes) {p : Bytes} → fail_closed_host_payload go raw ≡ ok p → IsClosed go p
  unfolding fail_closed_host_payload
  fail_closed_host_payload-IsClosed raw {p} = by_scan (go.scan raw)
    where
      by_scan : (x : Scan) → fail_closed_scan go x ≡ ok p → IsClosed go p
      by_scan (single (object fs)) e = subst (IsClosed go) (ok_injective e) (IsClosed-fields fs)
      by_scan (single null) e = cc
      by_scan (single (boolean b)) e = cc
      by_scan (single (number n)) e = cc
      by_scan (single (string s)) e = cc
      by_scan (single (array xs)) e = cc
      by_scan malformed e = cc
      by_scan (trailing_value j) e = cc
      by_scan (trailing_garbage j) e = cc

module _ (go : Platform) (h : Host) (service : Settings) (fuel : ℕ) (digest : IsDigest go.sha256)
    (c : Credential) where
  -- The record is sound, and has a payload under the name.
  abbrev HasSaved : Bytes → List Call → Type 0
  HasSaved name t = (has_saved name t ≡ true) × IsSound go c t

  abbrev Sound : (recorded h).World → Type 0
  Sound = On h (IsSound go c)

  rewritten :
      (name path : Bytes) (t : List Call)
      → path_base path ≡ name
      → HasSaved name t
      → HasSaved name (replacing path (marshal go c) ∷ t)
  rewritten name path t e (saved, sound) = (saved, (refl, rw e saved, sound))

  -- The part behind `AuthSave`.
  behind :
      (name : Bytes) (m : Exec (recorded h).World (Unit {0}))
      → IsQuiet (On h (HasSaved name)) m
      → Runs (On h (HasSaved name)) m (λ _. On h (HasSaved name)) Sound
  behind name m q = Runs-weaken m q (λ _ s i. i) (λ s i. i.1)

  module _ (name path : Bytes) where
    await_stage-HasSaved :
        IsQuiet (On h (HasSaved name)) (await_stage go (recorded h) service fuel name path)
    unfolding await_watcher_stage same
    await_stage-HasSaved = Runs-or_raise _ _ (
        Runs-bind _ _
          (Runs-if h.has_runtime _ _
            (λ _.
              waiting h (HasSaved name) go service name (marshal go c) (rewritten name) path true []
                fuel (λ e. cc))
            (λ _. quiet-pure true))
          λ done. quiet-lift _)

    await_persistence-HasSaved :
        (disabled : Bool)
        → IsQuiet
            (On h (HasSaved name))
            (await_persistence go (recorded h) service fuel name path disabled (marshal go c))
    unfolding await_watcher_persistence
    await_persistence-HasSaved disabled = Runs-or_raise _ _ (
        Runs-bind _ _
          (Runs-if h.has_runtime _ _
            (λ _.
              waiting h (HasSaved name) go service name (marshal go c) (rewritten name) path
                disabled (marshal go c) fuel (λ _. refl))
            (λ _. quiet-pure true))
          λ done. quiet-lift _)

  saving :
      (name payload : Bytes)
      → IsClosed go payload
      → is_owned_file_for_principal go name c.account_id c.chatgpt_user_id ≡ true
      → Runs Sound
          (noted (storing name payload) (h.auth_save name payload))
          (λ _. On h (HasSaved name))
          (On h (HasSaved name))
  saving name payload closed own =
      noted-Runs h (IsSound go c) (HasSaved name) (storing name payload) (h.auth_save name payload)
        λ t sound. (ground (arith, same_refl name), (closed, own, sound))

  save_credential-IsSound :
      (preferred : Bytes) → IsQuiet Sound (save_credential go (recorded h) service fuel c preferred)
  unfolding save_credential
  save_credential-IsSound preferred =
      let k = recorded-ReadsKeep h (IsSound go c) in
      Runs-bind {J = λ _ s. (validate go c ≡ ok tt) × Sound s} _ _
        (Runs-or_raise _ _ (Runs-lift _ (λ a e s i. (e, i)) (λ s i. i)))
        λ _. Runs-assume _ λ v.
          let (a, u) = metadata_parts go c v in
          Runs-bind _ _
            (Runs-or_raise _ _ (
              Runs-Returns _ (resolve_file_name-IsOwn go c (recorded h) digest a u preferred)
                (quiet-resolve_file_name go (recorded h) Sound k c preferred)))
            λ name. Runs-assume _ λ own.
              Runs-bind {J = λ payload s. IsClosed go payload × Sound s} _ _
                (Runs-or_raise _ _ (
                  Runs-lift _
                    (λ p e s i. (fail_closed_host_payload-IsClosed go (marshal go c) e, i))
                    (λ s i. i)))
                λ payload. Runs-assume _ λ closed.
                  Runs-bind {J = λ _. On h (HasSaved name)} _ _
                    (Runs-or_raise _ _
                      (Runs-weaken _ (saving name payload closed own) (λ _ s i. i) (λ s i. i.1)))
                    λ saved. Runs-bind _ _ (behind name _ (quiet-refuse_if _ _)) λ _.
                      Runs-bind _ _ (behind name _ (await_stage-HasSaved name saved.path)) λ _.
                        Runs-bind _ _
                          (behind name _ (
                            Runs-or_raise _ _ (
                              rewriting h (HasSaved name) go service name (marshal go c)
                                (rewritten name) saved.path)))
                          λ _.
                            Runs-bind _ _
                              (behind name _
                                (await_persistence-HasSaved name saved.path c.disabled))
                              λ _. Runs-pure _ λ s i. i.1

  -- Whatever the host does, on the way of a save it is given payloads to store only with the empty text
  -- under the key access_token and true under the key disabled, and only under names that the plugin
  -- owns for the credential's principal; and a file is replaced only by the credential's own text,
  -- after such a payload went to the host under the file's name. A key of the credential's raw object
  -- that is access_token in other capitals is not spoken of. The digest is taken to be 32 bytes long.
  pub save_credential_order :
      (preferred : Bytes) (w : h.World)
      → IsSound go c ((save_credential go (recorded h) service fuel c preferred (w, [])).1.1)
  save_credential_order preferred w = Runs-kept _ (save_credential-IsSound preferred) (w, []) tt
