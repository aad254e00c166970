-- ===== src/Service/Save/Written.antt =====
-- What a save, an import and a revalidation that succeed have written (internal/pat/service.go): on a
-- host that lists the storing calls that have succeeded, the newest first.
use mathlib.Core.List.{Memᴰ}
use codex_pat.Base.{Bool, Bytes, List, [], arith, refl, same_iff, true, ℕ, ◌∷◌, ◌≡◌}
use codex_pat.Credential.{Credential}
use codex_pat.Credential.Codec.{marshal}
use codex_pat.Errors.{Result, err, ok}
use codex_pat.Exec.{Exec}
use codex_pat.Exec.Runs.{
  After, Runs, Runs-assume, Runs-bind, Runs-if, Runs-lift, Runs-or_raise, Runs-pure, Runs-refuse_if,
  Runs-weaken,
}
use codex_pat.Host.{Host}
use codex_pat.Platform.{Platform}
use codex_pat.Service.{SaveResult, Settings, rewrite_secured_credential}
use codex_pat.Service.Reads.{
  IsQuiet, ReadsKeep, quiet-check_regular, quiet-lift, quiet-pure, quiet-refuse_if,
  quiet-rewrite_secured_credential,
}
use codex_pat.Service.Save.{await_persistence, await_stage, save_credential}
use codex_pat.Service.Save.Trace.{Call, IsClosed, quiet, replacing, storing}
use codex_pat.Service.Save.Trace.Order.{fail_closed_host_payload-IsClosed}
use codex_pat.Service.Watcher.{await_watcher_persistence, await_watcher_stage, await_watcher_state}
use codex_pat.Service.Watcher.Keeps.{keeps-await_watcher_state}
use codex_pat.Text.Affix.{path_base}
use codex_pat.Text.Trim.{trim}

abbrev grown : {A : Type 0} → Call → Result A → List Call → List Call
grown call (ok a) calls = call ∷ calls
grown call (err e) calls = calls

abbrev accepting : {S A : Type 0} → Call → Exec S A → Exec (S × List Call) A
accepting call m s = let (r, w) = m (s.0) in (r, (w, grown call r (s.1)))

abbrev pub accepted : Host → Host
accepted h = record {
  World = h.World × List Call;
  http_do_limited = λ r n s. let (reply, w) = h.http_do_limited r n (s.0) in (reply, (w, s.1));
  auth_list = quiet h.auth_list;
  auth_get = λ index. quiet (h.auth_get index);
  auth_save = λ name payload. accepting (storing name payload) (h.auth_save name payload);
  has_runtime = h.has_runtime;
  auth_get_runtime = λ index. quiet (h.auth_get_runtime index);
  lstat = λ path. quiet (h.lstat path);
  read_file = λ path. quiet (h.read_file path);
  replace_file = λ path text. accepting (replacing path text) (h.replace_file path text);
  time_now = λ s. h.time_now (s.0);
  wait = λ n. quiet (h.wait n);
}

-- Among the calls that have succeeded are one of `AuthSave`, with a closed payload under the name of
-- the result, and one that replaced the file of that name, at the path of the result, by the
-- credential's text.
pub record IsWritten (go : Platform) (r : SaveResult) (calls : List Call) : Type 0 where
  pub payload : Bytes
  pub closed : IsClosed go payload
  pub handed : Memᴰ (storing r.file_name payload) calls
  pub named : path_base (trim r.path) ≡ r.file_name
  pub replaced : Memᴰ (replacing (trim r.path) (marshal go r.credential)) calls

module _ {S A : Type 0} {I : S → Type 0} where
  pub anything : (m : Exec S A) → Runs I m (λ _ _. Unit {0}) (λ _. Unit {0})
  anything m = record { from = λ s i. by_result (m s) }
    where
      by_result : (p : Result A × S) → After (λ _ _. Unit {0}) (λ _. Unit {0}) p
      by_result (ok a, s) = tt
      by_result (err e, s) = tt

  -- An action that keeps what is known, whose error ends the save.
  passing : (m : Exec S A) → Runs I m (λ _. I) I → Runs I m (λ _. I) (λ _. Unit {0})
  passing m q = Runs-weaken m q (λ _ s i. i) (λ s i. tt)

module _ (h : Host) where
  abbrev On : (List Call → Type 0) → (accepted h).World → Type 0
  On I s = I (s.1)

  -- What a longer list keeps.
  abbrev Grows : (List Call → Type 0) → Type 0
  Grows I = (call : Call) (t : List Call) → I t → I (call ∷ t)

  accepting-Runs :
      {A : Type 0} (I J : List Call → Type 0) (call : Call) (m : Exec h.World A)
      → ((t : List Call) → I t → J (call ∷ t))
      → Runs (On I) (accepting call m) (λ _. On J) (On I)
  accepting-Runs {A} I J call m f = record { from = λ s i. by_result (s.1) i (m (s.0)) }
    where
      by_result :
          (t : List Call)
          → I t
          → (p : Result A × h.World)
          → After (λ _. On J) (On I) (let (r, w) = p in (r, (w, grown call r t)))
      by_result t i (ok a, w) = f t i
      by_result t i (err e, w) = i

  module _ (I : List Call → Type 0) (grows : Grows I) where
    quiet-IsQuiet : {A : Type 0} (m : Exec h.World A) → IsQuiet (On I) (quiet m)
    quiet-IsQuiet {A} m = record { from = λ s i. by_result (s.1) i (m (s.0)) }
      where
        by_result :
            (t : List Call)
            → I t
            → (p : Result A × h.World) → After (λ _. On I) (On I) (let (r, w) = p in (r, (w, t)))
        by_result t i (ok a, w) = i
        by_result t i (err e, w) = i

    accepted-ReadsKeep : ReadsKeep (accepted h) (On I)
    accepted-ReadsKeep = record {
      auth_list = quiet-IsQuiet h.auth_list;
      auth_get = λ index. quiet-IsQuiet (h.auth_get index);
      auth_get_runtime = λ index. quiet-IsQuiet (h.auth_get_runtime index);
      lstat = λ path. quiet-IsQuiet (h.lstat path);
      read_file = λ path. quiet-IsQuiet (h.read_file path);
      wait = λ n. quiet-IsQuiet (h.wait n);
    }

    replace_file-IsQuiet :
        (path text : Bytes) → IsQuiet (On I) ((accepted h).replace_file path text)
    replace_file-IsQuiet path text =
        accepting-Runs I I (replacing path text) (h.replace_file path text) (grows _)

    module _ (go : Platform) (service : Settings) (fuel : ℕ) (name path : Bytes) where
      await_watcher_state-IsQuiet :
          (disabled : Bool) (desired : Bytes)
          → IsQuiet
              (On I)
              (await_watcher_state go (accepted h) service path name disabled desired fuel)
      await_watcher_state-IsQuiet disabled desired =
          keeps-await_watcher_state go (accepted h) service (On I) accepted-ReadsKeep path name
            disabled desired
            (λ e.
              quiet-rewrite_secured_credential go (accepted h) (On I) accepted-ReadsKeep
                replace_file-IsQuiet path name desired)
            fuel

      await_stage-IsQuiet : IsQuiet (On I) (await_stage go (accepted h) service fuel name path)
      unfolding await_watcher_stage
      await_stage-IsQuiet = Runs-or_raise _ _ (
          Runs-bind _ _
            (Runs-if h.has_runtime _ _ (λ _. await_watcher_state-IsQuiet true [])
              (λ _. quiet-pure true))
            λ done. quiet-lift _)

      await_persistence-IsQuiet :
          (disabled : Bool) (raw : Bytes)
          → IsQuiet (On I) (await_persistence go (accepted h) service fuel name path disabled raw)
      unfolding await_watcher_persistence
      await_persistence-IsQuiet disabled raw = Runs-or_raise _ _ (
          Runs-bind _ _
            (Runs-if h.has_runtime _ _ (λ _. await_watcher_state-IsQuiet disabled raw)
              (λ _. quiet-pure true))
            λ done. quiet-lift _)

  module _ (go : Platform) (service : Settings) (fuel : ℕ) where
    -- The file of the name has been replaced.
    abbrev Secured : Bytes → Bytes → Bytes → Bytes → List Call → Type 0
    Secured name path payload raw t =
        (path_base (trim path) ≡ name)
        × Memᴰ (storing name payload) t
        × Memᴰ (replacing (trim path) raw) t

    rewrite_secured_credential-Runs :
        (path name payload raw : Bytes)
        → Runs
            (On (λ t. Memᴰ (storing name payload) t))
            (rewrite_secured_credential go (accepted h) path name raw)
            (λ _. On (Secured name path payload raw))
            (λ _. Unit {0})
    unfolding rewrite_secured_credential
    rewrite_secured_credential-Runs path name payload raw =
        let I : List Call → Type 0 = λ t. Memᴰ (storing name payload) t in
        let grows : Grows I = λ call t m. Memᴰ.tail m in
        Runs-bind _ _ (Runs-refuse_if _ _ (λ s i. tt)) λ _. Runs-assume _ λ named.
          Runs-bind _ _ (passing _ (quiet-refuse_if _ _)) λ _.
            Runs-bind _ _ (passing _ (Runs-or_raise _ _ (quiet-IsQuiet I grows _))) λ info.
              Runs-bind _ _
                (passing _
                  (quiet-check_regular go (accepted h) (On I) (accepted-ReadsKeep I grows) info))
                λ _.
                  Runs-weaken _
                    (Runs-or_raise _ _ (
                      accepting-Runs I (Secured name path payload raw) (replacing (trim path) raw)
                        (h.replace_file (trim path) raw)
                        λ t m. (
                          (same_iff (path_base (trim path)) name).0 (ground arith),
                          Memᴰ.tail m,
                          Memᴰ.head refl,
                        )))
                    (λ _ s i. i) (λ s i. tt)

    pub save_credential-Runs :
        (c : Credential) (preferred : Bytes)
        → Runs
            (λ _. Unit {0})
            (save_credential go (accepted h) service fuel c preferred)
            (λ r s. IsWritten go r (s.1))
            (λ _. Unit {0})
    unfolding save_credential
    save_credential-Runs c preferred =
        let raw = marshal go c in
        Runs-bind _ _ (anything _) λ _. Runs-bind _ _ (anything _) λ name.
          Runs-bind {J = λ payload s. IsClosed go payload × Unit {0}} _ _
            (Runs-or_raise _ _ (
              Runs-lift _ (λ p e s i. (fail_closed_host_payload-IsClosed go raw e, tt))
                (λ s i. tt)))
            λ payload. Runs-assume _ λ closed.
              Runs-bind {J = λ _. On (λ t. Memᴰ (storing name payload) t)} _ _
                (Runs-or_raise _ _ (
                  accepting-Runs (λ _. Unit {0}) (λ t. Memᴰ (storing name payload) t)
                    (storing name payload) (h.auth_save name payload) (λ t i. Memᴰ.head refl)))
                λ saved. Runs-bind _ _ (passing _ (quiet-refuse_if _ _)) λ _.
                  Runs-bind _ _
                    (passing _ (
                      await_stage-IsQuiet (λ t. Memᴰ (storing name payload) t)
                        (λ call t m. Memᴰ.tail m) go service fuel name saved.path))
                    λ _.
                      Runs-bind _ _
                        (Runs-or_raise _ _
                          (rewrite_secured_credential-Runs saved.path name payload raw))
                        λ _.
                          Runs-bind _ _
                            (passing _ (
                              await_persistence-IsQuiet (Secured name saved.path payload raw)
                                (λ call t m. (m.0, Memᴰ.tail (m.1), Memᴰ.tail (m.2))) go service
                                fuel name saved.path c.disabled raw))
                            λ _. Runs-pure _ λ s m. record {
                              payload = payload;
                              closed = closed;
                              handed = m.1;
                              named = m.0;
                              replaced = m.2;
                            }
