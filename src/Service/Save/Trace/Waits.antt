-- ===== src/Service/Save/Trace/Waits.antt =====
-- The waits of a save, on a host that keeps a record: what they rewrite is what they are told to.
use codex_pat.Base.{Bool, Bytes, List, [], arith, false, same, same_iff, subst, sym, ℕ, ◌∷◌, ◌≡◌}
use codex_pat.Errors.{Result, err, ok}
use codex_pat.Exec.{Exec}
use codex_pat.Exec.Runs.{After, Runs, Runs-assume, Runs-bind, Runs-or_raise, Runs-refuse_if}
use codex_pat.Host.{Host}
use codex_pat.Platform.{Platform}
use codex_pat.Service.{Settings, rewrite_secured_credential}
use codex_pat.Service.Reads.{IsQuiet, ReadsKeep, quiet-check_regular, quiet-refuse_if}
use codex_pat.Service.Save.Trace.{Call, noted, quiet, recorded, replacing}
use codex_pat.Service.Watcher.{await_watcher_state}
use codex_pat.Service.Watcher.Keeps.{keeps-await_watcher_state}
use codex_pat.Text.Affix.{path_base}
use codex_pat.Text.Trim.{trim}

module _ (h : Host) (I : List Call → Type 0) where
  -- An invariant of the record.
  abbrev pub On : (recorded h).World → Type 0
  On s = I (s.1)

  quiet-IsQuiet : {A : Type 0} (m : Exec h.World A) → IsQuiet On (quiet m)
  quiet-IsQuiet {A} m = record { from = λ s i. go (m (s.0)) i }
    where
      go :
          {t : List Call} (p : Result A × h.World)
          → I t
          → After (λ _. On) On (let (r, w) = p in (r, (w, t)))
      go (ok a, w) i = i
      go (err e, w) i = i

  pub recorded-ReadsKeep : ReadsKeep (recorded h) On
  recorded-ReadsKeep = record {
    auth_list = quiet-IsQuiet h.auth_list;
    auth_get = λ index. quiet-IsQuiet (h.auth_get index);
    auth_get_runtime = λ index. quiet-IsQuiet (h.auth_get_runtime index);
    lstat = λ path. quiet-IsQuiet (h.lstat path);
    read_file = λ path. quiet-IsQuiet (h.read_file path);
    wait = λ n. quiet-IsQuiet (h.wait n);
  }

  -- A call that is noted, where the record with it is as it should be.
  pub noted-Runs :
      {A : Type 0} (J : List Call → Type 0) (call : Call) (m : Exec h.World A)
      → ((t : List Call) → I t → J (call ∷ t))
      → Runs On (noted call m) (λ _ s. J (s.1)) (λ s. J (s.1))
  noted-Runs {A} J call m f = record { from = λ s i. go (m (s.0)) (f (s.1) i) }
    where
      go :
          {t : List Call} (p : Result A × h.World)
          → J (call ∷ t)
          → After {A = A}
              (λ _ (s : h.World × List Call). J (s.1))
              (λ s. J (s.1))
              (let (r, w) = p in (r, (w, call ∷ t)))
      go (ok a, w) i = i
      go (err e, w) i = i

  module _ (go : Platform) (service : Settings) (name raw : Bytes)
      (allowed : (path : Bytes) (t : List Call)
        → path_base path ≡ name
        → I t
        → I (replacing path raw ∷ t)) where
    pub rewriting :
        (path : Bytes) → IsQuiet On (rewrite_secured_credential go (recorded h) path name raw)
    unfolding rewrite_secured_credential
    rewriting path = Runs-bind _ _ (Runs-refuse_if _ _ (λ s i. i)) λ _. Runs-assume _ λ named.
        Runs-bind _ _ (quiet-refuse_if _ _) λ _.
          Runs-bind _ _ (Runs-or_raise _ _ (quiet-IsQuiet _)) λ info.
            Runs-bind _ _ (quiet-check_regular go (recorded h) On recorded-ReadsKeep info) λ _.
              Runs-or_raise _ _ (
                noted-Runs I (replacing (trim path) raw) (h.replace_file (trim path) raw) (λ t i.
                  allowed (trim path) t ((same_iff (path_base (trim path)) name).0 (ground arith))
                    i))

    -- A wait for no contents, or for those that may be written.
    pub waiting :
        (path : Bytes) (disabled : Bool) (desired : Bytes) (fuel : ℕ)
        → (same desired [] ≡ false → desired ≡ raw)
        → IsQuiet On (await_watcher_state go (recorded h) service path name disabled desired fuel)
    waiting path disabled desired fuel wanted =
        keeps-await_watcher_state go (recorded h) service On recorded-ReadsKeep path name disabled
          desired
          (λ e.
            subst (λ d. IsQuiet On (rewrite_secured_credential go (recorded h) path name d))
              (sym (wanted e)) (rewriting path))
          fuel
