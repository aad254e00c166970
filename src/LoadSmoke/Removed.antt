-- ===== src/LoadSmoke/Removed.antt =====
-- What a run of the load test leaves behind, from its end to its beginning.
use codex_pat.Base.{
  Bool, Bool-cases, Bytes, List, ap, eq_of_same, false, if◌then◌else◌, inl, inr, not, refl, same,
  sym, true, ℕ, ◌&&◌, ◌||◌, ◌∙◌, ◌≡◌, ◌⊎◌,
}
use codex_pat.Errors.{Result, err, ok}
use codex_pat.Exec.{Exec, attempt, ◌>>=◌}
use codex_pat.Exec.Runs.{After, Runs, Runs-bind, Runs-or_raise, Runs-weaken}
use codex_pat.LoadSmoke.Cleanup.{
  Cleaned, Idle, Idle-Stays, IsShell, LeftBehind, Makes, Removes, Runs-finally, SameTemps,
  SameTemps-Stays, SameTemps-trans, Spares, Stays, quiet-check_host, quiet-copy_file,
  quiet-free_port, quiet-require_file, stays-IsQuiet,
}
use codex_pat.LoadSmoke.Run.{
  Options, Shell, finally, remove_temp, require_file, run, run_host, run_in, started, stop_host,
}
use codex_pat.Service.Reads.{IsQuiet, quiet-lift, quiet-refuse_if}

module _ (s : Shell) (has_temp : s.World → Bytes → Bool) (law : IsShell s has_temp) where
  -- The deferred end of the host: whatever it did, it does not run afterwards.
  stop_host-Idle :
      (w : s.World) (file : ℕ) (v : s.World)
      → SameTemps s has_temp w v
      → Idle s has_temp w (stop_host s file v)
  unfolding stop_host
  stop_host-Idle w file v t =
      Idle-Stays s has_temp (law.close file _) (by_state (s.is_running v) refl)
    where
      ended :
          (v' : s.World) (e : Bool)
          → SameTemps s has_temp w v'
          → (e ≡ true → s.is_running v' ≡ false)
          → Idle s has_temp w (if e then v' else s.await_end (s.kill v'))
      ended v' true t h = (t, h refl)
      ended v' false t h = (
        SameTemps-trans s has_temp t
            (SameTemps-trans s has_temp (law.kill v') (law.await_end (s.kill v')).0),
        (law.await_end (s.kill v')).1,
      )

      by_state :
          (b : Bool)
          → s.is_running v ≡ b
          → Idle s has_temp w (
              if not b
              then v
              else (let (e, v') = s.await_exit 2_000_000_000 (s.interrupt v) in
                  if e then v' else s.await_end (s.kill v')))
      by_state false e = (t, e)
      by_state true e =
          ended (s.await_exit 2_000_000_000 (s.interrupt v)).1
            (s.await_exit 2_000_000_000 (s.interrupt v)).0
            (SameTemps-trans s has_temp t (
              SameTemps-trans s has_temp (law.interrupt v)
                (law.await_exit 2_000_000_000 (s.interrupt v)).0))
            (law.await_exit 2_000_000_000 (s.interrupt v)).1

  module _ (w : s.World) where
    idle : (v v' : s.World) → Stays s has_temp v v' → Idle s has_temp w v → Idle s has_temp w v'
    idle v v' = Idle-Stays s has_temp

    busy :
        (v v' : s.World)
        → Stays s has_temp v v'
        → SameTemps s has_temp w v
        → SameTemps s has_temp w v'
    busy v v' = SameTemps-Stays s has_temp

    -- The host that is started, or not, and what is checked of it.
    start-Runs :
        (binary : Bytes) (arguments : List Bytes) (dir : Bytes) (file : ℕ)
        (checks : Exec s.World (Unit {0}))
        → IsQuiet (SameTemps s has_temp w) checks
        → IsQuiet
            (Idle s has_temp w)
            (attempt (s.start binary arguments dir file) >>= started s file checks)
    unfolding attempt ◌>>=◌
    start-Runs binary arguments dir file checks q = record {
      from = λ v i.
          by_result v i (s.start binary arguments dir file v)
            (law.start binary arguments dir file v);
    }
      where
        by_result :
            (v : s.World)
            → Idle s has_temp w v
            → (p : Result (Unit {0}) × s.World)
            → After (λ _. SameTemps s has_temp v) (Stays s has_temp v) p
            → After (λ _. Idle s has_temp w) (Idle s has_temp w) (started s file checks p.0 p.1)
        by_result v i (err e, v') h = idle v' _ (law.close file v') (idle v v' h i)
        by_result v i (ok _, v') h =
            (Runs-finally (stop_host s file) checks q (stop_host-Idle w file)).from v'
              (SameTemps-trans s has_temp (i.0) h)

    quiet-run_host :
        (temp binary version auth_dir : Bytes) (port : ℕ)
        → IsQuiet (Idle s has_temp w) (run_host s temp binary version auth_dir port)
    unfolding run_host
    quiet-run_host temp binary version auth_dir port =
        Runs-bind _ _
          (Runs-or_raise _ _
            (stays-IsQuiet s has_temp law (Idle s has_temp w) idle _ (law.create _)))
          λ file. start-Runs binary _ temp file _ (
            quiet-check_host s has_temp law (SameTemps s has_temp w) busy _ version auth_dir _ file)

    quiet-run_in :
        (binary source version temp : Bytes)
        → IsQuiet (Idle s has_temp w) (run_in s binary source version temp)
    unfolding run_in
    quiet-run_in binary source version temp =
        Runs-bind _ _ (Runs-or_raise _ _ (calm _ (law.mkdir_all _ _))) λ made.
          Runs-bind _ _ (Runs-or_raise _ _ (calm _ (law.mkdir_all _ _))) λ made_too.
            Runs-bind _ _ (quiet-lift _) λ extension.
              Runs-bind _ _ (quiet-copy_file s has_temp law (Idle s has_temp w) idle _ _ _)
                λ copied.
                  Runs-bind _ _ (quiet-free_port s has_temp law (Idle s has_temp w) idle) λ port.
                    Runs-bind _ _ (Runs-or_raise _ _ (calm _ (law.write_file _ _ _)))
                      λ written. quiet-run_host temp binary version _ port
      where
        calm :
            {A : Type 0} (m : Exec s.World A)
            → ((v : s.World) → Stays s has_temp v (m v).1)
            → IsQuiet (Idle s has_temp w) m
        calm = stays-IsQuiet s has_temp law (Idle s has_temp w) idle

  -- The temporary directory of a run, among those of a world.
  abbrev Made : s.World → Bytes → s.World → Type 0
  Made w temp v =
      (has_temp w temp ≡ false)
      × ((q : Bytes) → has_temp v q ≡ (same q temp || has_temp w q))
      × (s.is_running v ≡ false)

  mkdir_temp-Runs :
      (w : s.World) (prefix : Bytes)
      → Runs (Idle s has_temp w) (s.mkdir_temp prefix) (Made w) (Idle s has_temp w)
  mkdir_temp-Runs w prefix = record {
    from = λ v i. by_result v i (s.mkdir_temp prefix v) (law.mkdir_temp prefix v);
  }
    where
      by_result :
          (v : s.World)
          → Idle s has_temp w v
          → (p : Result Bytes × s.World) → After (Makes s has_temp v) (Stays s has_temp v) p
          → After (Made w) (Idle s has_temp w) p
      by_result v i (err e, v') h = Idle-Stays s has_temp h i
      by_result v i (ok temp, v') h =
          (sym (i.0 temp) ∙ h.0, λ q. h.1 q ∙ ap (λ b. same q temp || b) (i.0 q), h.2 (i.1))

  removed :
      (w v u : s.World) (temp : Bytes)
      → Made w temp v
      → Idle s has_temp v u
      → Cleaned s has_temp w (remove_temp s temp u)
  removed w v u temp (n, t, r) (t', r') =
      by_result (s.remove_all temp u) refl (law.remove_all temp u)
    where
      by_name :
          (q : Bytes)
          → (same q temp ≡ true) ⊎ (same q temp ≡ false)
          → (not (same q temp) && (same q temp || has_temp w q)) ≡ has_temp w q
      by_name q (inl e) = rw e (sym (ap (has_temp w) (eq_of_same q temp e) ∙ n))
      by_name q (inr e) = rw e refl

      by_result :
          (p : Result (Unit {0}) × s.World)
          → s.remove_all temp u ≡ p
          → After (λ _. Removes s has_temp u temp) (Spares s has_temp u temp) p
          → Cleaned s has_temp w p.1
      by_result (ok _, u') e (gone, idle) = (
        inl λ q.
            gone q
            ∙ (ap (λ b. not (same q temp) && b) (t' q ∙ t q)
                ∙ by_name q (Bool-cases (same q temp))),
        idle r',
      )
      by_result (err x, u') e (kept, idle) = (
        inr (record {
          temp = temp;
          is_new = n;
          others = λ q m. kept q m ∙ (t' q ∙ (t q ∙ rw m refl));
          before = u;
          cause = x;
          removal = e;
        }),
        idle r',
      )

  -- What ends a run early.
  early :
      {A : Type 0} (w : s.World) (m : Exec s.World A)
      → IsQuiet (Idle s has_temp w) m
      → Runs (Idle s has_temp w) m (λ _. Idle s has_temp w) (Cleaned s has_temp w)
  early w m q = Runs-weaken m q (λ _ v i. i) λ v i. (inl i.0, i.1)

  run-Cleaned :
      (w : s.World) (settings : Options)
      → Runs (Idle s has_temp w) (run s settings) (λ _. Cleaned s has_temp w) (Cleaned s has_temp w)
  unfolding run
  run-Cleaned w settings = Runs-bind _ _ (early w _ (quiet-refuse_if _ _)) λ named.
      Runs-bind _ _ (early w _ (quiet-refuse_if _ _)) λ numbered.
        Runs-bind _ _ (Runs-or_raise _ _ (calm (s.abs settings.cpa_binary) (law.abs _))) λ binary.
          Runs-bind _ _ (Runs-or_raise _ _ (calm (s.abs settings.plugin) (law.abs _))) λ source.
            Runs-bind _ _ (Runs-or_raise _ _ (required binary)) λ there.
              Runs-bind _ _ (Runs-or_raise _ _ (required source)) λ there_too.
                Runs-bind _ _
                  (Runs-or_raise _ _
                    (Runs-weaken _ (mkdir_temp-Runs w _) (λ _ v i. i) λ v i. (inl i.0, i.1)))
                  λ temp. in_temp temp binary source
    where
      calm :
          {A : Type 0} (m : Exec s.World A)
          → ((v : s.World) → Stays s has_temp v (m v).1)
          → Runs (Idle s has_temp w) m (λ _. Idle s has_temp w) (Cleaned s has_temp w)
      calm m h = early w m (stays-IsQuiet s has_temp law (Idle s has_temp w) (idle w) m h)

      required :
          (path : Bytes)
          → Runs
              (Idle s has_temp w)
              (require_file s path)
              (λ _. Idle s has_temp w)
              (Cleaned s has_temp w)
      required path =
          early w _ (quiet-require_file s has_temp law (Idle s has_temp w) (idle w) path)

      in_temp :
          (temp binary source : Bytes)
          → Runs
              (Made w temp)
              (finally (remove_temp s temp) (run_in s binary source settings.version temp))
              (λ _. Cleaned s has_temp w)
              (Cleaned s has_temp w)
      in_temp temp binary source = record {
        from = λ v j.
            (Runs-finally (remove_temp s temp) _
                (quiet-run_in v binary source settings.version temp)
                (λ u k. removed w v u temp j k)).from
              v ((λ q. refl), j.2);
      }

  -- Whatever a run of the load test does, and whether it succeeds or fails, no host runs behind it, if
  -- none ran before; and the temporary directories are those that there were, its own removed, unless
  -- `os.RemoveAll` has failed on a directory that was not there before, and then all others are those
  -- that there were. The calls keep the law of a shell: a temporary directory that is made is new, one
  -- whose removal succeeds is gone, one whose removal fails is the only one that it can have touched, a
  -- host whose end was awaited does not run, and no other call touches either.
  pub run_cleans :
      (settings : Options) (w : s.World)
      → s.is_running w ≡ false
      → (SameTemps s has_temp w (run s settings w).1 ⊎ LeftBehind s has_temp w (run s settings w).1)
        × (s.is_running (run s settings w).1 ≡ false)
  run_cleans settings w r =
      by_result (run s settings w) ((run-Cleaned w settings).from w ((λ q. refl), r))
    where
      by_result :
          (p : Result (Unit {0}) × s.World)
          → After (λ _. Cleaned s has_temp w) (Cleaned s has_temp w) p
          → Cleaned s has_temp w p.1
      by_result (ok _, v) c = c
      by_result (err e, v) c = c
