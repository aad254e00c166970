-- ===== src/LoadSmoke/Cleanup.antt =====
-- What the calls of the load test promise of its temporary directories and of its host, and what the
-- parts of a run keep by it.
use codex_pat.Base.{Bool, Bytes, List, false, not, same, true, ℕ, ◌&&◌, ◌||◌, ◌∙◌, ◌≡◌, ◌⊎◌}
use codex_pat.Errors.{Error, Result, err, ok}
use codex_pat.Exec.{Exec}
use codex_pat.Exec.Runs.{After, Runs, Runs-attempt, Runs-bind, Runs-or_raise}
use codex_pat.FileName.{last}
use codex_pat.LoadSmoke.Run.{
  Shell, check_host, close_file, copy_file, finally, free_port, or_logs, require_empty_directory,
  require_file, show_logs,
}
use codex_pat.Service.Reads.{IsQuiet, quiet-lift, quiet-pure, quiet-raise, quiet-refuse_if}

-- What the calls of a shell do to the temporary directories that there are, and to the host.
module _ (s : Shell) (has_temp : s.World → Bytes → Bool) where
  abbrev pub SameTemps : s.World → s.World → Type 0
  SameTemps w w' = (q : Bytes) → has_temp w' q ≡ has_temp w q

  -- A call that makes and removes no temporary directory, and starts no host.
  abbrev pub Stays : s.World → s.World → Type 0
  Stays w w' = SameTemps w w' × (s.is_running w ≡ false → s.is_running w' ≡ false)

  -- A new temporary directory.
  abbrev pub Makes : s.World → Bytes → s.World → Type 0
  Makes w p w' =
      (has_temp w p ≡ false)
      × ((q : Bytes) → has_temp w' q ≡ (same q p || has_temp w q))
      × (s.is_running w ≡ false → s.is_running w' ≡ false)

  -- The end of a temporary directory; or a removal that failed, which leaves the others.
  abbrev pub Removes : s.World → Bytes → s.World → Type 0
  Removes w p w' =
      ((q : Bytes) → has_temp w' q ≡ (not (same q p) && has_temp w q))
      × (s.is_running w ≡ false → s.is_running w' ≡ false)

  abbrev pub Spares : s.World → Bytes → s.World → Type 0
  Spares w p w' =
      ((q : Bytes) → same q p ≡ false → has_temp w' q ≡ has_temp w q)
      × (s.is_running w ≡ false → s.is_running w' ≡ false)

  pub record IsShell : Type 0 where
    pub abs : (path : Bytes) (w : s.World) → Stays w (s.abs path w).1
    pub stat : (path : Bytes) (w : s.World) → Stays w (s.stat path w).1
    pub read_dir : (path : Bytes) (w : s.World) → Stays w (s.read_dir path w).1
    pub mkdir_all : (path : Bytes) (mode : ℕ) (w : s.World) → Stays w (s.mkdir_all path mode w).1
    pub write_file :
        (path raw : Bytes) (mode : ℕ) (w : s.World) → Stays w (s.write_file path raw mode w).1
    pub read_file : (path : Bytes) (w : s.World) → Stays w (s.read_file path w).1
    pub open_file : (path : Bytes) (w : s.World) → Stays w (s.open_file path w).1
    pub open_new : (path : Bytes) (mode : ℕ) (w : s.World) → Stays w (s.open_new path mode w).1
    pub create : (path : Bytes) (w : s.World) → Stays w (s.create path w).1
    pub copy : (to from : ℕ) (w : s.World) → Stays w (s.copy to from w).1
    pub sync : (file : ℕ) (w : s.World) → Stays w (s.sync file w).1
    pub close : (file : ℕ) (w : s.World) → Stays w (s.close file w).1
    pub listen : (w : s.World) → Stays w (s.listen w).1
    pub poll : (url : Bytes) (w : s.World) → Stays w (s.poll url w).1
    pub mkdir_temp :
        (prefix : Bytes) (w : s.World) → After (Makes w) (Stays w) (s.mkdir_temp prefix w)
    pub remove_all :
        (p : Bytes) (w : s.World) → After (λ _. Removes w p) (Spares w p) (s.remove_all p w)
    pub start :
        (binary : Bytes) (arguments : List Bytes) (dir : Bytes) (file : ℕ) (w : s.World)
        → After (λ _. SameTemps w) (Stays w) (s.start binary arguments dir file w)
    pub interrupt : (w : s.World) → SameTemps w (s.interrupt w)
    pub await_exit :
        (n : ℕ) (w : s.World)
        → SameTemps w (s.await_exit n w).1
          × ((s.await_exit n w).0 ≡ true → s.is_running (s.await_exit n w).1 ≡ false)
    pub kill : (w : s.World) → SameTemps w (s.kill w)
    pub await_end :
        (w : s.World) → SameTemps w (s.await_end w) × (s.is_running (s.await_end w) ≡ false)

  pub SameTemps-trans : {w w' w'' : s.World} → SameTemps w w' → SameTemps w' w'' → SameTemps w w''
  SameTemps-trans a b q = b q ∙ a q

  -- A directory that was not there before could not be removed, and the others are as they were.
  pub record LeftBehind (w v : s.World) : Type 0 where
    pub temp : Bytes
    pub is_new : has_temp w temp ≡ false
    pub others : (q : Bytes) → same q temp ≡ false → has_temp v q ≡ has_temp w q
    pub before : s.World
    pub cause : Error
    pub removal : s.remove_all temp before ≡ (err cause, v)

  -- The end of a run.
  abbrev pub Cleaned : s.World → s.World → Type 0
  Cleaned w v = (SameTemps w v ⊎ LeftBehind w v) × (s.is_running v ≡ false)

  -- The temporary directories of a world, and no host that runs.
  abbrev pub Idle : s.World → s.World → Type 0
  Idle w v = SameTemps w v × (s.is_running v ≡ false)

  pub Idle-Stays : {w v v' : s.World} → Stays v v' → Idle w v → Idle w v'
  Idle-Stays a b = (SameTemps-trans b.0 a.0, a.1 b.1)

  pub SameTemps-Stays : {w v v' : s.World} → Stays v v' → SameTemps w v → SameTemps w v'
  SameTemps-Stays a b = SameTemps-trans b a.0

pub Runs-finally :
    {S A : Type 0} {I J K : S → Type 0} (last : S → S) (m : Exec S A)
    → Runs I m (λ _. J) J
    → ((v : S) → J v → K (last v))
    → Runs I (finally last m) (λ _. K) K
unfolding finally
Runs-finally {S} {A} {J = J} {K = K} last m h k = record { from = λ v i. go (m v) (h.from v i) }
  where
    go : (p : Result A × S) → After (λ _. J) J p → After (λ _. K) K (let (r, v) = p in (r, last v))
    go (ok a, v) j = k v j
    go (err e, v) j = k v j

module _ (s : Shell) (has_temp : s.World → Bytes → Bool) (law : IsShell s has_temp)
    (I : s.World → Type 0) (stable : (v v' : s.World) → Stays s has_temp v v' → I v → I v') where
  pub stays-IsQuiet :
      {A : Type 0} (m : Exec s.World A) → ((w : s.World) → Stays s has_temp w (m w).1) → IsQuiet I m
  stays-IsQuiet {A} m h = record { from = λ v i. go (m v) (stable v (m v).1 (h v) i) }
    where
      go : (p : Result A × s.World) → I p.1 → After (λ _. I) I p
      go (ok a, v) i = i
      go (err e, v) i = i

  pub quiet-require_file : (path : Bytes) → IsQuiet I (require_file s path)
  unfolding require_file
  quiet-require_file path =
      Runs-bind _ _ (stays-IsQuiet (s.stat path) (law.stat path)) λ info. quiet-refuse_if _ _

  quiet-require_empty_directory : (path : Bytes) → IsQuiet I (require_empty_directory s path)
  unfolding require_empty_directory
  quiet-require_empty_directory path =
      Runs-bind _ _ (stays-IsQuiet (s.read_dir path) (law.read_dir path))
        λ entries. quiet-refuse_if _ _

  closes : (file : ℕ) (v : s.World) → I v → I (close_file s file v)
  closes file v i = stable v _ (law.close file v) i

  pub quiet-copy_file :
      (source destination : Bytes) (mode : ℕ) → IsQuiet I (copy_file s source destination mode)
  unfolding copy_file
  quiet-copy_file source destination mode =
      Runs-bind _ _ (Runs-or_raise _ _ (stays-IsQuiet (s.open_file source) (law.open_file source)))
        λ input.
          Runs-finally _ _
            (Runs-bind _ _
              (Runs-or_raise _ _
                (stays-IsQuiet (s.open_new destination mode) (law.open_new destination mode)))
              λ output.
                Runs-bind _ _
                  (Runs-attempt _ (stays-IsQuiet (s.copy output input) (law.copy output input)))
                  λ written.
                    Runs-bind _ _
                      (Runs-attempt _ (stays-IsQuiet (s.close output) (law.close output)))
                      λ closed. quiet-lift _)
            (closes input)

  pub quiet-free_port : IsQuiet I (free_port s)
  unfolding free_port
  quiet-free_port =
      Runs-bind _ _ (Runs-or_raise _ _ (stays-IsQuiet s.listen law.listen))
        λ listener. Runs-finally _ _ (quiet-pure _) (closes listener)

  quiet-or_logs :
      (path : Bytes) (file : ℕ) (m : Exec s.World (Unit {0}))
      → IsQuiet I m
      → IsQuiet I (or_logs s path file m)
  unfolding or_logs
  quiet-or_logs path file m h = Runs-bind _ _ (Runs-attempt m h) shown
    where
      shown : (r : Result (Unit {0})) → IsQuiet I (show_logs s path file r)
      shown (ok _) = quiet-pure tt
      shown (err e) =
          Runs-bind _ _ (Runs-attempt _ (stays-IsQuiet (s.sync file) (law.sync file))) λ synced.
            Runs-bind _ _ (Runs-attempt _ (stays-IsQuiet (s.read_file path) (law.read_file path)))
              λ logs. quiet-raise _

  pub quiet-check_host :
      (base_url version auth_dir path : Bytes) (file : ℕ)
      → IsQuiet I (check_host s base_url version auth_dir path file)
  unfolding check_host
  quiet-check_host base_url version auth_dir path file =
      Runs-bind _ _ (quiet-or_logs path file _ (stays-IsQuiet _ (law.poll _))) λ registered.
        Runs-bind _ _ (Runs-or_raise _ _ (quiet-require_empty_directory auth_dir)) λ before.
          Runs-bind _ _ (quiet-or_logs path file _ (stays-IsQuiet _ (law.poll _)))
            λ answered. Runs-or_raise _ _ (quiet-require_empty_directory auth_dir)
