-- ===== src/Files/Atomic.antt =====
-- A replacement happens as a whole, or not at all.
use codex_pat.Base.{Bytes, [], ap, codes, none, refl, some, suc, zero, ℕ, ◌∙◌, ◌≡◌, ◌≢◌}
use codex_pat.Errors.{Result, err, ok}
use codex_pat.Exec.{Exec, attempt}
use codex_pat.Exec.Runs.{
  After, Runs, Runs-bind, Runs-if, Runs-or_raise, Runs-pure, Runs-raise, Runs-weaken,
}
use codex_pat.Files.{
  Disk, create_private_from, create_private_temporary_file, deferred, fill, private_mode,
  regular_file, replace_file_0600, replace_file_0600_windows, temporary_file_attempts, tried,
}
use codex_pat.Files.Kept.{
  Became, Holds, IsDisk, Kept, Kept-Others, Kept-SameNodes, Others, Replaced, Rewritten, SameNodes,
  chmod-Runs, close-Runs, deferred-Runs, or_close-quiet, sync-Runs, was_free, write-Runs,
}

module _ (d : Disk) (c : IsDisk d) (w0 : d.World) (path raw : Bytes)
    (there : d.node_at w0 path ≢ none) where
  rename-Runs :
      (mode : ℕ) (p : Bytes)
      → Runs
          (Holds d c w0 p raw mode)
          (d.rename p path)
          (λ _. Became d mode path raw w0)
          (Kept d w0)
  rename-Runs mode p = record { from = λ v h. after v h (d.rename p path v) (c.renames p path v) }
    where
      after :
          (v : d.World)
          → Holds d c w0 p raw mode v
          → (r : Result (Unit {0}) × d.World)
          → After
              (λ _ w'.
                (d.node_at w' path ≡ d.node_at v p)
                × ((q : Bytes) → q ≢ p → q ≢ path → d.node_at w' q ≡ d.node_at v q))
              (SameNodes d v)
              r
          → After (λ _. Became d mode path raw w0) (Kept d w0) r
      after v (e, f, k) (ok _, w) (g, o) =
          (g ∙ f, λ q n m. o q (λ x. m (ap (d.node_at w0) x ∙ e)) n ∙ k q m)
      after v (e, f, k) (err x, w) s = Kept-SameNodes d c w0 s k

  fill-Runs :
      (mode : ℕ) (p : Bytes)
      → Runs
          (Holds d c w0 p [] mode)
          (fill d p path raw)
          (λ _. Became d mode path raw w0)
          (Kept d w0)
  unfolding fill
  fill-Runs mode p = Runs-bind _ _ (or_close-quiet d c w0 p _ (write-Runs d c w0 p raw mode)) λ _.
      Runs-bind _ _ (or_close-quiet d c w0 p _ (sync-Runs d c w0 p raw mode))
        λ _. Runs-bind _ _ (close-Runs d c w0 p raw mode) λ _. rename-Runs mode p

  -- The deferred removal of the temporary file.
  remove-Runs :
      {I : d.World → Type 0} (mode : ℕ) (p : Bytes) (m : Exec d.World (Unit {0}))
      → d.node_at w0 p ≡ none
      → Runs I m (λ _. Became d mode path raw w0) (Kept d w0)
      → Runs I (deferred d (d.remove p) m) (λ _. Became d mode path raw w0) (Kept d w0)
  remove-Runs mode p m e h =
      deferred-Runs d _ _ h
        (λ _ w (f, k). (
          c.removes p w path (λ x. there (ap (d.node_at w0) x ∙ e)) ∙ f,
          λ q n z. c.removes p w q (λ x. z (ap (d.node_at w0) x ∙ e)) ∙ k q n z,
        ))
        λ w k. Kept-Others d c w0 p e (c.removes p w) k

  create-Runs :
      Runs
        (Kept d w0)
        (d.create_temp (d.dir path) (codes ".codex-pat-*.tmp"))
        (λ p v. (mode : ℕ) × Holds d c w0 p [] mode v)
        (Kept d w0)
  create-Runs = record {
    from = λ v k.
        after v k (d.create_temp (d.dir path) (codes ".codex-pat-*.tmp") v) (c.creates _ _ v);
  }
    where
      after :
          (v : d.World)
          → Kept d w0 v
          → (r : Result Bytes × d.World)
          → After
              (λ p w'.
                (d.node_at v p ≡ none)
                × ((mode : ℕ) × (d.node_at w' p ≡ some (regular_file [] mode)))
                × Others d v w' p)
              (SameNodes d v)
              r
          → After (λ p v'. (mode : ℕ) × Holds d c w0 p [] mode v') (Kept d w0) r
      after v k (ok p, w) (n, (mode, f), o) =
          let e = was_free d c w0 p k n in (mode, (e, f, Kept-Others d c w0 p e o k))
      after v k (err x, w) s = Kept-SameNodes d c w0 s k

  replace_file_0600-Runs :
      Runs (Kept d w0) (replace_file_0600 d path raw) (λ _. Replaced d path raw w0) (Kept d w0)
  unfolding replace_file_0600
  replace_file_0600-Runs = Runs-bind _ _ create-Runs λ p. record {
    from = λ v (mode, (e, f, k)).
        (remove-Runs private_mode p _ e (
            Runs-bind _ _ (or_close-quiet d c w0 p _ (chmod-Runs d c w0 p [] mode private_mode))
              λ _. fill-Runs private_mode p)).from
          v (e, f, k);
  }

  random-Runs : Runs (Kept d w0) d.random (λ _. Kept d w0) (Kept d w0)
  random-Runs = record { from = λ v k. after (d.random v) (Kept-SameNodes d c w0 (c.draws v) k) }
    where
      after : (r : Result Bytes × d.World) → Kept d w0 r.1 → After (λ _. Kept d w0) (Kept d w0) r
      after (ok b, w) k = k
      after (err e, w) k = k

  -- What an attempt to open a new file comes to.
  abbrev OpenedNew : Bytes → Result (Unit {0}) → d.World → Type 0
  OpenedNew name (ok _) v = (mode : ℕ) × Holds d c w0 name [] mode v
  OpenedNew name (err e) v = Kept d w0 v

  open_new-Runs :
      (name : Bytes)
      → Runs (Kept d w0) (attempt (d.open_new name private_mode)) (OpenedNew name) (Kept d w0)
  unfolding attempt
  open_new-Runs name = record {
    from = λ v k. after v k (d.open_new name private_mode v) (c.opens name private_mode v);
  }
    where
      after :
          (v : d.World)
          → Kept d w0 v
          → (r : Result (Unit {0}) × d.World)
          → After
              (λ _ w'.
                (d.node_at v name ≡ none)
                × ((mode : ℕ) × (d.node_at w' name ≡ some (regular_file [] mode)))
                × Others d v w' name)
              (SameNodes d v)
              r
          → OpenedNew name r.0 r.1
      after v k (ok _, w) (n, (mode, f), o) =
          let e = was_free d c w0 name k n in (mode, (e, f, Kept-Others d c w0 name e o k))
      after v k (err x, w) s = Kept-SameNodes d c w0 s k

  tried-Runs :
      (name : Bytes) (again : Exec d.World Bytes)
      → Runs (Kept d w0) again (λ p v. (mode : ℕ) × Holds d c w0 p [] mode v) (Kept d w0)
      → (r : Result (Unit {0}))
      → Runs
          (OpenedNew name r)
          (tried d name again r)
          (λ p v. (mode : ℕ) × Holds d c w0 p [] mode v)
          (Kept d w0)
  tried-Runs name again h (ok _) = Runs-pure name λ v k. k
  tried-Runs name again h (err e) = Runs-if (d.is_exist e) _ _ (λ _. h) λ _. Runs-raise _ λ v k. k

  create_private_from-Runs :
      (root : Bytes) (n : ℕ)
      → Runs
          (Kept d w0)
          (create_private_from d root n)
          (λ p v. (mode : ℕ) × Holds d c w0 p [] mode v)
          (Kept d w0)
  unfolding create_private_from
  create_private_from-Runs root zero = Runs-raise _ λ v k. k
  create_private_from-Runs root (suc n) = Runs-bind _ _ (Runs-or_raise _ _ random-Runs) λ bytes.
      Runs-bind _ _ (open_new-Runs _) λ r. tried-Runs _ _ (create_private_from-Runs root n) r

  open_root-Runs : Runs (Kept d w0) (d.open_root (d.dir path)) (λ _. Kept d w0) (Kept d w0)
  open_root-Runs = record {
    from = λ v k. after (d.open_root (d.dir path) v) (Kept-SameNodes d c w0 (c.opens_root _ v) k);
  }
    where
      after :
          (r : Result (Unit {0}) × d.World) → Kept d w0 r.1 → After (λ _. Kept d w0) (Kept d w0) r
      after (ok b, w) k = k
      after (err e, w) k = k

  replace_file_0600_windows-Runs :
      Runs
        (Kept d w0)
        (replace_file_0600_windows d path raw)
        (λ _. Rewritten d path raw w0)
        (Kept d w0)
  unfolding replace_file_0600_windows create_private_temporary_file
  replace_file_0600_windows-Runs = Runs-bind _ _ open_root-Runs λ _.
      deferred-Runs d _ _
        (Runs-bind _ _ (create_private_from-Runs (d.dir path) temporary_file_attempts) λ p. record {
          from = λ v (mode, (e, f, k)).
              (Runs-weaken _ (remove-Runs mode p _ e (fill-Runs mode p)) (λ _ s b. (mode, b))
                  (λ s b. b)).from
                v (e, f, k);
        })
        (λ _ w (mode, (f, k)).
          (mode, (c.closes_root w path ∙ f, λ q n z. c.closes_root w q ∙ k q n z)))
        λ w k. Kept-SameNodes d c w0 (c.closes_root w) k

-- A replacement of a file that is there either succeeds, and a private regular file with exactly the
-- text stands at the path, or fails, and what stood there still does; a symbolic link is replaced,
-- not followed. Either way whatever stood at another path still does. The calls of the package `os`
-- keep what they promise.
pub replace_file_0600_atomic :
    (d : Disk) (c : IsDisk d) (path raw : Bytes) (w : d.World)
    → d.node_at w path ≢ none
    → After (λ _. Replaced d path raw w) (Kept d w) (replace_file_0600 d path raw w)
replace_file_0600_atomic d c path raw w there =
    (replace_file_0600-Runs d c w path raw there).from w λ q n. refl

-- On Windows, too, a replacement of a file that is there either succeeds, and a regular file with
-- exactly the text stands at the path, whose mode is not promised, or fails, and what stood there
-- still does. Either way whatever stood at another path still does. The calls of the package `os` keep
-- what they promise.
pub replace_file_0600_windows_atomic :
    (d : Disk) (c : IsDisk d) (path raw : Bytes) (w : d.World)
    → d.node_at w path ≢ none
    → After (λ _. Rewritten d path raw w) (Kept d w) (replace_file_0600_windows d path raw w)
replace_file_0600_windows_atomic d c path raw w there =
    (replace_file_0600_windows-Runs d c w path raw there).from w λ q n. refl
