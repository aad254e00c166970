-- ===== src/Files/Kept.antt =====
-- What the package `os` promises of its calls, and what the steps of a replacement keep by it.
use codex_pat.Base.{Bytes, Option-cases, [], ap, inl, inr, none, some, sym, ℕ, ◌∙◌, ◌≡◌, ◌≢◌}
use codex_pat.Errors.{Result, err, ok}
use codex_pat.Exec.{Exec}
use codex_pat.Exec.Runs.{After, Runs}
use codex_pat.FileName.{last}
use codex_pat.Files.{Disk, Node, closed_after, deferred, or_close, private_mode, regular_file}

module _ (d : Disk) where
  abbrev pub SameNodes : d.World → d.World → Type 0
  SameNodes w w' = (q : Bytes) → d.node_at w' q ≡ d.node_at w q

  abbrev pub Others : d.World → d.World → Bytes → Type 0
  Others w w' p = (q : Bytes) → q ≢ p → d.node_at w' q ≡ d.node_at w q

-- What the package `os` promises of the calls. The mode of a new file is not promised: Windows makes
-- one up from the file's attributes.
pub record IsDisk (d : Disk) : Type 0 where
  pub creates :
      (dir pattern : Bytes) (w : d.World)
      → After
          (λ p w'.
            (d.node_at w p ≡ none)
            × ((mode : ℕ) × (d.node_at w' p ≡ some (regular_file [] mode)))
            × Others d w w' p)
          (SameNodes d w)
          (d.create_temp dir pattern w)
  pub changes_mode :
      (p : Bytes) (mode : ℕ) (w : d.World) (text : Bytes) (old : ℕ)
      → d.node_at w p ≡ some (regular_file text old)
      → After
          (λ _ w'. (d.node_at w' p ≡ some (regular_file text mode)) × Others d w w' p)
          (λ w'. Others d w w' p)
          (d.chmod p mode w)
  pub writes :
      (p text : Bytes) (w : d.World) (mode : ℕ)
      → d.node_at w p ≡ some (regular_file [] mode)
      → After
          (λ _ w'. (d.node_at w' p ≡ some (regular_file text mode)) × Others d w w' p)
          (λ w'. Others d w w' p)
          (d.write p text w)
  pub syncs : (p : Bytes) (w : d.World) → After (λ _. SameNodes d w) (SameNodes d w) (d.sync p w)
  pub closes : (p : Bytes) (w : d.World) → SameNodes d w (d.close p w).1
  pub renames :
      (p q : Bytes) (w : d.World)
      → After
          (λ _ w'.
            (d.node_at w' q ≡ d.node_at w p)
            × ((r : Bytes) → r ≢ p → r ≢ q → d.node_at w' r ≡ d.node_at w r))
          (SameNodes d w)
          (d.rename p q w)
  pub removes : (p : Bytes) (w : d.World) → Others d w (d.remove p w).1 p
  pub opens_root : (dir : Bytes) (w : d.World) → SameNodes d w (d.open_root dir w).1
  pub closes_root : (w : d.World) → SameNodes d w (d.close_root w).1
  pub draws : (w : d.World) → SameNodes d w (d.random w).1
  pub opens :
      (p : Bytes) (mode : ℕ) (w : d.World)
      → After
          (λ _ w'.
            (d.node_at w p ≡ none)
            × ((given : ℕ) × (d.node_at w' p ≡ some (regular_file [] given)))
            × Others d w w' p)
          (SameNodes d w)
          (d.open_new p mode w)

module _ (d : Disk) where
  -- Whatever stood somewhere still stands there.
  abbrev pub Kept : d.World → d.World → Type 0
  Kept w w' = (q : Bytes) → d.node_at w q ≢ none → d.node_at w' q ≡ d.node_at w q

  -- A regular file with the text and the mode stands at the path, and whatever else stood somewhere
  -- still does.
  abbrev pub Became : ℕ → Bytes → Bytes → d.World → d.World → Type 0
  Became mode path raw w w' =
      (d.node_at w' path ≡ some (regular_file raw mode))
      × ((q : Bytes) → q ≢ path → d.node_at w q ≢ none → d.node_at w' q ≡ d.node_at w q)

  -- The same with a private file, and with a file of any mode.
  abbrev pub Replaced : Bytes → Bytes → d.World → d.World → Type 0
  Replaced path raw w w' = Became private_mode path raw w w'

  abbrev pub Rewritten : Bytes → Bytes → d.World → d.World → Type 0
  Rewritten path raw w w' = (mode : ℕ) × Became mode path raw w w'

  pub deferred-Runs :
      {A : Type 0} {I K : d.World → Type 0} {J : A → d.World → Type 0}
      (last : Exec d.World (Unit {0})) (m : Exec d.World A)
      → Runs I m J K
      → ((a : A) (w : d.World) → J a w → J a (last w).1)
      → ((w : d.World) → K w → K (last w).1)
      → Runs I (deferred d last m) J K
  unfolding deferred
  deferred-Runs {A} {I} {K} {J} last m h j k = record { from = λ w i. after (m w) (h.from w i) }
    where
      after :
          (p : Result A × d.World) → After J K p → After J K (let (r, w1) = p in (r, (last w1).1))
      after (ok a, w) q = j a w q
      after (err e, w) q = k w q

  or_close-Runs :
      {A : Type 0} {I K : d.World → Type 0} {J : A → d.World → Type 0} (path : Bytes)
      (m : Exec d.World A)
      → Runs I m J K
      → ((w : d.World) → K w → K (d.close path w).1)
      → Runs I (or_close d path m) J K
  unfolding or_close
  or_close-Runs {A} {I} {K} {J} path m h k = record { from = λ w i. after (m w) (h.from w i) }
    where
      after : (p : Result A × d.World) → After J K p → After J K (closed_after d path p)
      after (ok a, w) q = q
      after (err e, w) q = k w q

  some_is_not_none : {n : Node} → some n ≢ none
  some_is_not_none e = cc

  module _ (c : IsDisk d) (w0 : d.World) where
    pub Kept-SameNodes : {v v' : d.World} → SameNodes d v v' → Kept w0 v → Kept w0 v'
    Kept-SameNodes s k q n = s q ∙ k q n

    pub Kept-Others :
        {v v' : d.World} (p : Bytes)
        → d.node_at w0 p ≡ none
        → Others d v v' p
        → Kept w0 v
        → Kept w0 v'
    Kept-Others p e o k q n = o q (λ x. n (ap (d.node_at w0) x ∙ e)) ∙ k q n

    -- A path where nothing stands has had nothing from the beginning.
    pub was_free :
        {v : d.World} (p : Bytes) → Kept w0 v → d.node_at v p ≡ none → d.node_at w0 p ≡ none
    was_free p k e = elim (Option-cases (d.node_at w0 p)) [
      | inl f ↦ f
      | inr (n, f) ↦
          absurd (some_is_not_none (sym (k p (λ x. some_is_not_none (sym f ∙ x)) ∙ f) ∙ e))
    ]

    -- The temporary file, with its text and mode.
    abbrev pub Holds : Bytes → Bytes → ℕ → d.World → Type 0
    Holds p text mode v =
        (d.node_at w0 p ≡ none) × (d.node_at v p ≡ some (regular_file text mode)) × Kept w0 v

    pub or_close-quiet :
        {A : Type 0} {I : d.World → Type 0} {J : A → d.World → Type 0} (p : Bytes)
        (m : Exec d.World A)
        → Runs I m J (Kept w0)
        → Runs I (or_close d p m) J (Kept w0)
    or_close-quiet p m h = or_close-Runs p m h λ w k. Kept-SameNodes (c.closes p w) k

    Holds-same :
        {v v' : d.World} (p text : Bytes) (mode : ℕ)
        → SameNodes d v v'
        → Holds p text mode v
        → Holds p text mode v'
    Holds-same p text mode s (e, f, k) = (e, s p ∙ f, Kept-SameNodes s k)

    -- The node of the temporary file changes, or the call fails.
    changed :
        {v : d.World} (p text : Bytes) (mode : ℕ)
        → d.node_at w0 p ≡ none
        → Kept w0 v
        → (r : Result (Unit {0}) × d.World)
        → After
            (λ _ w'. (d.node_at w' p ≡ some (regular_file text mode)) × Others d v w' p)
            (λ w'. Others d v w' p)
            r
        → After (λ _. Holds p text mode) (Kept w0) r
    changed p text mode e k (ok _, w) (f, o) = (e, f, Kept-Others p e o k)
    changed p text mode e k (err x, w) o = Kept-Others p e o k

    pub chmod-Runs :
        (p text : Bytes) (old mode : ℕ)
        → Runs (Holds p text old) (d.chmod p mode) (λ _. Holds p text mode) (Kept w0)
    chmod-Runs p text old mode = record {
      from = λ v (e, f, k). changed p text mode e k _ (c.changes_mode p mode v text old f);
    }

    pub write-Runs :
        (p raw : Bytes) (mode : ℕ)
        → Runs (Holds p [] mode) (d.write p raw) (λ _. Holds p raw mode) (Kept w0)
    write-Runs p raw mode = record {
      from = λ v (e, f, k). changed p raw mode e k _ (c.writes p raw v mode f);
    }

    pub sync-Runs :
        (p text : Bytes) (mode : ℕ)
        → Runs (Holds p text mode) (d.sync p) (λ _. Holds p text mode) (Kept w0)
    sync-Runs p text mode = record { from = λ v h. after v h (d.sync p v) (c.syncs p v) }
      where
        after :
            (v : d.World)
            → Holds p text mode v
            → (r : Result (Unit {0}) × d.World) → After (λ _. SameNodes d v) (SameNodes d v) r
            → After (λ _. Holds p text mode) (Kept w0) r
        after v h (ok _, w) s = Holds-same p text mode s h
        after v (e, f, k) (err x, w) s = Kept-SameNodes s k

    pub close-Runs :
        (p text : Bytes) (mode : ℕ)
        → Runs (Holds p text mode) (d.close p) (λ _. Holds p text mode) (Kept w0)
    close-Runs p text mode = record { from = λ v h. after v h (d.close p v) (c.closes p v) }
      where
        after :
            (v : d.World)
            → Holds p text mode v
            → (r : Result (Unit {0}) × d.World) → SameNodes d v r.1
            → After (λ _. Holds p text mode) (Kept w0) r
        after v h (ok _, w) s = Holds-same p text mode s h
        after v (e, f, k) (err x, w) s = Kept-SameNodes s k
