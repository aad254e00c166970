-- ===== src/Tests/Disks.antt =====
-- A small disk: a path holds a node or nothing, and no call fails but for a path that is taken.
use codex_pat.Base.{
  Bool-cases, Bytes, Option, [], codes, eq_of_same, if◌then◌else◌, inl, inr, none, refl, same,
  same_refl, some, sym, true, ℕ, ◌++◌, ◌∙◌, ◌≡◌, ◌≢◌,
}
use codex_pat.Errors.{err, ok, plain}
use codex_pat.Exec.{Exec}
use codex_pat.Exec.Runs.{After}
use codex_pat.Files.{
  Disk, Node, regular_file, replace_file_0600, replace_file_0600_windows, symlink,
}
use codex_pat.Files.Atomic.{replace_file_0600_atomic, replace_file_0600_windows_atomic}
use codex_pat.Files.Kept.{IsDisk, Kept, Others, Replaced, Rewritten, SameNodes}

abbrev Nodes : Type 0
Nodes = Bytes → Option Node

abbrev update : Nodes → Bytes → Option Node → Nodes
update w p n q = if same q p then n else w q

abbrev made : Bytes → Option Node → ℕ → Exec Nodes Bytes
made p none mode w = (ok p, update w p (some (regular_file [] mode)))
made p (some n) mode w = (err (plain "file already exists"), w)

abbrev remade : Bytes → Option Node → (Bytes → ℕ → Node) → Exec Nodes (Unit {0})
remade p (some (regular_file text mode)) f w = (ok tt, update w p (some (f text mode)))
remade p _ f w = (err (plain "not a file"), w)

abbrev opened : Bytes → Option Node → ℕ → Exec Nodes (Unit {0})
opened p none mode w = (ok tt, update w p (some (regular_file [] mode)))
opened p (some n) mode w = (err (plain "file already exists"), w)

abbrev disk : Disk
disk = record {
  World = Nodes;
  node_at = λ w p. w p;
  dir = λ p. [];
  create_temp = λ dir pattern w. made pattern (w pattern) 384 w;
  chmod = λ p mode w. remade p (w p) (λ text old. regular_file text mode) w;
  write = λ p text w. remade p (w p) (λ old mode. regular_file (old ++ text) mode) w;
  sync = λ p w. (ok tt, w);
  close = λ p w. (ok tt, w);
  rename = λ p q w. (ok tt, λ r. if same r q then w p else if same r p then none else w r);
  remove = λ p w. (ok tt, update w p none);
  open_root = λ p w. (ok tt, w);
  close_root = λ w. (ok tt, w);
  random = λ w. (ok (codes "r"), w);
  open_new = λ p mode w. opened p (w p) 438 w;
  is_exist = λ e. true;
  hex = λ s. s;
  below = λ root name. name;
}

update_at : (w : Nodes) (p : Bytes) (n : Option Node) → update w p n p ≡ n
update_at w p n = rw (same_refl p) refl

update_other : (w : Nodes) (p : Bytes) (n : Option Node) → Others disk w (update w p n) p
update_other w p n q z = elim (Bool-cases (same q p)) [
  | inl e ↦ absurd (z (eq_of_same q p e))
  | inr e ↦ rw e refl
]

made_law :
    (p : Bytes) (w : Nodes) (n : Option Node)
    → w p ≡ n
    → After
        (λ q w'.
          (w q ≡ none) × ((mode : ℕ) × (w' q ≡ some (regular_file [] mode))) × Others disk w w' q)
        (SameNodes disk w)
        (made p n 384 w)
made_law p w none e = (e, (384, update_at w p _), update_other w p _)
made_law p w (some n) e = λ q. refl

opened_law :
    (p : Bytes) (mode : ℕ) (w : Nodes) (n : Option Node)
    → w p ≡ n
    → After
        (λ _ w'.
          (w p ≡ none) × ((given : ℕ) × (w' p ≡ some (regular_file [] given))) × Others disk w w' p)
        (SameNodes disk w)
        (opened p n mode w)
opened_law p mode w none e = (e, (_, update_at w p _), update_other w p _)
opened_law p mode w (some n) e = λ q. refl

remade_law :
    (p : Bytes) (f : Bytes → ℕ → Node) (w : Nodes) (text : Bytes) (mode : ℕ)
    → w p ≡ some (regular_file text mode)
    → After
        (λ _ w'. (w' p ≡ some (f text mode)) × Others disk w w' p)
        (λ w'. Others disk w w' p)
        (remade p (w p) f w)
remade_law p f w text mode e = rw e (update_at w p _, update_other w p _)

moved_law :
    (p q : Bytes) (w : Nodes)
    → After
        (λ _ w'. (w' q ≡ w p) × ((r : Bytes) → r ≢ p → r ≢ q → w' r ≡ w r))
        (SameNodes disk w)
        (disk.rename p q w)
moved_law p q w = (
  rw (same_refl q) refl,
  λ r m n. update_other (update w p none) q (w p) r n ∙ update_other w p none r m,
)

disk-IsDisk : IsDisk disk
disk-IsDisk = record {
  creates = λ dir pattern w. made_law pattern w (w pattern) refl;
  changes_mode = λ p mode w text old e. remade_law p (λ t o. regular_file t mode) w text old e;
  writes = λ p text w mode e. remade_law p (λ o m. regular_file (o ++ text) m) w [] mode e;
  syncs = λ p w q. refl;
  closes = λ p w q. refl;
  renames = moved_law;
  removes = λ p w. update_other w p none;
  opens_root = λ dir w q. refl;
  closes_root = λ w q. refl;
  draws = λ w q. refl;
  opens = λ p mode w. opened_law p 438 w (w p) refl;
}

-- A link at the path `d`.
abbrev linked : Nodes
linked = update (λ q. none) (codes "d") (some (symlink (codes "target")))

linked_there : linked (codes "d") ≢ none
linked_there e = absurd (some_none (sym (update_at (λ q. none) (codes "d") _) ∙ e))
  where
    some_none : some (symlink (codes "target")) ≢ none
    some_none e = cc

replace_file_0600_atomic_example :
    After
      (λ _. Replaced disk (codes "d") (codes "new") linked)
      (Kept disk linked)
      (replace_file_0600 disk (codes "d") (codes "new") linked)
replace_file_0600_atomic_example =
    replace_file_0600_atomic disk disk-IsDisk (codes "d") (codes "new") linked linked_there

replace_file_0600_windows_atomic_example :
    After
      (λ _. Rewritten disk (codes "d") (codes "new") linked)
      (Kept disk linked)
      (replace_file_0600_windows disk (codes "d") (codes "new") linked)
replace_file_0600_windows_atomic_example =
    replace_file_0600_windows_atomic disk disk-IsDisk (codes "d") (codes "new") linked linked_there
