-- ===== src/Files.antt =====
-- The replacement of a file with private permissions (internal/pat/permissions_unix.go,
-- internal/pat/permissions_windows.go). The calls of the package `os` are parameters; a temporary
-- file is known by its path, and a path of the model is one below the directory of the file.
pub mod Kept
pub mod Atomic
use codex_pat.Base.{Bool, Bytes, Option, codes, if◌then◌else◌, suc, zero, ℕ, ◌++◌}
use codex_pat.Errors.{Error, Result, err, ok, plain, wrapped}
use codex_pat.Exec.{Exec, attempt, or_raise, pure, raise, ◌>>=◌, ◌>>◌}
use codex_pat.FileName.{last}

-- What stands at a path.
pub data Node : Type 0 where
  regular_file : Bytes → ℕ → Node
  symlink : Bytes → Node
  directory : Node

pub record Disk : Type 1 where
  pub World : Type 0
  pub node_at : World → Bytes → Option Node
  -- `filepath.Dir`, `os.CreateTemp` with the name's pattern, and the methods of `os.File`
  pub dir : Bytes → Bytes
  pub create_temp : Bytes → Bytes → Exec World Bytes
  pub chmod : Bytes → ℕ → Exec World (Unit {0})
  pub write : Bytes → Bytes → Exec World (Unit {0})
  pub sync : Bytes → Exec World (Unit {0})
  pub close : Bytes → Exec World (Unit {0})
  -- `os.Rename`, `os.Remove`
  pub rename : Bytes → Bytes → Exec World (Unit {0})
  pub remove : Bytes → Exec World (Unit {0})
  -- Windows: `os.OpenRoot`, `Root.Close`, 16 bytes of `rand.Read`, `Root.OpenFile` of a new file to
  -- write, and the test for `os.ErrExist`
  pub open_root : Bytes → Exec World (Unit {0})
  pub close_root : Exec World (Unit {0})
  pub random : Exec World Bytes
  pub open_new : Bytes → ℕ → Exec World (Unit {0})
  pub is_exist : Error → Bool
  -- the lower-case hexadecimal digits that `%x` writes, and a name below the root
  pub hex : Bytes → Bytes
  pub below : Bytes → Bytes → Bytes

-- 0o600.
abbrev pub private_mode : ℕ
private_mode = 384

-- `temporaryFileAttempts`.
abbrev pub temporary_file_attempts : ℕ
temporary_file_attempts = 100

module _ (d : Disk) where
  -- A deferred call whose error is dropped.
  unfoldable pub deferred : {A : Type 0} → Exec d.World (Unit {0}) → Exec d.World A → Exec d.World A
  deferred last m w = let (r, w1) = m w in (r, (last w1).1)

  abbrev pub closed_after : {A : Type 0} → Bytes → Result A × d.World → Result A × d.World
  closed_after path (ok a, w) = (ok a, w)
  closed_after path (err e, w) = (err e, (d.close path w).1)

  -- `if err != nil { _ = temporary.Close(); return err }`.
  unfoldable pub or_close : {A : Type 0} → Bytes → Exec d.World A → Exec d.World A
  or_close path m w = closed_after path (m w)

  -- The last steps of both versions.
  unfoldable pub fill : Bytes → Bytes → Bytes → Exec d.World (Unit {0})
  fill temporary path raw = do
    or_close temporary (d.write temporary raw)
    or_close temporary (d.sync temporary)
    d.close temporary
    d.rename temporary path

  -- `replaceFile0600` of Unix.
  unfoldable pub replace_file_0600 : Bytes → Bytes → Exec d.World (Unit {0})
  replace_file_0600 path raw =
      d.create_temp (d.dir path) (codes ".codex-pat-*.tmp") >>= λ temporary.
      deferred (d.remove temporary)
        (or_close temporary (d.chmod temporary private_mode) >> fill temporary path raw)

  abbrev pub tried : Bytes → Exec d.World Bytes → Result (Unit {0}) → Exec d.World Bytes
  tried name again (ok _) = pure name
  tried name again (err e) = if d.is_exist e then again else raise e

  -- The loop of `createPrivateTemporaryFile`, with the attempts left.
  unfoldable pub create_private_from : Bytes → ℕ → Exec d.World Bytes
  create_private_from root zero =
      raise (wrapped "create private temporary file" (plain "file already exists"))
  create_private_from root (suc n) =
      or_raise (wrapped "generate temporary file name") d.random >>= λ bytes.
      let name = d.below root (codes ".codex-pat-" ++ (d.hex bytes ++ codes ".tmp")) in
      attempt (d.open_new name private_mode) >>= tried name (create_private_from root n)

  -- `createPrivateTemporaryFile`.
  unfoldable pub create_private_temporary_file : Bytes → Exec d.World Bytes
  create_private_temporary_file root = create_private_from root temporary_file_attempts

  -- `replaceFile0600` of Windows.
  unfoldable pub replace_file_0600_windows : Bytes → Bytes → Exec d.World (Unit {0})
  replace_file_0600_windows path raw =
      d.open_root (d.dir path)
      >> deferred d.close_root (
          create_private_temporary_file (d.dir path) >>= λ temporary.
          deferred (d.remove temporary) (fill temporary path raw))
