-- ===== src/Host.antt =====
-- The host and the machine, as the services see them: `pat.Host`, `hostrpc.API`, the file system
-- and the clock (internal/pat/service.go, internal/hostrpc/client.go). All of this is outside the
-- plugin, so it is a parameter: a type of worlds, and the calls as actions on it.
use codex_pat.Base.{Bool, Bytes, List, ℕ}
use codex_pat.Exec.{Exec}
use codex_pat.Whoami.{Reply, Request}

-- `pluginapi.HostAuthFileEntry`; the zero time is 0.
pub record FileEntry : Type 0 where
  pub name : Bytes
  pub type_name : Bytes
  pub provider : Bytes
  pub auth_index : Bytes
  pub runtime_only : Bool
  pub disabled : Bool
  pub unavailable : Bool
  pub mod_time : ℕ
  pub updated_at : ℕ

-- `pluginapi.HostAuthGetResponse`.
pub record PhysicalFile : Type 0 where
  pub name : Bytes
  pub json : Bytes

-- `pluginapi.HostAuthSaveResponse`.
pub record SavedFile : Type 0 where
  pub name : Bytes
  pub path : Bytes

-- `os.FileInfo`.
pub record FileInfo : Type 0 where
  pub is_symlink : Bool
  pub is_regular : Bool
  pub mod_time : ℕ

pub record Host : Type 1 where
  pub World : Type 0
  -- host callbacks
  pub http_do_limited : Request → ℕ → World → Reply × World
  pub auth_list : Exec World (List FileEntry)
  pub auth_get : Bytes → Exec World PhysicalFile
  pub auth_save : Bytes → Bytes → Exec World SavedFile
  -- whether the host is a `runtimeHost`, and its callback
  pub has_runtime : Bool
  pub auth_get_runtime : Bytes → Exec World FileEntry
  -- the file system: `os.Lstat`, `os.ReadFile` and `replaceFile0600`
  pub lstat : Bytes → Exec World FileInfo
  pub read_file : Bytes → Exec World Bytes
  pub replace_file : Bytes → Bytes → Exec World (Unit {0})
  -- `time.Now`, and the wait of a poll, which fails when the context is done
  pub time_now : World → ℕ
  pub wait : ℕ → Exec World (Unit {0})
