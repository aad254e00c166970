-- ===== src/Service/Save/Trace.antt =====
-- A host that keeps a record of what it is given to store: the payloads of `AuthSave` and the texts
-- that replace a file, the newest first. Everything else goes to the host below.
pub mod Waits
pub mod Order
use codex_pat.Base.{Bool, Bytes, List, [], codes, false, same, some, true, ◌||◌, ◌∷◌, ◌≡◌}
use codex_pat.Credential.{Credential}
use codex_pat.Credential.Codec.{marshal}
use codex_pat.Exec.{Exec}
use codex_pat.FileName.{is_owned_file_for_principal}
use codex_pat.Host.{Host}
use codex_pat.Json.{Fields, boolean, lookup, object, sort_keys, string, to_fields}
use codex_pat.Platform.{Platform}
use codex_pat.Service.{fail_closed_fields}
use codex_pat.Text.Affix.{path_base}

pub data Call : Type 0 where
  storing : Bytes → Bytes → Call
  replacing : Bytes → Bytes → Call

abbrev pub quiet : {S A : Type 0} → Exec S A → Exec (S × List Call) A
quiet m s = let (r, w) = m (s.0) in (r, (w, s.1))

abbrev pub noted : {S A : Type 0} → Call → Exec S A → Exec (S × List Call) A
noted call m s = let (r, w) = m (s.0) in (r, (w, call ∷ s.1))

abbrev pub recorded : Host → Host
recorded h = record {
  World = h.World × List Call;
  http_do_limited = λ r n s. let (reply, w) = h.http_do_limited r n (s.0) in (reply, (w, s.1));
  auth_list = quiet h.auth_list;
  auth_get = λ index. quiet (h.auth_get index);
  auth_save = λ name payload. noted (storing name payload) (h.auth_save name payload);
  has_runtime = h.has_runtime;
  auth_get_runtime = λ index. quiet (h.auth_get_runtime index);
  lstat = λ path. quiet (h.lstat path);
  read_file = λ path. quiet (h.read_file path);
  replace_file = λ path text. noted (replacing path text) (h.replace_file path text);
  time_now = λ s. h.time_now (s.0);
  wait = λ n. quiet (h.wait n);
}

-- A payload in which the key access_token is the empty text, and the key disabled is true. A key of the
-- raw object that is spelled with other capitals is not spoken of.
pub record IsClosed (go : Platform) (payload : Bytes) : Type 0 where
  pub fields : Fields
  pub text : payload ≡ go.json_text (object (to_fields (sort_keys (fail_closed_fields go fields))))
  pub empty_token : lookup (codes "access_token") (fail_closed_fields go fields) ≡ some (string [])
  pub disabled : lookup (codes "disabled") (fail_closed_fields go fields) ≡ some (boolean true)

-- Has a payload been saved under the name.
abbrev pub has_saved : Bytes → List Call → Bool
has_saved name [] = false
has_saved name (storing n payload ∷ calls) = same n name || has_saved name calls
has_saved name (replacing path text ∷ calls) = has_saved name calls

-- Every saved payload is closed, and under a name that the plugin owns for the credential's
-- principal. Every text that replaces a file is the credential's, and by then a payload has been
-- saved under the file's name.
abbrev pub IsSound : Platform → Credential → List Call → Type 0
IsSound go c [] = Unit {0}
IsSound go c (storing name payload ∷ calls) =
    IsClosed go payload
    × (is_owned_file_for_principal go name c.account_id c.chatgpt_user_id ≡ true)
    × IsSound go c calls
IsSound go c (replacing path text ∷ calls) =
    (text ≡ marshal go c) × (has_saved (path_base path) calls ≡ true) × IsSound go c calls
