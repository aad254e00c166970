-- ===== src/Tests/Names.antt =====
-- File names at a concrete principal.
use codex_pat.Base.{[], arith, codes, refl, same, true, ◌≡◌, ◌≢◌}
use codex_pat.Errors.{ok}
use codex_pat.Exec.{lift, or_raise, pure, refuse_if, ◌>>=◌}
use codex_pat.FileName.{
  file_name, hex_encode, is_owned_file_for_principal, principal_hash, principal_preimage,
  sanitize_file_segment, sanitize_loop,
}
use codex_pat.FileName.Owned.{is_owned_file_for_principal-file_name}
use codex_pat.FileName.Principal.{principal_preimage_injective}
use codex_pat.Resolve.{choose_any, resolve_file_name, survey}
use codex_pat.Resolve.Safe.{resolve_file_name_safe}
use codex_pat.Tests.Machine.{credential, live_host, machine, machine-IsDigest, zero_name}
use codex_pat.Text.Case.{to_lower}
use codex_pat.Text.Trim.{trim, trim_set}

zero_name_run : file_name machine (codes "account-1") (codes "user-1") [] (codes "plus") ≡ zero_name
unfolding file_name sanitize_file_segment same to_lower trim trim_set sanitize_loop principal_hash
    hex_encode
zero_name_run = refl

account_ne_nil : trim (codes "account-1") ≢ []
unfolding trim
account_ne_nil e = cc

user_ne_nil : trim (codes "user-1") ≢ []
unfolding trim
user_ne_nil e = cc

same_preimage :
    principal_preimage (codes " a") (codes "u") ≡ principal_preimage (codes "a ") (codes " u")
unfolding principal_preimage trim
same_preimage = refl

resolve_run : (resolve_file_name machine credential live_host [] 0).0 ≡ ok zero_name
unfolding resolve_file_name survey refuse_if or_raise lift ◌>>=◌ choose_any file_name same trim pure
    sanitize_file_segment to_lower trim_set sanitize_loop principal_hash hex_encode
resolve_run = refl

is_owned_file_for_principal-file_name_example :
    is_owned_file_for_principal machine
      (file_name machine (codes "account-1") (codes "user-1") (codes "A+b@x.org") (codes "plus"))
      (codes "account-1")
      (codes "user-1")
    ≡ true
is_owned_file_for_principal-file_name_example =
    is_owned_file_for_principal-file_name machine machine-IsDigest (codes "account-1")
      (codes "user-1") (codes "A+b@x.org") (codes "plus") account_ne_nil user_ne_nil

principal_preimage_injective_example :
    (trim (codes " a") ≡ trim (codes "a ")) × (trim (codes "u") ≡ trim (codes " u"))
principal_preimage_injective_example =
    principal_preimage_injective (codes " a") (codes "u") (codes "a ") (codes " u")
      (unfold trim in omega arith) (unfold trim in omega arith) (unfold trim in omega arith)
      (unfold trim in omega arith) same_preimage

resolve_file_name_safe_example :
    is_owned_file_for_principal machine zero_name credential.account_id credential.chatgpt_user_id
    ≡ true
resolve_file_name_safe_example =
    resolve_file_name_safe machine credential live_host machine-IsDigest account_ne_nil user_ne_nil
      [] 0 {name = zero_name} resolve_run
