-- ===== src/FileName.antt =====
-- File names of stored credentials (internal/pat/credential.go): the name that the plugin gives
-- a credential, and the reading of a name back into its principal's hash.
pub mod Segment
pub mod Owned
pub mod Principal
use codex_pat.Base.{
  Bool, Bytes, Option, [], all, codes, contains_byte, drop, false, has_prefix, if◌then◌else◌, leb,
  length, ltb, none, not, reverse, same, some, take, true, ℕ, ◌%◌, ◌&&◌, ◌++◌, ◌+◌, ◌-◌, ◌/◌, ◌==◌,
  ◌^◌, ◌||◌, ◌∷◌,
}
use codex_pat.Platform.{Platform}
use codex_pat.Text.Affix.{contains_any, has_suffix, path_base, trim_prefix, trim_suffix}
use codex_pat.Text.Case.{to_lower}
use codex_pat.Text.Trim.{trim, trim_set}

abbrev pub file_prefix : Bytes
file_prefix = codes "codex-pat-"

abbrev pub json_extension : Bytes
json_extension = codes ".json"

abbrev pub identity_hash_hex_length : ℕ
identity_hash_hex_length = 24

abbrev pub max_email_file_segment_bytes : ℕ
max_email_file_segment_bytes = 96

abbrev pub max_plan_file_segment_bytes : ℕ
max_plan_file_segment_bytes = 48

abbrev pub max_readable_file_suffix_bytes : ℕ
max_readable_file_suffix_bytes = max_email_file_segment_bytes + 1 + max_plan_file_segment_bytes

abbrev pub principal_hash_domain : Bytes
principal_hash_domain = codes "codex-pat-principal-v2" ++ 0 ∷ []

unfoldable pub is_ascii_alpha_numeric : ℕ → Bool
is_ascii_alpha_numeric c = leb b'a' c && leb c b'z' || leb b'0' c && leb c b'9'

unfoldable pub is_hex_digit : ℕ → Bool
is_hex_digit c = leb b'0' c && leb c b'9' || leb b'a' c && leb c b'f'

unfoldable pub is_lower_hex : Bytes → Bool
unfolding is_hex_digit
is_lower_hex s = length s == identity_hash_hex_length && all is_hex_digit s

-- The builder with a separator, if one is pending; `none` if there is no room for it.
separate : ℕ → Bytes → Bool → Option Bytes
separate limit out false = some out
separate limit out true = if ltb limit (length out + 2) then none else some (out ++ b'-' ∷ [])

unfoldable pub allowed : Bytes → ℕ → Bool
unfolding is_ascii_alpha_numeric contains_byte
allowed extra c = is_ascii_alpha_numeric c || contains_byte extra c

-- One round of the loop of `sanitizeFileSegment`: a `break` with the builder, or the builder and
-- `pendingSeparator` for the next round.
pub data Round : Type 0 where
  stop : Bytes → Round
  next : Bytes → Bool → Round

unfoldable pub sanitize_round : Bytes → ℕ → ℕ → Bytes → Bool → Round
unfolding separate allowed
sanitize_round extra limit c out pending =
    if not (allowed extra c)
    then next out (ltb 0 (length out))
    else elim (separate limit out pending) [
      | none ↦ stop out
      | some out' ↦ if ltb limit (length out' + 1) then stop out' else next (out' ++ c ∷ []) false
    ]

unfoldable pub sanitize_loop : Bytes → ℕ → Bytes → Bytes → Bool → Bytes
unfolding sanitize_round
sanitize_loop extra limit [] out pending = out
sanitize_loop extra limit (c ∷ s) out pending = elim (sanitize_round extra limit c out pending) [
  | stop out' ↦ out'
  | next out' pending' ↦ sanitize_loop extra limit s out' pending'
]

-- The cut set of the last `strings.Trim`.
abbrev pub separators : Bytes
separators = codes "-@._+"

-- The bytes that are no letters or digits and may stand in an email's segment.
abbrev pub email_extra : Bytes
email_extra = codes "@._+"

abbrev hex_digit : ℕ → ℕ
hex_digit n = if ltb n 10 then n + b'0' else n - 10 + b'a'

-- `hex.EncodeToString`.
unfoldable pub hex_encode : Bytes → Bytes
hex_encode [] = []
hex_encode (c ∷ s) = hex_digit (c / 16) ∷ hex_digit (c % 16) ∷ hex_encode s

-- `binary.BigEndian.PutUint32` of `uint32(n)`.
unfoldable pub put_uint32 : ℕ → Bytes
put_uint32 n = n % 2 ^ 32 / 2 ^ 24 ∷ (n % 2 ^ 24 / 2 ^ 16) ∷ (n % 2 ^ 16 / 2 ^ 8) ∷ (n % 2 ^ 8) ∷ []

-- Each part behind its length.
unfoldable pub frame : Bytes → Bytes → Bytes
unfolding put_uint32
frame account user = put_uint32 (length account) ++ (account ++ (put_uint32 (length user) ++ user))

-- What `principalHash` writes into the hasher.
unfoldable pub principal_preimage : Bytes → Bytes → Bytes
unfolding frame
principal_preimage account user = principal_hash_domain ++ frame (trim account) (trim user)

-- The first and the last byte of a text that is not empty.
abbrev pub first : Bytes → ℕ
first [] = 0
first (c ∷ s) = c

abbrev pub last : Bytes → ℕ
last s = first (reverse s)

-- The part of a name behind the hash: nothing, or a dash and readable segments.
unfoldable pub is_readable_suffix : Bytes → Bool
unfolding is_ascii_alpha_numeric contains_byte
is_readable_suffix [] = true
is_readable_suffix (d ∷ human) =
    not (ltb (length (d ∷ human)) 2)
    && d == b'-'
    && not (ltb max_readable_file_suffix_bytes (length (d ∷ human) - 1))
    && is_ascii_alpha_numeric (first human)
    && is_ascii_alpha_numeric (last human)
    && all (λ c. is_ascii_alpha_numeric c || contains_byte separators c) human

unfoldable pub has_path_part : Bytes → Bool
has_path_part name = not (same (path_base name) name) || contains_any name (codes "/\\")

-- The hash that a stem starts with, if what follows is well formed.
unfoldable pub parse_stem : Bytes → Option Bytes
parse_stem stem =
    if ltb (length stem) identity_hash_hex_length
      || not (is_lower_hex (take identity_hash_hex_length stem))
    then none
    else if is_readable_suffix (drop identity_hash_hex_length stem)
    then some (take identity_hash_hex_length stem)
    else none

-- `name += "-" + segment`, unless the segment is empty.
abbrev pub add_segment : Bytes → Bytes → Bytes
add_segment name [] = name
add_segment name (c ∷ s) = name ++ (codes "-" ++ (c ∷ s))

module _ (go : Platform) where
  -- `sanitizeFileSegment`.
  unfoldable pub sanitize_file_segment : Bytes → Bytes → ℕ → Bytes
  sanitize_file_segment value extra limit =
      let lowered = to_lower go (trim value) in
      if same lowered [] || leb limit 0
      then []
      else trim_set separators (sanitize_loop extra limit lowered [] false)

  -- `principalHash`.
  unfoldable pub principal_hash : Bytes → Bytes → Bytes
  principal_hash account user = hex_encode (take 12 (go.sha256 (principal_preimage account user)))

  -- `FileName`.
  unfoldable pub file_name : Bytes → Bytes → Bytes → Bytes → Bytes
  file_name account user email plan =
      add_segment
        (add_segment (file_prefix ++ principal_hash account user)
          (sanitize_file_segment email email_extra max_email_file_segment_bytes))
        (sanitize_file_segment plan [] max_plan_file_segment_bytes)
      ++ json_extension

  -- `parseOwnedFile`: the hash of the descriptor, or `none`.
  unfoldable pub parse_owned_file : Bytes → Option Bytes
  parse_owned_file raw =
      let name = trim raw in
      let lowered = to_lower go name in
      if same name [] || has_path_part name
      then none
      else if not (has_prefix lowered file_prefix) || not (has_suffix lowered json_extension)
      then none
      else parse_stem (trim_suffix (trim_prefix lowered file_prefix) json_extension)

  -- `IsOwnedFile`.
  unfoldable pub is_owned_file : Bytes → Bool
  is_owned_file name = elim (parse_owned_file name) [ none ↦ false | some hash ↦ true ]

  -- `IsOwnedFileForPrincipal`.
  unfoldable pub is_owned_file_for_principal : Bytes → Bytes → Bytes → Bool
  is_owned_file_for_principal name account user = elim (parse_owned_file name) [
    | none ↦ false
    | some hash ↦
        if same (trim account) [] || same (trim user) []
        then false
        else same hash (principal_hash account user)
  ]

-- `samePrincipal`.
unfoldable pub same_principal : Bytes → Bytes → Bytes → Bytes → Bool
same_principal account user other_account other_user =
    not (same (trim account) [])
    && not (same (trim user) [])
    && same (trim account) (trim other_account)
    && same (trim user) (trim other_user)

-- `isSafeAuthFileName`.
unfoldable pub is_safe_auth_file_name : Platform → Bytes → Bool
is_safe_auth_file_name go raw =
    let name = trim raw in
    not (same name [])
    && same (path_base name) name
    && not (contains_any name (codes "/\\"))
    && has_suffix (to_lower go name) json_extension
