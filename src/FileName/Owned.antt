-- ===== src/FileName/Owned.antt =====
-- The plugin recognises the names that it gives, and their principals.
pub mod Shape
use codex_pat.Base.{
  All, All-append, All-map, Bytes, [], all_of, ap, append-nil, append_assoc, arith, codes,
  contains_byte, drop, drop-append, false, length, length-append, of_all, refl, reverse-append,
  same, same-false, same_refl, some, subst, suc, take, take-append, true, zero, ℕ, ◌*◌, ◌++◌, ◌<◌,
  ◌||◌, ◌∷◌, ◌≡◌, ◌≢◌, ◌≤◌,
}
use codex_pat.FileName.{
  add_segment, email_extra, file_name, file_prefix, has_path_part, hex_encode,
  is_ascii_alpha_numeric, is_hex_digit, is_lower_hex, is_owned_file_for_principal,
  is_readable_suffix, json_extension, max_email_file_segment_bytes, max_plan_file_segment_bytes,
  parse_owned_file, parse_stem, principal_hash, principal_preimage, sanitize_file_segment,
  separators,
}
use codex_pat.FileName.Owned.Shape.{IsNameByte, email_sub, nil_sub, suffix_of, suffix_of_lem}
use codex_pat.FileName.Segment.{sanitize_file_segment-IsSegment}
use codex_pat.Platform.{IsDigest, Platform}
use codex_pat.Text.Affix.{
  contains_any_none, has_prefix-append, has_suffix, has_suffix-append, path_base_fixed,
  trim_prefix-append, trim_suffix-append,
}
use codex_pat.Text.Case.{is_ascii, lower_byte, to_lower_fixed}
use codex_pat.Text.Trim.{space_width, space_width_back, trim}
use codex_pat.Text.Trim.Laws.{IsTrimmed, trim_fixed}

-- Hexadecimal digits.
hex_encode_digits :
    (s : Bytes) → All (λ c. c < 256) s → All (λ c. is_hex_digit c ≡ true) (hex_encode s)
unfolding hex_encode is_hex_digit
hex_encode_digits [] h = tt
hex_encode_digits (c ∷ s) (b, h) = (ground arith, (ground arith, hex_encode_digits s h))

length-hex_encode : (s : Bytes) → length (hex_encode s) ≡ 2 * length s
unfolding hex_encode
length-hex_encode [] = refl
length-hex_encode (c ∷ s) = omega (arith, length-hex_encode s)

length-take : (n : ℕ) (s : Bytes) → n ≤ length s → length (take n s) ≡ n
length-take zero s h = refl
length-take (suc n) [] h = absurd (omega arith)
length-take (suc n) (c ∷ s) h = ap suc (length-take n s (omega arith))

All-take : (P : ℕ → Type 0) (n : ℕ) (s : Bytes) → All P s → All P (take n s)
All-take P zero s h = tt
All-take P (suc n) [] h = tt
All-take P (suc n) (c ∷ s) (p, h) = (p, All-take P n s h)

module _ (go : Platform) (digest : IsDigest go.sha256) (account user : Bytes) where
  length-principal_hash : length (principal_hash go account user) ≡ 24
  unfolding principal_hash
  length-principal_hash = omega (
    arith,
    length-hex_encode (take 12 (go.sha256 (principal_preimage account user))),
    length-take 12 (go.sha256 (principal_preimage account user))
        (omega (arith, digest.length_digest (principal_preimage account user))),
  )

  principal_hash_digits : All (λ c. is_hex_digit c ≡ true) (principal_hash go account user)
  unfolding principal_hash
  principal_hash_digits =
      hex_encode_digits _
        (All-take (λ c. c < 256) 12 _ (digest.digest_bytes (principal_preimage account user)))

  principal_hash-is_lower_hex : is_lower_hex (principal_hash go account user) ≡ true
  unfolding is_lower_hex
  principal_hash-is_lower_hex = ground (
    arith,
    length-principal_hash,
    all_of is_hex_digit (principal_hash go account user) principal_hash_digits,
  )

hex_digit-IsNameByte : (c : ℕ) → is_hex_digit c ≡ true → IsNameByte c
unfolding is_hex_digit is_ascii_alpha_numeric contains_byte
hex_digit-IsNameByte c h = ground arith

-- A byte of a name is ASCII, no capital, no slash and no backslash.
name_byte_lower : (c : ℕ) → IsNameByte c → (is_ascii c ≡ true) × (lower_byte c ≡ c)
unfolding is_ascii_alpha_numeric contains_byte is_ascii lower_byte
name_byte_lower c h = ground arith

name_byte_ne_slash : (c : ℕ) → IsNameByte c → c ≢ b'/'
unfolding is_ascii_alpha_numeric contains_byte
name_byte_ne_slash c h = ground arith

name_byte_plain : (c : ℕ) → IsNameByte c → contains_byte (codes "/\\") c ≡ false
unfolding is_ascii_alpha_numeric contains_byte
name_byte_plain c h = ground arith

prefix_bytes : All IsNameByte file_prefix
unfolding is_ascii_alpha_numeric contains_byte
prefix_bytes = of_all (λ c. is_ascii_alpha_numeric c || contains_byte separators c) file_prefix refl

extension_bytes : All IsNameByte json_extension
unfolding is_ascii_alpha_numeric contains_byte
extension_bytes =
    of_all (λ c. is_ascii_alpha_numeric c || contains_byte separators c) json_extension refl

-- A stem between the prefix and the extension.
abbrev around : Bytes → Bytes
around stem = file_prefix ++ (stem ++ json_extension)

module _ (stem : Bytes) (h : All IsNameByte stem) where
  around-All : All IsNameByte (around stem)
  around-All =
      All-append IsNameByte file_prefix (stem ++ json_extension) prefix_bytes
        (All-append IsNameByte stem json_extension h extension_bytes)

  around-IsTrimmed : IsTrimmed (around stem)
  unfolding space_width space_width_back
  around-IsTrimmed = record {
    front = refl;
    back = rw (← append_assoc file_prefix stem json_extension, reverse-append) refl;
  }

  around-has_path_part : has_path_part (around stem) ≡ false
  unfolding has_path_part
  around-has_path_part =
      rw
        (
          path_base_fixed b'c' (drop 1 (around stem))
              (All-map name_byte_ne_slash (around stem) around-All),
          same_refl (around stem),
        )
        (contains_any_none (codes "/\\") (around stem)
          (All-map name_byte_plain (around stem) around-All))

  around-has_suffix : has_suffix (around stem) json_extension ≡ true
  around-has_suffix =
      subst (λ t. has_suffix t json_extension ≡ true) (append_assoc file_prefix stem json_extension)
        (has_suffix-append (file_prefix ++ stem) json_extension)

  pub parse_owned_file-around :
      (go : Platform) → parse_owned_file go (around stem) ≡ parse_stem stem
  unfolding parse_owned_file same
  parse_owned_file-around go = rw (
    trim_fixed around-IsTrimmed,
    to_lower_fixed go (around stem) (All-map name_byte_lower (around stem) around-All),
    around-has_path_part,
    has_prefix-append file_prefix (stem ++ json_extension),
    trim_prefix-append file_prefix (stem ++ json_extension),
    trim_suffix-append stem json_extension,
    around-has_suffix,
  )

parse_stem_lem :
    (hash suffix : Bytes)
    → is_lower_hex hash ≡ true
    → length hash ≡ 24
    → is_readable_suffix suffix ≡ true
    → parse_stem (hash ++ suffix) ≡ some hash
unfolding parse_stem
parse_stem_lem hash suffix hex n readable =
    rw (take-append hash suffix 24 n, drop-append hash suffix 24 n, hex, readable)
      (ground (arith, length-append hash suffix))

module _ (go : Platform) (digest : IsDigest go.sha256) (account user email plan : Bytes) where
  email_segment : Bytes
  email_segment = sanitize_file_segment go email email_extra max_email_file_segment_bytes

  plan_segment : Bytes
  plan_segment = sanitize_file_segment go plan [] max_plan_file_segment_bytes

  file_name-around :
      file_name go account user email plan
      ≡ around (principal_hash go account user ++ suffix_of email_segment plan_segment)
  unfolding file_name email_segment plan_segment
  file_name-around = go' email_segment plan_segment
    where
      go' :
          (e p : Bytes)
          → add_segment (add_segment (file_prefix ++ principal_hash go account user) e) p
              ++ json_extension
            ≡ around (principal_hash go account user ++ suffix_of e p)
      go' [] [] = simp (append_assoc, append-nil)
      go' [] (d ∷ p) = simp append_assoc
      go' (c ∷ e) [] = simp append_assoc
      go' (c ∷ e) (d ∷ p) = simp append_assoc

  -- The name that the plugin gives a credential reads back as the hash of its principal.
  pub parse_owned_file-file_name :
      parse_owned_file go (file_name go account user email plan)
      ≡ some (principal_hash go account user)
  parse_owned_file-file_name =
      let hash = principal_hash go account user in
      let suffix = suffix_of email_segment plan_segment in
      let (readable, bytes) =
        suffix_of_lem email_segment plan_segment
          (unfold email_segment in
            sanitize_file_segment-IsSegment email_extra 96 email_sub go email)
          (unfold plan_segment in sanitize_file_segment-IsSegment [] 48 nil_sub go plan) in
      let all_bytes : All IsNameByte (hash ++ suffix) =
        All-append IsNameByte hash suffix
          (All-map hex_digit-IsNameByte hash (principal_hash_digits go digest account user))
          bytes in
      rw (file_name-around, parse_owned_file-around (hash ++ suffix) all_bytes go)
        (parse_stem_lem hash suffix (principal_hash-is_lower_hex go digest account user)
          (length-principal_hash go digest account user) readable)

  -- Every name that `FileName` gives an account and a user that are not blank is recognised as owned
  -- for them, whatever the email and the plan. The digest is taken to be 32 bytes long.
  pub is_owned_file_for_principal-file_name :
      trim account ≢ []
      → trim user ≢ []
      → is_owned_file_for_principal go (file_name go account user email plan) account user ≡ true
  unfolding is_owned_file_for_principal
  is_owned_file_for_principal-file_name a u =
      rw (parse_owned_file-file_name, is_owned_file_for_principal)
        (rw (same-false (trim account) a, same-false (trim user) u)
          (same_refl (principal_hash go account user)))
