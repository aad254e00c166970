-- ===== src/Credential/Codec/Stored.antt =====
-- New credentials through the store: what `MarshalJSON` writes of one, `DecodeCredential` reads back.
use codex_pat.Base.{
  Bool, Bytes, Option, [], ap, arith, false, if◌then◌else◌, none, refl, same, same-false, some,
  some_injective, subst, sym, true, ℕ, ◌∙◌, ◌∷◌, ◌≡◌, ◌≢◌,
}
use codex_pat.Credential.{
  Credential, auth_kind_pat, empty_credential, has_raw, new_credential, provider_codex,
  sync_fed_ramp_header,
}
use codex_pat.Credential.Codec.{
  assign_key, credential_field_names, decode_credential, decode_owned_credential, delete_all,
  foreign, insert_all, is_marked, key_table, known_fields, marshal, marshal_fields, owned,
  read_headers, unmarshal_marker, unreadable,
}
use codex_pat.Errors.{ok}
use codex_pat.Json.{delete, from_fields, has, insert, lookup, object, single, sort_keys, to_fields}
use codex_pat.Platform.{Platform}
use codex_pat.Text.Case.{equal_fold, is_ascii, lower_byte}
use codex_pat.Text.Order.{insert_by, sort_by, text_lt}
use codex_pat.Text.Struct.{decode_fields, decode_struct, find_field}
use codex_pat.Text.Trim.{trim}
use codex_pat.Whoami.{Identity}

-- The scanner and the clock's text on one written credential: `json.Marshal` writes a text that
-- holds the object and nothing else, and `time.Time` reads back the instant that it has written.
pub record IsReadable (go : Platform) (c : Credential) : Type 0 where
  pub one_value :
      go.scan (marshal go c) ≡ single (object (to_fields (sort_keys (marshal_fields go c))))
  pub instant : go.parse_time (go.format_time c.validated_at) ≡ some c.validated_at
  pub not_blank : trim (marshal go c) ≢ []

module _ (go : Platform) (token : Bytes) (i : Identity) (now : ℕ) where
  decode_fields-sorted :
      (e : Bytes) (b : Bool)
      → go.parse_time (go.format_time now) ≡ some now
      → decode_struct go key_table
          (assign_key go)
          (object (
            to_fields (
              sort_keys (
                marshal_fields go
                  (new_credential token (record i { email = e; fed_ramp = b }) now)))))
          empty_credential
        ≡ some (new_credential token (record i { email = e; fed_ramp = b }) now)
  unfolding decode_struct decode_fields find_field equal_fold is_ascii lower_byte sort_keys sort_by
      insert_by text_lt marshal_fields known_fields new_credential sync_fed_ramp_header insert_all
      delete_all insert delete lookup has has_raw same to_fields assign_key credential_field_names
      read_headers
  decode_fields-sorted [] true t = ground arith
  decode_fields-sorted [] false t = ground arith
  decode_fields-sorted (c ∷ e) true t = ground arith
  decode_fields-sorted (c ∷ e) false t = ground arith

-- The credential that is read back: the new one, with the object that it was read from.
abbrev pub read_back : Platform → Credential → Credential
read_back go c = record c { raw = from_fields (to_fields (sort_keys (marshal_fields go c))) [] }

owned_of :
    (go : Platform) (raw : Bytes) {m : Bytes × Bytes}
    → unmarshal_marker go (go.scan raw) ≡ some m
    → is_marked go m ≡ true
    → decode_owned_credential go raw ≡ owned (decode_credential go raw)
unfolding decode_owned_credential
owned_of go raw {m} e h = go' (unmarshal_marker go (go.scan raw)) e
  where
    go' :
        (o : Option (Bytes × Bytes))
        → o ≡ some m
        → elim o [
          | none ↦ unreadable
          | some n ↦ if is_marked go n then owned (decode_credential go raw) else foreign
        ]
          ≡ owned (decode_credential go raw)
    go' none q = cc
    go' (some n) q =
        let x : is_marked go n ≡ true =
          subst (λ y. is_marked go y ≡ true) (sym (some_injective q)) h in
        rw x

module _ (go : Platform) (token : Bytes) (i : Identity) (now : ℕ)
    (readable : IsReadable go (new_credential token i now)) where
  decoded :
      decode_struct go key_table
        (assign_key go)
        (object (to_fields (sort_keys (marshal_fields go (new_credential token i now)))))
        empty_credential
      ≡ some (new_credential token i now)
  unfolding new_credential sync_fed_ramp_header
  decoded = decode_fields-sorted go token i now i.email i.fed_ramp readable.instant

  -- A new credential is read back from its stored form as it was, with the object that it was read
  -- from beside it. The scanner reads the printer's text, and the time's text is read back.
  pub decode_credential-marshal :
      decode_credential go (marshal go (new_credential token i now))
      ≡ ok (read_back go (new_credential token i now))
  unfolding decode_credential
  decode_credential-marshal = rw (
    same-false (trim (marshal go (new_credential token i now))) readable.not_blank,
    readable.one_value,
    decoded,
  )

  marker_read :
      (e : Bytes) (b : Bool)
      → unmarshal_marker go (
          single (
            object (
              to_fields (
                sort_keys (
                  marshal_fields go
                    (new_credential token (record i { email = e; fed_ramp = b }) now))))))
        ≡ some (provider_codex, auth_kind_pat)
  unfolding decode_struct decode_fields find_field equal_fold is_ascii lower_byte sort_keys sort_by
      insert_by text_lt marshal_fields known_fields new_credential sync_fed_ramp_header insert_all
      delete_all insert delete lookup has has_raw same to_fields assign_key credential_field_names
      read_headers
  marker_read [] true = refl
  marker_read [] false = refl
  marker_read (c ∷ e) true = refl
  marker_read (c ∷ e) false = refl

  marked : is_marked go (provider_codex, auth_kind_pat) ≡ true
  unfolding equal_fold trim is_ascii lower_byte
  marked = refl

  pub decode_owned_credential-marshal :
      decode_owned_credential go (marshal go (new_credential token i now))
      ≡ owned (ok (read_back go (new_credential token i now)))
  decode_owned_credential-marshal =
      owned_of go _ (ap (unmarshal_marker go) readable.one_value ∙ marker_read i.email i.fed_ramp)
        marked
      ∙ ap owned decode_credential-marshal
