-- ===== src/Credential/Codec/Kept.antt =====
-- What `MarshalJSON` keeps of the object that a credential was decoded from.
use codex_pat.Base.{
  All, All-append, Bool, Bytes, List, Option, [], ap, arith, codes, false, if◌then◌else◌, none, not,
  refl, same, some, true, ◌&&◌, ◌++◌, ◌||◌, ◌∙◌, ◌∷◌, ◌≡◌,
}
use codex_pat.Credential.{Credential, forbidden_credential_fields, has_raw}
use codex_pat.Credential.Codec.{
  credential_field_names, delete_all, flag_entry, insert_all, known_fields, map_entry,
  marshal_fields, text_entry, value_entry,
}
use codex_pat.Json.{Dict, Json, boolean, delete, insert, lookup, lookup-delete, lookup-insert}
use codex_pat.Platform.{Platform}

-- Is the key in the list.
abbrev pub listed : Bytes → List Bytes → Bool
listed k [] = false
listed k (j ∷ keys) = same j k || listed k keys

lookup-delete_all :
    (k : Bytes) (keys : List Bytes) (m : Dict Json)
    → lookup k (delete_all keys m) ≡ (if listed k keys then none else lookup k m)
unfolding delete_all
lookup-delete_all k [] m = refl
lookup-delete_all k (j ∷ keys) m =
    ground (arith, lookup-delete_all k keys (delete j m), lookup-delete k j m)

unlisted :
    (k : Bytes) (keys : List Bytes) → listed k keys ≡ false → All (λ j. same j k ≡ false) keys
unlisted k [] h = tt
unlisted k (j ∷ keys) h = let rest = unlisted k keys in (ground arith, rest (ground arith))

abbrev IsOther : Bytes → Bytes × Json → Type 0
IsOther k e = same (e.0) k ≡ false

lookup-insert_all :
    (k : Bytes) (known m : Dict Json)
    → All (IsOther k) known
    → lookup k (insert_all known m) ≡ lookup k m
unfolding insert_all
lookup-insert_all k [] m h = refl
lookup-insert_all k ((j, v) ∷ known) m (n, h) =
    lookup-insert_all k known (insert j v m) h
    ∙ (lookup-insert k j v m ∙ ap (λ b. if b then some v else lookup k m) n)

text_entry-IsOther : (k key s : Bytes) → same key k ≡ false → All (IsOther k) (text_entry key s)
text_entry-IsOther k key [] h = tt
text_entry-IsOther k key (c ∷ s) h = (h, tt)

map_entry-IsOther :
    (k key : Bytes) (m : Dict Bytes) → same key k ≡ false → All (IsOther k) (map_entry key m)
map_entry-IsOther k key [] h = tt
map_entry-IsOther k key (e ∷ m) h = (h, tt)

value_entry-IsOther :
    (k key : Bytes) (o : Option Json) → same key k ≡ false → All (IsOther k) (value_entry key o)
value_entry-IsOther k key none h = tt
value_entry-IsOther k key (some v) h = (h, tt)

flag_entry-IsOther :
    (k key : Bytes) (b : Bool) → same key k ≡ false → All (IsOther k) (flag_entry key b)
flag_entry-IsOther k key false h = tt
flag_entry-IsOther k key true h = (h, tt)

module _ (go : Platform) (c : Credential) (k : Bytes) where
  known_fields-IsOther :
      listed k credential_field_names ≡ false → All (IsOther k) (known_fields go c)
  unfolding known_fields credential_field_names
  known_fields-IsOther h =
      let (
        n0,
        (
          n1,
          (
            n2,
            (
              n3,
              (
                n4,
                (
                  n5,
                  (n6, (n7, (n8, (n9, (n10, (n11, (n12, (n13, (n14, (n15, (n16, (n17, _)))))))))))),
                ),
              ),
            ),
          ),
        ),
      ) =
        unlisted k credential_field_names h in
      (
        n0,
        (
          n1,
          (
            n2,
            (
              n3,
              (
                n4,
                both _ _ (text_entry-IsOther k _ c.email n5) (
                  n6,
                  (
                    n7,
                    (
                      n8,
                      both _ _ (text_entry-IsOther k _ c.validation_state n9) (
                        n10,
                        both _ _ (map_entry-IsOther k _ c.headers n11) (
                            both _ _ (text_entry-IsOther k _ c.base_url n12) (
                              both _ _ (text_entry-IsOther k _ c.proxy_url n13) (
                                both _ _ (text_entry-IsOther k _ c.prefix n14) (
                                  both _ _ (value_entry-IsOther k _ c.priority n15) (
                                    both _ _ (text_entry-IsOther k _ c.note n16)
                                      (flag_entry-IsOther k _ c.websockets n17)))))),
                      ),
                    ),
                  ),
                ),
              ),
            ),
          ),
        ),
      )
    where
      both : (p q : Dict Json) → All (IsOther k) p → All (IsOther k) q → All (IsOther k) (p ++ q)
      both p q a b = All-append (IsOther k) p q a b

  not_websockets : listed k credential_field_names ≡ false → same (codes "websockets") k ≡ false
  unfolding credential_field_names
  not_websockets h = ground arith

  -- A key that is no field of `Credential` keeps its value in the object that is written, and it is
  -- dropped if it is a forbidden one.
  pub lookup-marshal_fields :
      listed k credential_field_names ≡ false
      → lookup k (marshal_fields go c)
        ≡ (if listed k forbidden_credential_fields then none else lookup k c.raw)
  unfolding marshal_fields
  lookup-marshal_fields h = by_flag (has_raw c (codes "websockets") && not c.websockets)
    where
      kept : Dict Json
      kept = delete_all forbidden_credential_fields (delete_all credential_field_names c.raw)

      fields : Dict Json
      fields = insert_all (known_fields go c) kept

      of_fields :
          lookup k fields ≡ (if listed k forbidden_credential_fields then none else lookup k c.raw)
      of_fields =
          lookup-insert_all k (known_fields go c) kept (known_fields-IsOther h)
          ∙ (lookup-delete_all k forbidden_credential_fields
                (delete_all credential_field_names c.raw)
              ∙ ap (λ x. if listed k forbidden_credential_fields then none else x)
                  (lookup-delete_all k credential_field_names c.raw
                    ∙ ap (λ b. if b then none else lookup k c.raw) h))

      by_flag :
          (b : Bool)
          → lookup k (if b then insert (codes "websockets") (boolean false) fields else fields)
            ≡ (if listed k forbidden_credential_fields then none else lookup k c.raw)
      by_flag false = of_fields
      by_flag true =
          lookup-insert k (codes "websockets") (boolean false) fields
          ∙ (ap (λ b. if b then some (boolean false) else lookup k fields) (not_websockets h)
              ∙ of_fields)
