-- ===== src/Text/Struct.antt =====
-- `json.Unmarshal` into a struct: the keys of an object are matched with the struct's fields
-- without regard to case, unknown keys are passed over, and null leaves a value as it is.
use codex_pat.Base.{Bytes, Option, [], arith, if◌then◌else◌, none, refl, some, subst, ◌∷◌, ◌≡◌}
use codex_pat.Json.{Dict, Fields, Json, array, boolean, end, field, null, number, object, string}
use codex_pat.Platform.{Platform}
use codex_pat.Text.Case.{equal_fold}

module _ {F : Type 0} (go : Platform) where
  -- The field that a key stands for.
  unfoldable pub find_field : Bytes → Dict F → Option F
  find_field key [] = none
  find_field key ((name, f) ∷ table) =
      if equal_fold go key name then some f else find_field key table

module _ {F S : Type 0} (go : Platform) (table : Dict F) (assign : F → Json → S → Option S) where
  abbrev assign_found : Option F → Json → S → Option S
  assign_found none v s = some s
  assign_found (some f) v s = assign f v s

  -- `none` stands for a type error. The decoder goes on behind one, and returns it at the end.
  unfoldable pub decode_fields : Fields → S → Option S
  decode_fields end s = some s
  decode_fields (field key v fs) s = elim (assign_found (find_field go key table) v s) [
    | none ↦ none
    | some s' ↦ decode_fields fs s'
  ]

  unfoldable pub decode_struct : Json → S → Option S
  unfolding decode_fields
  decode_struct null s = some s
  decode_struct (object fs) s = decode_fields fs s
  decode_struct (boolean b) s = none
  decode_struct (number n) s = none
  decode_struct (string t) s = none
  decode_struct (array xs) s = none

  -- What every assignment keeps, a decoded struct has.
  pub decode_struct_inv :
      (P : S → Type 0)
      → ((f : F) (v : Json) (s s' : S) → assign f v s ≡ some s' → P s → P s')
      → (j : Json) (s s' : S) → decode_struct j s ≡ some s'
      → P s
      → P s'
  unfolding decode_struct
  decode_struct_inv P keep null s s' e h = subst P (ground arith) h
  decode_struct_inv P keep (object fs) s s' e h = go' fs s e h
    where
      found : (f : Option F) (v : Json) (t t' : S) → assign_found f v t ≡ some t' → P t → P t'
      found none v t t' e h = subst P (ground arith) h
      found (some f) v t t' e h = keep f v t t' e h

      go' : (fs : Fields) (t : S) → decode_fields fs t ≡ some s' → P t → P s'
      go' end t e h = subst P (ground arith) h
      go' (field key v fs) t e h =
          step (assign_found (find_field go key table) v t) refl e (λ u. go' fs u)
        where
          step :
              (r : Option S)
              → assign_found (find_field go key table) v t ≡ r
              → elim r [ none ↦ none | some u ↦ decode_fields fs u ] ≡ some s'
              → ((u : S) → decode_fields fs u ≡ some s' → P u → P s')
              → P s'
          step none q e rec = cc
          step (some u) q e rec = rec u e (found (find_field go key table) v t u q h)
  decode_struct_inv P keep (boolean b) s s' e h = cc
  decode_struct_inv P keep (number n) s s' e h = cc
  decode_struct_inv P keep (string t) s s' e h = cc
  decode_struct_inv P keep (array xs) s s' e h = cc
