-- ===== src/Json.antt =====
-- JSON values, and what the scanner of `encoding/json` makes of a text.
use codex_pat.Base.{
  Bool, Bytes, List, Option, [], arith, false, if◌then◌else◌, none, refl, same, same_iff, some,
  true, ◌∷◌, ◌≡◌,
}
use codex_pat.Text.Order.{sort_by}

mutual
  pub data Json : Type 0 where
    null : Json
    boolean : Bool → Json
    -- a number is kept as its text
    number : Bytes → Json
    string : Bytes → Json
    array : Items → Json
    object : Fields → Json

  pub data Items : Type 0 where
    nothing : Items
    item : Json → Items → Items

  pub data Fields : Type 0 where
    end : Fields
    field : Bytes → Json → Fields → Fields

-- A text holds no value, one value, or one value with more behind it: another value or garbage.
pub data Scan : Type 0 where
  malformed : Scan
  single : Json → Scan
  trailing_value : Json → Scan
  trailing_garbage : Json → Scan

-- `map[string]json.RawMessage`, and any other map with string keys.
abbrev pub Dict : Type 0 → Type 0
Dict V = List (Bytes × V)

module _ {V : Type 0} where
  unfoldable pub lookup : Bytes → Dict V → Option V
  lookup k [] = none
  lookup k ((j, v) ∷ m) = if same j k then some v else lookup k m

  -- `m[k] = v`
  unfoldable pub insert : Bytes → V → Dict V → Dict V
  insert k v [] = (k, v) ∷ []
  insert k v ((j, w) ∷ m) = if same j k then (k, v) ∷ m else (j, w) ∷ insert k v m

  -- `delete(m, k)`
  unfoldable pub delete : Bytes → Dict V → Dict V
  delete k [] = []
  delete k ((j, w) ∷ m) = let rest = delete k m in if same j k then rest else (j, w) ∷ rest

  unfoldable pub has : Bytes → Dict V → Bool
  has k m = elim (lookup k m) [ none ↦ false | some v ↦ true ]

  pub lookup-insert :
      (j k : Bytes) (v : V) (m : Dict V)
      → lookup j (insert k v m) ≡ (if same k j then some v else lookup j m)
  unfolding lookup insert
  lookup-insert j k v [] = refl
  lookup-insert j k v ((i, w) ∷ m) =
      ground (arith, same_iff k j, same_iff i k, same_iff i j, lookup-insert j k v m)

  pub lookup-delete :
      (j k : Bytes) (m : Dict V) → lookup j (delete k m) ≡ (if same k j then none else lookup j m)
  unfolding lookup delete
  lookup-delete j k [] = ground arith
  lookup-delete j k ((i, w) ∷ m) =
      ground (arith, same_iff k j, same_iff i k, same_iff i j, lookup-delete j k m)

-- The map that an object is decoded into: of equal keys the last one counts.
unfoldable pub from_fields : Fields → Dict Json → Dict Json
unfolding insert
from_fields end m = m
from_fields (field k v fs) m = from_fields fs (insert k v m)

-- The object that a map is encoded as.
unfoldable pub to_fields : Dict Json → Fields
to_fields [] = end
to_fields ((k, v) ∷ m) = field k v (to_fields m)

-- The order in which `json.Marshal` writes a map.
unfoldable pub sort_keys : Dict Json → Dict Json
unfolding sort_by
sort_keys = sort_by (λ entry. entry.0)
