-- ===== src/Text/Order.antt =====
-- The order of Go strings, and sorting by a text: `sort.Slice` by a key, and the order of the keys
-- of an object that `encoding/json` writes. Equal keys keep their order, which is one of the orders
-- that `sort.Slice` may leave.
pub mod Sorted
use codex_pat.Base.{Bool, Bytes, List, [], false, if◌then◌else◌, ltb, true, ◌&&◌, ◌==◌, ◌||◌, ◌∷◌}

-- `<` of Go strings.
unfoldable pub text_lt : Bytes → Bytes → Bool
text_lt [] [] = false
text_lt [] (d ∷ t) = true
text_lt (c ∷ s) [] = false
text_lt (c ∷ s) (d ∷ t) = ltb c d || c == d && text_lt s t

module _ {ℓ} {A : Type ℓ} (key : A → Bytes) where
  unfoldable pub insert_by : A → List A → List A
  insert_by a [] = a ∷ []
  insert_by a (b ∷ bs) =
      let rest = insert_by a bs in if text_lt (key b) (key a) then b ∷ rest else a ∷ b ∷ bs

  unfoldable pub sort_by : List A → List A
  unfolding insert_by
  sort_by [] = []
  sort_by (a ∷ xs) = insert_by a (sort_by xs)
