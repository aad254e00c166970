-- ===== src/Text/Order/Sorted.antt =====
-- Sorting by a text sorts, and keeps the items.
use mathlib.Core.List.{Perm}
use mathlib.Core.List.Perm
use codex_pat.Base.{
  Bool, Bool-cases, Bytes, List, [], arith, false, if◌then◌else◌, inl, inr, refl, true, ◌∷◌, ◌≡◌,
  ◌⊎◌,
}
use codex_pat.Text.Order.{insert_by, sort_by, text_lt}

pub text_lt_asymm : (s t : Bytes) → text_lt s t ≡ true → text_lt t s ≡ false
unfolding text_lt
text_lt_asymm [] [] h = cc
text_lt_asymm [] (d ∷ t) h = refl
text_lt_asymm (c ∷ s) [] h = cc
text_lt_asymm (c ∷ s) (d ∷ t) h = ground (arith, text_lt_asymm s t)

module _ {ℓ} {A : Type ℓ} (key : A → Bytes) where
  -- No item has a smaller key than the one before it.
  pub data IsSorted : List A → Type ℓ where
    nil : IsSorted []
    one : (a : A) → IsSorted (a ∷ [])
    more :
        {a b : A} {xs : List A}
        → text_lt (key b) (key a) ≡ false
        → IsSorted (b ∷ xs)
        → IsSorted (a ∷ b ∷ xs)

  -- The head of what `insert_by` makes of a sorted list is not below `b`, if neither part is.
  insert_by-IsSorted_behind :
      (b a : A) (xs : List A)
      → text_lt (key a) (key b) ≡ false
      → IsSorted (b ∷ xs)
      → IsSorted (insert_by key a xs)
      → IsSorted (b ∷ insert_by key a xs)
  unfolding insert_by
  insert_by-IsSorted_behind b a [] h s r = more h r
  insert_by-IsSorted_behind b a (c ∷ xs) h (more k s) r = by_test (text_lt (key c) (key a)) r
    where
      by_test :
          (t : Bool)
          → IsSorted (if t then c ∷ insert_by key a xs else a ∷ c ∷ xs)
          → IsSorted (b ∷ (if t then c ∷ insert_by key a xs else a ∷ c ∷ xs))
      by_test true r = more k r
      by_test false r = more h r

  insert_by-IsSorted : (a : A) (xs : List A) → IsSorted xs → IsSorted (insert_by key a xs)
  unfolding insert_by
  insert_by-IsSorted a [] s = one a
  insert_by-IsSorted a (b ∷ []) (one _) = by_test (Bool-cases (text_lt (key b) (key a)))
    where
      by_test :
          (text_lt (key b) (key a) ≡ true) ⊎ (text_lt (key b) (key a) ≡ false)
          → IsSorted (if text_lt (key b) (key a) then b ∷ a ∷ [] else a ∷ b ∷ [])
      by_test (inl e) = rw e (more (text_lt_asymm _ _ e) (one a))
      by_test (inr e) = rw e (more e (one b))
  insert_by-IsSorted a (b ∷ c ∷ xs) (more k s) =
      let rest = insert_by-IsSorted a (c ∷ xs) s in
      elim (Bool-cases (text_lt (key b) (key a))) [
        | inl e ↦
            rw e (insert_by-IsSorted_behind b a (c ∷ xs) (text_lt_asymm _ _ e) (more k s) rest)
        | inr e ↦ rw e (more e (more k s))
      ]

  pub sort_by-IsSorted : (xs : List A) → IsSorted (sort_by key xs)
  unfolding sort_by
  sort_by-IsSorted [] = nil
  sort_by-IsSorted (a ∷ xs) = insert_by-IsSorted a _ (sort_by-IsSorted xs)

  insert_by-perm : (a : A) (xs : List A) → Perm (insert_by key a xs) (a ∷ xs)
  unfolding insert_by
  insert_by-perm a [] = Perm.refl _
  insert_by-perm a (b ∷ xs) = by_test (text_lt (key b) (key a)) (insert_by-perm a xs)
    where
      by_test :
          (t : Bool)
          → Perm (insert_by key a xs) (a ∷ xs)
          → Perm (if t then b ∷ insert_by key a xs else a ∷ b ∷ xs) (a ∷ b ∷ xs)
      by_test true r = Perm.trans (Perm.cons b r) (Perm.swap a b xs)
      by_test false r = Perm.refl _

  pub sort_by-perm : (xs : List A) → Perm (sort_by key xs) xs
  unfolding sort_by
  sort_by-perm [] = Perm.refl _
  sort_by-perm (a ∷ xs) = Perm.trans (insert_by-perm a _) (Perm.cons a (sort_by-perm xs))
