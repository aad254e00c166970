-- ===== src/Text/Case.antt =====
-- `strings.ToLower`, `strings.ToUpper` and `strings.EqualFold`. Their ASCII paths are written out.
-- Where a text holds a byte above 127 they go by the Unicode tables, which are parameters.
use codex_pat.Base.{
  All, All-map, Bool, Bytes, [], all, all_of, false, if◌then◌else◌, leb, ltb, map, refl, true, ℕ,
  ◌&&◌, ◌+◌, ◌-◌, ◌==◌, ◌∷◌, ◌≡◌,
}
use codex_pat.Platform.{Platform}

unfoldable pub is_ascii : ℕ → Bool
is_ascii c = ltb c 0x80

unfoldable pub lower_byte : ℕ → ℕ
lower_byte c = if leb b'A' c && leb c b'Z' then c + 32 else c

unfoldable pub upper_byte : ℕ → ℕ
upper_byte c = if leb b'a' c && leb c b'z' then c - 32 else c

module _ (go : Platform) where
  unfoldable pub to_lower : Bytes → Bytes
  unfolding is_ascii lower_byte
  to_lower s = if all is_ascii s then map lower_byte s else go.lower_wide s

  unfoldable pub to_upper : Bytes → Bytes
  unfolding is_ascii upper_byte
  to_upper s = if all is_ascii s then map upper_byte s else go.upper_wide s

  unfoldable pub equal_fold : Bytes → Bytes → Bool
  unfolding is_ascii lower_byte
  equal_fold [] [] = true
  equal_fold [] (y ∷ t) = false
  equal_fold (x ∷ s) [] = false
  equal_fold (x ∷ s) (y ∷ t) =
      if is_ascii x && is_ascii y
      then lower_byte x == lower_byte y && equal_fold s t
      else go.fold_wide (x ∷ s) (y ∷ t)

-- An ASCII text without capitals is its own lower case.
pub to_lower_fixed :
    (go : Platform) (s : Bytes)
    → All (λ c. (is_ascii c ≡ true) × (lower_byte c ≡ c)) s
    → to_lower go s ≡ s
unfolding to_lower
to_lower_fixed go s h = rw (all_of is_ascii s (All-map (λ c p. p.0) s h)) (map_fixed s h)
  where
    map_fixed :
        (t : Bytes) → All (λ c. (is_ascii c ≡ true) × (lower_byte c ≡ c)) t → map lower_byte t ≡ t
    map_fixed [] p = refl
    map_fixed (c ∷ t) (p, ps) = cc (p.1, map_fixed t ps)
