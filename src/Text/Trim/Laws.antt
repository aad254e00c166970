-- ===== src/Text/Trim/Laws.antt =====
-- `strings.TrimSpace` cuts white space off both ends, and nothing else.
use codex_pat.Base.{
  subst, ℕ, zero, suc, ◌≤◌, ◌≡◌, refl, sym, ◌∙◌, ap, [], ◌∷◌, ◌++◌, reverse, reverse-append,
  reverse-reverse, arith, Bytes, All, All-left, All-right, length, length-append,
}
use codex_pat.Text.Trim.{space_width, space_width_back, walk, trim_left, trim_right, trim}

module _ (width : Bytes → ℕ) where
  -- What the walk leaves is a tail of the text.
  walk_tail : (k : ℕ) (s : Bytes) → (p : Bytes) × (s ≡ p ++ walk width k s)
  unfolding walk
  walk_tail k [] = ([], refl)
  walk_tail (suc k) (c ∷ s) = let (p, e) = walk_tail k s in (c ∷ p, ap (◌∷◌ c) e)
  walk_tail zero (c ∷ s) = go (width (c ∷ s)) (λ w. walk_tail w s)
    where
      go :
          (n : ℕ)
          → ((w : ℕ) → (p : Bytes) × (s ≡ p ++ walk width w s))
          → (p : Bytes) × (c ∷ s ≡ p ++ elim n [ zero ↦ c ∷ s | suc w ↦ walk width w s ])
      go zero rec = ([], refl)
      go (suc w) rec = let (p, e) = rec w in (c ∷ p, ap (◌∷◌ c) e)

  walk_width : (k : ℕ) (s : Bytes) → width [] ≡ 0 → width (walk width k s) ≡ 0
  unfolding walk
  walk_width k [] e = e
  walk_width (suc k) (c ∷ s) e = walk_width k s e
  walk_width zero (c ∷ s) e = go (width (c ∷ s)) refl (λ w. walk_width w s e)
    where
      go :
          (n : ℕ)
          → width (c ∷ s) ≡ n
          → ((w : ℕ) → width (walk width w s) ≡ 0)
          → width (elim n [ zero ↦ c ∷ s | suc w ↦ walk width w s ]) ≡ 0
      go zero h rec = h
      go (suc w) h rec = rec w

  walk_fixed : (s : Bytes) → width s ≡ 0 → walk width 0 s ≡ s
  unfolding walk
  walk_fixed [] e = refl
  walk_fixed (c ∷ s) e = rw (e, walk)

-- A prefix of a text with no white space in front has none.
space_width-append_zero : (p q : Bytes) → space_width (p ++ q) ≡ 0 → space_width p ≡ 0
unfolding space_width
space_width-append_zero [] q h = refl
space_width-append_zero (a ∷ []) [] h = h
space_width-append_zero (a ∷ []) (b ∷ []) h = ground arith
space_width-append_zero (a ∷ []) (b ∷ c ∷ q) h = ground arith
space_width-append_zero (a ∷ b ∷ []) [] h = h
space_width-append_zero (a ∷ b ∷ []) (c ∷ q) h = ground arith
space_width-append_zero (a ∷ b ∷ c ∷ p) q h = h

-- A text that begins and ends with other characters is left alone.
pub record IsTrimmed (s : Bytes) : Type 0 where
  pub front : space_width s ≡ 0
  pub back : space_width_back (reverse s) ≡ 0

pub trim_fixed : {s : Bytes} → IsTrimmed s → trim s ≡ s
unfolding trim
trim_fixed {s} t =
    rw (walk_fixed space_width s t.front, walk_fixed space_width_back (reverse s) t.back)
      (reverse-reverse s)

-- What `trim` cuts off: a head and a tail.
pub record Cuts (s t : Bytes) : Type 0 where
  pub head : Bytes
  pub tail : Bytes
  pub parts : s ≡ head ++ (t ++ tail)

trim_right_parts : (s : Bytes) → (q : Bytes) × (s ≡ trim_right s ++ q)
unfolding trim_right
trim_right_parts s =
    let (p, e) = walk_tail space_width_back 0 (reverse s) in
    (reverse p, sym (reverse-reverse s) ∙ ap reverse e ∙ reverse-append p _)

pub trim-Cuts : (s : Bytes) → Cuts s (trim s)
unfolding trim
trim-Cuts s =
    let (p, e) = walk_tail space_width 0 s in
    let (q, f) = trim_right_parts (trim_left s) in
    record { head = p; tail = q; parts = e ∙ ap (◌++◌ p) f }

pub trim-IsTrimmed : (s : Bytes) → IsTrimmed (trim s)
unfolding trim space_width space_width_back
trim-IsTrimmed s = record {
  front =
      let (q, f) = trim_right_parts (trim_left s) in
      space_width-append_zero (trim_right (trim_left s)) q
        (subst (λ t. space_width t ≡ 0) f (walk_width space_width 0 s refl));
  back = rw reverse-reverse (walk_width space_width_back 0 (reverse (trim_left s)) refl);
}

pub trim_idem : (s : Bytes) → trim (trim s) ≡ trim s
trim_idem s = trim_fixed (trim-IsTrimmed s)

pub length-trim-le : (s : Bytes) → length (trim s) ≤ length s
length-trim-le s =
    let c = trim-Cuts s in
    subst (λ t. length (trim s) ≤ length t) (sym c.parts)
      (omega (arith, length-append c.head (trim s ++ c.tail), length-append (trim s) c.tail))

pub All-trim {ℓ} : (P : ℕ → Type ℓ) (s : Bytes) → All P s → All P (trim s)
All-trim P s h =
    let c = trim-Cuts s in
    All-left P (trim s) c.tail (All-right P c.head (trim s ++ c.tail) (subst (All P) c.parts h))
