-- ===== src/Text/Trim/Plain.antt =====
-- A text of visible ASCII characters has no white space at its ends.
use codex_pat.Base.{All, All-reverse, Bytes, [], arith, refl, reverse, ℕ, ◌∷◌, ◌≡◌, ◌≤◌}
use codex_pat.Text.Trim.{space_width, space_width_back}
use codex_pat.Text.Trim.Laws.{IsTrimmed}

abbrev pub IsVisible : ℕ → Type 0
IsVisible c = (33 ≤ c) × (c ≤ 127)

visible_front : (s : Bytes) → All IsVisible s → space_width s ≡ 0
unfolding space_width
visible_front [] h = refl
visible_front (a ∷ []) ((l, u), h) = ground arith
visible_front (a ∷ b ∷ []) ((l, u), h) = ground arith
visible_front (a ∷ b ∷ c ∷ s) ((l, u), h) = ground arith

visible_back : (s : Bytes) → All IsVisible s → space_width_back s ≡ 0
unfolding space_width_back
visible_back [] h = refl
visible_back (a ∷ []) ((l, u), h) = ground arith
visible_back (b ∷ a ∷ []) ((l, u), ((m, v), h)) = ground arith
visible_back (c ∷ b ∷ a ∷ s) ((l, u), ((m, v), ((n, w), h))) = ground arith

pub visible-IsTrimmed : (s : Bytes) → All IsVisible s → IsTrimmed s
visible-IsTrimmed s h = record {
  front = visible_front s h;
  back = visible_back (reverse s) (All-reverse IsVisible s h);
}
