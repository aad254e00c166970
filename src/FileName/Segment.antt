-- ===== src/FileName/Segment.antt =====
-- The readable segments of a name: which bytes they hold, how they begin and end, and their size.
use codex_pat.Base.{
  All, All-append, All-reverse, All-left, All-right, Bool, Bytes, [], ap, arith, contains_byte,
  false, if◌then◌else◌, leb, length, length-append, refl, reverse, reverse-append, reverse-reverse,
  same, subst, sym, true, ℕ, ◌++◌, ◌==◌, ◌||◌, ◌∙◌, ◌∷◌, ◌≡◌, ◌≢◌, ◌≤◌,
}
use codex_pat.FileName.{
  Round, allowed, first, is_ascii_alpha_numeric, last, next, sanitize_file_segment, sanitize_loop,
  sanitize_round, separate, separators, stop,
}
use codex_pat.Platform.{Platform}
use codex_pat.Text.Case.{to_lower}
use codex_pat.Text.Trim.{trim, trim_left_set, trim_right_set, trim_set}

-- What a byte of a segment may be.
abbrev pub IsSegmentByte : Bytes → ℕ → Type 0
IsSegmentByte extra c = (allowed extra c || c == b'-') ≡ true

-- Neither end of the text is in the cut set.
pub record IsCut (cut s : Bytes) : Type 0 where
  pub front : s ≢ [] → contains_byte cut (first s) ≡ false
  pub back : s ≢ [] → contains_byte cut (last s) ≡ false

trim_left_set_tail : (cut s : Bytes) → (p : Bytes) × (s ≡ p ++ trim_left_set cut s)
unfolding trim_left_set
trim_left_set_tail cut [] = ([], refl)
trim_left_set_tail cut (c ∷ s) = go (contains_byte cut c) (trim_left_set_tail cut s)
  where
    go :
        (b : Bool)
        → ((p : Bytes) × (s ≡ p ++ trim_left_set cut s))
        → (p : Bytes) × (c ∷ s ≡ p ++ elim b [ true ↦ trim_left_set cut s | false ↦ c ∷ s ])
    go false rec = ([], refl)
    go true (p, e) = (c ∷ p, ap (◌∷◌ c) e)

trim_left_set_front :
    (cut s : Bytes)
    → trim_left_set cut s ≢ []
    → contains_byte cut (first (trim_left_set cut s)) ≡ false
unfolding trim_left_set
trim_left_set_front cut [] = λ h. absurd (h refl)
trim_left_set_front cut (c ∷ s) = go (contains_byte cut c) refl (trim_left_set_front cut s)
  where
    go :
        (b : Bool)
        → contains_byte cut c ≡ b
        → (trim_left_set cut s ≢ [] → contains_byte cut (first (trim_left_set cut s)) ≡ false)
        → elim b [ true ↦ trim_left_set cut s | false ↦ c ∷ s ] ≢ []
        → contains_byte cut (first (elim b [ true ↦ trim_left_set cut s | false ↦ c ∷ s ])) ≡ false
    go false e rec h = e
    go true e rec h = rec h

pub first-append : (p q : Bytes) → p ≢ [] → first (p ++ q) ≡ first p
first-append [] q h = absurd (h refl)
first-append (c ∷ p) q h = refl

-- `strings.Trim` returns a middle part, with both ends outside the cut set.
pub trim_set_parts : (cut s : Bytes) → (p : Bytes) × (q : Bytes) × (s ≡ p ++ (trim_set cut s ++ q))
unfolding trim_set trim_right_set
trim_set_parts cut s =
    let l = trim_left_set cut s in
    let (p, e) = trim_left_set_tail cut s in
    let (r, f) = trim_left_set_tail cut (reverse l) in
    (p, reverse r, e ∙ ap (◌++◌ p) (sym (reverse-reverse l) ∙ ap reverse f ∙ reverse-append r _))

reverse-ne-nil : (s : Bytes) → reverse s ≢ [] → s ≢ []
reverse-ne-nil s h e = h (ap reverse e)

pub trim_set-IsCut : (cut s : Bytes) → IsCut cut (trim_set cut s)
unfolding trim_set trim_right_set trim_left_set
trim_set-IsCut cut s =
    let l = trim_left_set cut s in
    let t = trim_left_set cut (reverse l) in
    let (r, f) = trim_left_set_tail cut (reverse l) in
    let g : l ≡ reverse t ++ reverse r =
      sym (reverse-reverse l) ∙ ap reverse f ∙ reverse-append r t in
    record {
      front = λ h.
          subst (λ c. contains_byte cut c ≡ false)
            (ap first g ∙ first-append (reverse t) (reverse r) h)
            (trim_left_set_front cut s
              (λ e. h (ap (λ x. reverse (trim_left_set cut (reverse x))) e)));
      back =
          λ h. rw (reverse-reverse t) (trim_left_set_front cut (reverse l) (λ e. h (ap reverse e)));
    }

abbrev Holds : (Bytes → Type 0) → Round → Type 0
Holds P (stop out) = P out
Holds P (next out pending) = P out

-- What every round keeps of the builder holds of the result.
module _ (P : Bytes → Type 0) (extra : Bytes) (limit : ℕ) where
  sanitize_loop_inv :
      ((c : ℕ) (out : Bytes) (pending : Bool)
        → P out
        → Holds P (sanitize_round extra limit c out pending))
      → (s out : Bytes) (pending : Bool) → P out
      → P (sanitize_loop extra limit s out pending)
  unfolding sanitize_loop
  sanitize_loop_inv keep [] out pending h = h
  sanitize_loop_inv keep (c ∷ s) out pending h =
      go (sanitize_round extra limit c out pending) (keep c out pending h)
        (sanitize_loop_inv keep s)
    where
      go :
          (r : Round)
          → Holds P r
          → ((o : Bytes) (p : Bool) → P o → P (sanitize_loop extra limit s o p))
          → P (elim r [ stop o ↦ o | next o p ↦ sanitize_loop extra limit s o p ])
      go (stop o) ho rec = ho
      go (next o p) ho rec = rec o p ho

module _ (extra : Bytes) (limit : ℕ) where
  round_fits :
      (c : ℕ) (out : Bytes) (pending : Bool)
      → length out ≤ limit
      → Holds (λ o. length o ≤ limit) (sanitize_round extra limit c out pending)
  unfolding sanitize_round separate
  round_fits c out false h = ground (arith, length-append out (c ∷ []))
  round_fits c out true h =
      ground (arith, length-append out (b'-' ∷ []), length-append (out ++ b'-' ∷ []) (c ∷ []))

  round_bytes :
      (c : ℕ) (out : Bytes) (pending : Bool)
      → All (IsSegmentByte extra) out
      → Holds (All (IsSegmentByte extra)) (sanitize_round extra limit c out pending)
  unfolding sanitize_round separate
  round_bytes c out false h = ground (arith, All-append (IsSegmentByte extra) out (c ∷ []) h)
  round_bytes c out true h =
      let dashed : All (IsSegmentByte extra) (out ++ b'-' ∷ []) =
        All-append (IsSegmentByte extra) out (b'-' ∷ []) h (ground arith, tt) in
      ground (arith, All-append (IsSegmentByte extra) (out ++ b'-' ∷ []) (c ∷ []) dashed)

-- A readable segment: bytes of its alphabet, no longer than the limit, with a letter or digit at
-- either end.
pub record IsSegment (extra : Bytes) (limit : ℕ) (s : Bytes) : Type 0 where
  pub bytes : All (IsSegmentByte extra) s
  pub fits : length s ≤ limit
  pub begins : s ≢ [] → is_ascii_alpha_numeric (first s) ≡ true
  pub ends : s ≢ [] → is_ascii_alpha_numeric (last s) ≡ true

first-All : (P : ℕ → Type 0) (s : Bytes) → All P s → s ≢ [] → P (first s)
first-All P [] h n = absurd (n refl)
first-All P (c ∷ s) h n = h.0

-- A byte of the alphabet outside the cut set is a letter or a digit.
alpha_of_cut :
    (extra : Bytes) (c : ℕ)
    → (contains_byte extra c ≡ true → contains_byte separators c ≡ true)
    → IsSegmentByte extra c
    → contains_byte separators c ≡ false
    → is_ascii_alpha_numeric c ≡ true
unfolding allowed contains_byte
alpha_of_cut extra c sub h n = ground arith

module _ (extra : Bytes) (limit : ℕ)
    (sub : (c : ℕ) → contains_byte extra c ≡ true → contains_byte separators c ≡ true) where
  trim_set-IsSegment :
      (s : Bytes)
      → All (IsSegmentByte extra) s
      → length s ≤ limit
      → IsSegment extra limit (trim_set separators s)
  trim_set-IsSegment s h n =
      let t = trim_set separators s in
      let (p, q, e) = trim_set_parts separators s in
      let cut = trim_set-IsCut separators s in
      let bytes : All (IsSegmentByte extra) t =
        All-left (IsSegmentByte extra) t q
          (All-right (IsSegmentByte extra) p (t ++ q) (subst (All (IsSegmentByte extra)) e h)) in
      record {
        bytes = bytes;
        fits = omega (arith, ap length e, length-append p (t ++ q), length-append t q);
        begins = λ ne.
            alpha_of_cut extra (first t) (sub (first t))
              (first-All (IsSegmentByte extra) t bytes ne) (cut.front ne);
        ends = λ ne.
            alpha_of_cut extra (last t) (sub (last t))
              (first-All (IsSegmentByte extra) (reverse t)
                (All-reverse (IsSegmentByte extra) t bytes)
                (λ e'. ne (sym (reverse-reverse t) ∙ ap reverse e')))
              (cut.back ne);
      }

  nil-IsSegment : IsSegment extra limit []
  nil-IsSegment = record {
    bytes = tt;
    fits = omega arith;
    begins = λ ne. absurd (ne refl);
    ends = λ ne. absurd (ne refl);
  }

  pub sanitize_file_segment-IsSegment :
      (go : Platform) (value : Bytes)
      → IsSegment extra limit (sanitize_file_segment go value extra limit)
  unfolding sanitize_file_segment
  sanitize_file_segment-IsSegment go value =
      pick (same (to_lower go (trim value)) [] || leb limit 0)
    where
      built :
          IsSegment extra limit
            (trim_set separators (sanitize_loop extra limit (to_lower go (trim value)) [] false))
      built =
          trim_set-IsSegment _
            (sanitize_loop_inv (All (IsSegmentByte extra)) extra limit (round_bytes extra limit)
              (to_lower go (trim value)) [] false tt)
            (sanitize_loop_inv (λ o. length o ≤ limit) extra limit (round_fits extra limit)
              (to_lower go (trim value)) [] false (omega arith))

      pick :
          (b : Bool)
          → IsSegment extra limit (
              if b
              then []
              else trim_set separators
                  (sanitize_loop extra limit (to_lower go (trim value)) [] false))
      pick true = nil-IsSegment
      pick false = built
