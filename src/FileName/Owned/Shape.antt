-- ===== src/FileName/Owned/Shape.antt =====
-- The suffix of a canonical name: the readable segments behind the hash.
use codex_pat.Base.{
  All, All-append, All-map, Bytes, [], all_of, ap, arith, contains_byte, length, length-append,
  refl, reverse, reverse-append, reverse-reverse, sym, true, ℕ, ◌++◌, ◌||◌, ◌∙◌, ◌∷◌, ◌≡◌, ◌≢◌, ◌≤◌,
}
use codex_pat.FileName.{
  allowed, email_extra, is_ascii_alpha_numeric, is_readable_suffix, last, separators,
}
use codex_pat.FileName.Segment.{IsSegment, IsSegmentByte, first-append}

-- What a byte of a name behind the prefix may be.
abbrev pub IsNameByte : ℕ → Type 0
IsNameByte c = (is_ascii_alpha_numeric c || contains_byte separators c) ≡ true

-- The readable part of a name, from the segments of the email and of the plan.
abbrev pub suffix_of : Bytes → Bytes → Bytes
suffix_of [] [] = []
suffix_of [] (d ∷ p) = b'-' ∷ d ∷ p
suffix_of (c ∷ e) [] = b'-' ∷ c ∷ e
suffix_of (c ∷ e) (d ∷ p) = b'-' ∷ ((c ∷ e) ++ (b'-' ∷ d ∷ p))

segment_byte-IsNameByte :
    (extra : Bytes)
    → ((c : ℕ) → contains_byte extra c ≡ true → contains_byte separators c ≡ true)
    → (c : ℕ) → IsSegmentByte extra c
    → IsNameByte c
unfolding allowed contains_byte
segment_byte-IsNameByte extra sub c h = ground (arith, sub c)

last-append : (p q : Bytes) → q ≢ [] → last (p ++ q) ≡ last q
last-append p q h =
    rw (reverse-append p q)
      (first-append (reverse q) (reverse p) (λ e. h (sym (reverse-reverse q) ∙ ap reverse e)))

readable_of :
    (c : ℕ) (s : Bytes)
    → length (c ∷ s) ≤ 145
    → is_ascii_alpha_numeric c ≡ true
    → is_ascii_alpha_numeric (last (c ∷ s)) ≡ true
    → All IsNameByte (c ∷ s)
    → is_readable_suffix (b'-' ∷ c ∷ s) ≡ true
unfolding is_readable_suffix contains_byte
readable_of c s n begins ends h =
    let t = all_of (λ x. is_ascii_alpha_numeric x || contains_byte separators x) (c ∷ s) h in
    ground arith

pub email_sub : (c : ℕ) → contains_byte email_extra c ≡ true → contains_byte separators c ≡ true
unfolding contains_byte
email_sub c h = ground arith

pub nil_sub : (c : ℕ) → contains_byte [] c ≡ true → contains_byte separators c ≡ true
unfolding contains_byte
nil_sub c h = ground arith

name_bytes :
    (extra : Bytes)
    → ((c : ℕ) → contains_byte extra c ≡ true → contains_byte separators c ≡ true)
    → (s : Bytes) → All (IsSegmentByte extra) s
    → All IsNameByte s
name_bytes extra sub s h = All-map (segment_byte-IsNameByte extra sub) s h

dash : IsNameByte b'-'
unfolding contains_byte is_ascii_alpha_numeric
dash = refl

-- Both segments, joined by a dash, make a readable suffix.
pub suffix_of_lem :
    (e p : Bytes)
    → IsSegment email_extra 96 e
    → IsSegment [] 48 p
    → (is_readable_suffix (suffix_of e p) ≡ true) × All IsNameByte (suffix_of e p)
suffix_of_lem [] [] x y = (unfold is_readable_suffix in refl, tt)
suffix_of_lem [] (d ∷ p) x y =
    let h = name_bytes [] nil_sub (d ∷ p) y.bytes in
    (readable_of d p (omega (arith, y.fits)) (y.begins (cc)) (y.ends (cc)) h, (dash, h))
suffix_of_lem (c ∷ e) [] x y =
    let h = name_bytes email_extra email_sub (c ∷ e) x.bytes in
    (readable_of c e (omega (arith, x.fits)) (x.begins (cc)) (x.ends (cc)) h, (dash, h))
suffix_of_lem (c ∷ e) (d ∷ p) x y =
    let q = b'-' ∷ d ∷ p in
    let h =
      All-append IsNameByte (c ∷ e) q (name_bytes email_extra email_sub (c ∷ e) x.bytes)
        (dash, name_bytes [] nil_sub (d ∷ p) y.bytes) in
    (
      readable_of c (e ++ q) (omega (arith, x.fits, y.fits, length-append (c ∷ e) q))
          (x.begins (cc))
          (rw (last-append (c ∷ e) q (cc))
            (rw (last-append (b'-' ∷ []) (d ∷ p) (cc)) (y.ends (cc))))
          h,
      (dash, h),
    )
