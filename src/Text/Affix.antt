-- ===== src/Text/Affix.antt =====
-- Prefixes, suffixes and path elements: `strings.HasSuffix`, `strings.TrimPrefix`,
-- `strings.TrimSuffix`, `strings.ContainsAny`, and `filepath.Base` on Unix.
use codex_pat.Base.{
  ℕ, ◌-◌, ◌≡◌, refl, Bool, true, false, ◌&&◌, ◌||◌, [], ◌∷◌, ◌++◌, reverse, arith, leb, ◌==◌,
  if◌then◌else◌, Bytes, codes, same, same_refl, has_prefix, contains_byte, length, take, drop,
  length-append, drop-append, take-append, All, All-map, All-reverse, ◌≢◌, sym, append-nil,
  append_assoc, reverse-reverse,
}
use codex_pat.Text.Trim.{trim_right_set, trim_left_set}

unfoldable pub has_suffix : Bytes → Bytes → Bool
unfolding same
has_suffix s t = leb (length t) (length s) && same (drop (length s - length t) s) t

unfoldable pub trim_prefix : Bytes → Bytes → Bytes
unfolding has_prefix
trim_prefix s p = if has_prefix s p then drop (length p) s else s

unfoldable pub trim_suffix : Bytes → Bytes → Bytes
unfolding has_suffix
trim_suffix s t = if has_suffix s t then take (length s - length t) s else s

-- `strings.ContainsAny` of an ASCII set.
unfoldable pub contains_any : Bytes → Bytes → Bool
unfolding contains_byte
contains_any [] cut = false
contains_any (c ∷ s) cut = contains_byte cut c || contains_any s cut

-- What follows the last slash.
unfoldable pub last_element : Bytes → Bytes → Bytes
last_element acc [] = acc
last_element acc (c ∷ s) = last_element (if c == b'/' then [] else acc ++ c ∷ []) s

abbrev or_slash : Bytes → Bytes
or_slash [] = codes "/"
or_slash (c ∷ s) = c ∷ s

-- `filepath.Base` on Unix.
unfoldable pub path_base : Bytes → Bytes
unfolding last_element trim_right_set
path_base [] = codes "."
path_base (c ∷ s) = or_slash (last_element [] (trim_right_set (codes "/") (c ∷ s)))

pub has_prefix-append : (p s : Bytes) → has_prefix (p ++ s) p ≡ true
unfolding has_prefix
has_prefix-append [] [] = refl
has_prefix-append [] (c ∷ s) = refl
has_prefix-append (c ∷ p) s = ground (arith, has_prefix-append p s)

pub trim_prefix-append : (p s : Bytes) → trim_prefix (p ++ s) p ≡ s
unfolding trim_prefix
trim_prefix-append p s = rw (has_prefix-append p s) (drop-append p s (length p) refl)

pub has_suffix-append : (s t : Bytes) → has_suffix (s ++ t) t ≡ true
unfolding has_suffix
has_suffix-append s t =
    let n : length s ≡ length (s ++ t) - length t = omega (arith, length-append s t) in
    rw (drop-append s t _ n, same_refl t) (ground (arith, length-append s t))

pub trim_suffix-append : (s t : Bytes) → trim_suffix (s ++ t) t ≡ s
unfolding trim_suffix
trim_suffix-append s t =
    let n : length s ≡ length (s ++ t) - length t = omega (arith, length-append s t) in
    rw (has_suffix-append s t) (take-append s t _ n)

trim_left_set_fixed :
    (cut s : Bytes) → All (λ c. contains_byte cut c ≡ false) s → trim_left_set cut s ≡ s
unfolding trim_left_set
trim_left_set_fixed cut [] h = refl
trim_left_set_fixed cut (c ∷ s) (e, h) = rw (e, trim_left_set)

last_element_fixed : (acc s : Bytes) → All (λ c. c ≢ b'/') s → last_element acc s ≡ acc ++ s
unfolding last_element
last_element_fixed acc [] h = sym (append-nil acc)
last_element_fixed acc (c ∷ s) (e, h) =
    ground (arith, last_element_fixed (acc ++ c ∷ []) s, append_assoc acc (c ∷ []) s)

-- A name without slashes is its own base.
pub path_base_fixed : (c : ℕ) (s : Bytes) → All (λ x. x ≢ b'/') (c ∷ s) → path_base (c ∷ s) ≡ c ∷ s
unfolding path_base trim_right_set contains_byte
path_base_fixed c s h =
    let t : trim_left_set (codes "/") (reverse (c ∷ s)) ≡ reverse (c ∷ s) =
      trim_left_set_fixed (codes "/") (reverse (c ∷ s))
        (All-map (λ x e. ground arith) _ (All-reverse (λ x. x ≢ b'/') (c ∷ s) h)) in
    rw (t, reverse-reverse (c ∷ s), last_element_fixed [] (c ∷ s) h)

pub contains_any_none :
    (cut s : Bytes) → All (λ c. contains_byte cut c ≡ false) s → contains_any s cut ≡ false
unfolding contains_any
contains_any_none cut [] h = refl
contains_any_none cut (c ∷ s) (e, h) = ground (arith, contains_any_none cut s h)
