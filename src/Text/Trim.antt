-- ===== src/Text/Trim.antt =====
-- `strings.TrimSpace` and `strings.Trim` of the Go library, on UTF-8 bytes.
pub mod Laws
pub mod Plain
use codex_pat.Base.{
  ℕ, zero, suc, Bool, true, false, ◌&&◌, ◌||◌, List, [], ◌∷◌, reverse, leb, ◌==◌, if◌then◌else◌,
  Bytes, contains_byte,
}

-- The white space of `unicode.IsSpace`, by the length of its encoding.
is_space : ℕ → Bool
is_space a = a == 0x20 || leb 0x09 a && leb a 0x0d

is_space_pair : ℕ → ℕ → Bool
is_space_pair a b = a == 0xc2 && (b == 0x85 || b == 0xa0)

is_space_triple : ℕ → ℕ → ℕ → Bool
is_space_triple a b c =
    a == 0xe1 && b == 0x9a && c == 0x80
    || a == 0xe2 && b == 0x80 && (leb 0x80 c && leb c 0x8a || c == 0xa8 || c == 0xa9 || c == 0xaf)
    || a == 0xe2 && b == 0x81 && c == 0x9f
    || a == 0xe3 && b == 0x80 && c == 0x80

-- The number of bytes of the white space character at the front; 0 if there is none.
unfoldable pub space_width : Bytes → ℕ
unfolding is_space is_space_pair is_space_triple
space_width [] = 0
space_width (a ∷ []) = if is_space a then 1 else 0
space_width (a ∷ b ∷ []) = if is_space a then 1 else if is_space_pair a b then 2 else 0
space_width (a ∷ b ∷ c ∷ s) =
    if is_space a
    then 1
    else if is_space_pair a b
    then 2
    else if is_space_triple a b c
    then 3
    else 0

-- The same at the front of a reversed text.
unfoldable pub space_width_back : Bytes → ℕ
unfolding is_space is_space_pair is_space_triple
space_width_back [] = 0
space_width_back (a ∷ []) = if is_space a then 1 else 0
space_width_back (b ∷ a ∷ []) = if is_space b then 1 else if is_space_pair a b then 2 else 0
space_width_back (c ∷ b ∷ a ∷ s) =
    if is_space c
    then 1
    else if is_space_pair b c
    then 2
    else if is_space_triple a b c
    then 3
    else 0

-- Drops `k` bytes, and then what `width` says for as long as it is positive.
pub walk : (Bytes → ℕ) → ℕ → Bytes → Bytes
walk width k [] = []
walk width (suc k) (c ∷ s) = walk width k s
walk width zero (c ∷ s) = elim (width (c ∷ s)) [ zero ↦ c ∷ s | suc w ↦ walk width w s ]

unfoldable pub trim_left : Bytes → Bytes
unfolding walk space_width
trim_left = walk space_width 0

unfoldable pub trim_right : Bytes → Bytes
unfolding walk space_width_back
trim_right s = reverse (walk space_width_back 0 (reverse s))

-- `strings.TrimSpace`.
unfoldable pub trim : Bytes → Bytes
unfolding trim_left trim_right
trim s = trim_right (trim_left s)

-- `strings.TrimLeft` of an ASCII set.
unfoldable pub trim_left_set : Bytes → Bytes → Bytes
unfolding contains_byte
trim_left_set cut [] = []
trim_left_set cut (c ∷ s) = elim (contains_byte cut c) [
  | true ↦ trim_left_set cut s
  | false ↦ c ∷ s
]

-- `strings.TrimRight` of an ASCII set.
unfoldable pub trim_right_set : Bytes → Bytes → Bytes
unfolding trim_left_set
trim_right_set cut s = reverse (trim_left_set cut (reverse s))

-- `strings.Trim` of an ASCII set.
unfoldable pub trim_set : Bytes → Bytes → Bytes
unfolding trim_right_set
trim_set cut s = trim_right_set cut (trim_left_set cut s)
