-- ===== src/FileName/Principal.antt =====
-- The text that `principalHash` digests tells principals apart.
use codex_pat.Base.{
  Bytes, [], ap, append-nil, arith, drop, length, refl, ℕ, ◌%◌, ◌++◌, ◌/◌, ◌<◌, ◌^◌, ◌∷◌, ◌≡◌,
}
use codex_pat.FileName.{first, principal_preimage, put_uint32}
use codex_pat.Text.Trim.{trim}

append_cancel :
    (p q : Bytes) {s t : Bytes} → length p ≡ length q → p ++ s ≡ q ++ t → (p ≡ q) × (s ≡ t)
append_cancel [] [] n e = (refl, e)
append_cancel [] (d ∷ q) n e = absurd (omega arith)
append_cancel (c ∷ p) [] n e = absurd (omega arith)
append_cancel (c ∷ p) (d ∷ q) {s} {t} n e =
    let (a, b) = append_cancel p q {s = s} {t = t} (omega arith) (ap (drop 1) e) in
    (let x : c ≡ d = ap first e in cc, b)

put_uint32_injective : (m n : ℕ) → m < 2 ^ 32 → n < 2 ^ 32 → put_uint32 m ≡ put_uint32 n → m ≡ n
unfolding put_uint32
put_uint32_injective m n hm hn e =
    let a : m % 2 ^ 32 / 2 ^ 24 ≡ n % 2 ^ 32 / 2 ^ 24 = ap first e in
    let b : m % 2 ^ 24 / 2 ^ 16 ≡ n % 2 ^ 24 / 2 ^ 16 = ap (λ s. first (drop 1 s)) e in
    let c : m % 2 ^ 16 / 2 ^ 8 ≡ n % 2 ^ 16 / 2 ^ 8 = ap (λ s. first (drop 2 s)) e in
    let d : m % 2 ^ 8 ≡ n % 2 ^ 8 = ap (λ s. first (drop 3 s)) e in omega arith

-- A length and a text of that length, in front of the rest, are read back.
framed :
    (s t : Bytes) {p q : Bytes}
    → length s < 2 ^ 32
    → length t < 2 ^ 32
    → put_uint32 (length s) ++ (s ++ p) ≡ put_uint32 (length t) ++ (t ++ q)
    → (s ≡ t) × (p ≡ q)
framed s t {p} {q} hs ht e =
    let (a, b) =
      append_cancel (put_uint32 (length s)) (put_uint32 (length t)) {s = s ++ p} {t = t ++ q}
        (unfold put_uint32 in refl) e in
    append_cancel s t (put_uint32_injective (length s) (length t) hs ht a) b

-- Two pairs of an account and a user that give one text to the digest are the same pair, but for
-- white space around them, if no part is 4 GiB long.
pub principal_preimage_injective :
    (account user account' user' : Bytes)
    → length (trim account) < 2 ^ 32
    → length (trim user) < 2 ^ 32
    → length (trim account') < 2 ^ 32
    → length (trim user') < 2 ^ 32
    → principal_preimage account user ≡ principal_preimage account' user'
    → (trim account ≡ trim account') × (trim user ≡ trim user')
unfolding principal_preimage
principal_preimage_injective account user account' user' ha hu ha' hu' e =
    let (a, rest) = framed (trim account) (trim account') ha ha' (ap (drop 23) e) in
    let (u, _) =
      framed (trim user) (trim user') {p = []} {q = []} hu hu' (rw (append-nil, append-nil) rest) in
    (a, u)
