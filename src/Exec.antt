-- ===== src/Exec.antt =====
-- Code that acts on the world outside and may fail: it returns a result or an error, and the
-- world after it in both cases.
pub mod Runs
use codex_pat.Base.{Bool, false, if◌then◌else◌, refl, subst, true, ◌≡◌}
use codex_pat.Errors.{Error, Result, err, ok, ok_injective}

abbrev pub Exec : Type 0 → Type 0 → Type 0
Exec S A = S → Result A × S

module _ {S A : Type 0} where
  unfoldable pub pure : A → Exec S A
  pure a s = (ok a, s)

  unfoldable pub raise : Error → Exec S A
  raise e s = (err e, s)

  unfoldable pub lift : Result A → Exec S A
  lift r s = (r, s)

  -- The error of the call is replaced: `if err != nil { return other }`.
  unfoldable pub or_raise : (Error → Error) → Exec S A → Exec S A
  or_raise f m s = let (r, s') = m s in (elim r [ ok a ↦ ok a | err e ↦ err (f e) ], s')

  -- The error of the call is looked at.
  unfoldable pub attempt : Exec S A → Exec S (Result A)
  attempt m s = let (r, s') = m s in (ok r, s')

module _ {S A B : Type 0} where
  abbrev resume : (A → Exec S B) → Result A → Exec S B
  resume next (err e) w = (err e, w)
  resume next (ok a) w = next a w

  infixl 5 ◌>>=◌ ◌>>◌
  unfoldable pub ◌>>=◌ : Exec S A → (A → Exec S B) → Exec S B
  ◌>>=◌ m next w = let (r, w') = m w in resume next r w'

  abbrev pub ◌>>◌ : Exec S A → Exec S B → Exec S B
  m >> n = m >>= λ _. n

unfoldable pub refuse_if : {S : Type 0} → Bool → Error → Exec S (Unit {0})
refuse_if true e s = (err e, s)
refuse_if false e s = (ok tt, s)

-- Every result of the action satisfies `P`, whatever world it runs in.
pub record Returns {S A : Type 0} (P : A → Type 0) (m : Exec S A) : Type 0 where
  pub at : (s : S) (a : A) → (m s).0 ≡ ok a → P a

module _ {S A : Type 0} {P : A → Type 0} where
  pub Returns-pure : (a : A) → P a → Returns P (pure {S = S} a)
  unfolding pure
  Returns-pure a h = record { at = λ s b e. subst P (ok_injective e) h }

  pub Returns-raise : (e : Error) → Returns P (raise {S = S} e)
  unfolding raise
  Returns-raise e = record { at = λ s b q. cc }

  pub Returns-lift : (r : Result A) → ((a : A) → r ≡ ok a → P a) → Returns P (lift {S = S} r)
  unfolding lift
  Returns-lift r h = record { at = λ s b e. h b e }

  pub Returns-if :
      (b : Bool) (m n : Exec S A)
      → (b ≡ true → Returns P m)
      → (b ≡ false → Returns P n)
      → Returns P (if b then m else n)
  Returns-if true m n hm hn = hm refl
  Returns-if false m n hm hn = hn refl

module _ {S A B : Type 0} {P : B → Type 0} where
  pub Returns-bind :
      {Q : A → Type 0} (m : Exec S A) (f : A → Exec S B)
      → Returns Q m
      → ((a : A) → Q a → Returns P (f a))
      → Returns P (m >>= f)
  unfolding ◌>>=◌
  Returns-bind {Q} m f hm hf = record { at = λ s b e. go (m s).0 (m s).1 (λ a q. hm.at s a q) b e }
    where
      go :
          (r : Result A) (s' : S)
          → ((a : A) → r ≡ ok a → Q a)
          → (b : B) → (resume f r s').0 ≡ ok b
          → P b
      go (ok a) s' h b e = (hf a (h a refl)).at s' b e
      go (err x) s' h b e = cc

  -- The rest of a block, where nothing is known of what it starts from.
  pub Returns-then :
      (m : Exec S A) (f : A → Exec S B) → ((a : A) → Returns P (f a)) → Returns P (m >>= f)
  Returns-then m f hf =
      Returns-bind {Q = λ _. Unit {0}} m f (record { at = λ s a e. tt }) (λ a _. hf a)

module _ {S A : Type 0} {P : A → Type 0} where
  pub Returns-or_raise : (f : Error → Error) (m : Exec S A) → Returns P m → Returns P (or_raise f m)
  unfolding or_raise
  Returns-or_raise f m h = record { at = λ s a e. go (m s).0 e (λ b q. h.at s b q) }
    where
      go :
          {a : A} (r : Result A)
          → elim r [ ok x ↦ ok x | err e ↦ err (f e) ] ≡ ok a
          → ((b : A) → r ≡ ok b → P b)
          → P a
      go {a} (ok x) e k = k a e
      go (err x) e k = cc

-- A block that succeeds has succeeded in its first step and in its rest.
pub then_ok :
    {S A B : Type 0} (m : Exec S A) (f : A → Exec S B) (s : S) {b : B}
    → ((m >>= f) s).0 ≡ ok b
    → (a : A) × ((m s).0 ≡ ok a) × ((f a (m s).1).0 ≡ ok b)
unfolding ◌>>=◌
then_ok {S} {A} m f s {b} h = by_result (m s) h
  where
    by_result :
        (p : Result A × S)
        → (resume f p.0 p.1).0 ≡ ok b
        → (a : A) × (p.0 ≡ ok a) × ((f a p.1).0 ≡ ok b)
    by_result (ok a, s') q = (a, refl, q)
    by_result (err e, s') q = cc

pub or_raise_ok :
    {S A : Type 0} (f : Error → Error) (m : Exec S A) (s : S) {a : A}
    → (or_raise f m s).0 ≡ ok a
    → (m s).0 ≡ ok a
unfolding or_raise
or_raise_ok {S} {A} f m s {a} h = by_result (m s) h
  where
    by_result :
        (p : Result A × S)
        → ◌≡◌ {A = Result A} (elim p.0 [ ok x ↦ ok x | err e ↦ err (f e) ]) (ok a)
        → p.0 ≡ ok a
    by_result (ok x, s') q = q
    by_result (err e, s') q = cc
