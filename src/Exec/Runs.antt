-- ===== src/Exec/Runs.antt =====
-- What an action does to the world: where `I` holds before, `J` holds of a result and the world
-- behind it, and `K` of the world behind an error.
use codex_pat.Base.{Bool, ap, false, if◌then◌else◌, refl, true, ◌≡◌}
use codex_pat.Errors.{Error, Result, err, ok}
use codex_pat.Exec.{Exec, Returns, attempt, lift, or_raise, pure, raise, refuse_if, resume, ◌>>=◌}

abbrev pub After : {S A : Type 0} → (A → S → Type 0) → (S → Type 0) → Result A × S → Type 0
After J K (ok a, s) = J a s
After J K (err e, s) = K s

pub record Runs {S A : Type 0} (I : S → Type 0) (m : Exec S A) (J : A → S → Type 0) (K : S → Type 0)
    : Type 0 where
  pub from : (s : S) → I s → After J K (m s)

module _ {S : Type 0} {I K : S → Type 0} where
  module _ {A : Type 0} {J : A → S → Type 0} where
    pub Runs-pure : (a : A) → ((s : S) → I s → J a s) → Runs I (pure a) J K
    unfolding pure
    Runs-pure a h = record { from = λ s i. h s i }

    pub Runs-raise : (e : Error) → ((s : S) → I s → K s) → Runs I (raise e) J K
    unfolding raise
    Runs-raise e k = record { from = λ s i. k s i }

    pub Runs-lift :
        (r : Result A)
        → ((a : A) → r ≡ ok a → (s : S) → I s → J a s)
        → ((s : S) → I s → K s)
        → Runs I (lift r) J K
    unfolding lift
    Runs-lift (ok a) h k = record { from = λ s i. h a refl s i }
    Runs-lift (err e) h k = record { from = λ s i. k s i }

    pub Runs-if :
        (b : Bool) (m n : Exec S A)
        → (b ≡ true → Runs I m J K)
        → (b ≡ false → Runs I n J K)
        → Runs I (if b then m else n) J K
    Runs-if true m n hm hn = hm refl
    Runs-if false m n hm hn = hn refl

    pub Runs-or_raise :
        (f : Error → Error) (m : Exec S A) → Runs I m J K → Runs I (or_raise f m) J K
    unfolding or_raise
    Runs-or_raise f m h = record { from = λ s i. go (m s) (h.from s i) }
      where
        go :
            (p : Result A × S)
            → After J K p
            → After J K (let (r, s') = p in (elim r [ ok a ↦ ok a | err e ↦ err (f e) ], s'))
        go (ok a, s) q = q
        go (err e, s) q = q

    pub Runs-bind :
        {B : Type 0} {L : B → S → Type 0} (m : Exec S A) (f : A → Exec S B)
        → Runs I m J K
        → ((a : A) → Runs (J a) (f a) L K)
        → Runs I (m >>= f) L K
    unfolding ◌>>=◌
    Runs-bind {L = L} m f hm hf = record { from = λ s i. go (m s) (hm.from s i) }
      where
        go : (p : Result A × S) → After J K p → After L K (let (r, s') = p in resume f r s')
        go (ok a, s) q = (hf a).from s q
        go (err e, s) q = q

    -- What is known of every result of the action.
    pub Runs-Returns :
        {P : A → Type 0} (m : Exec S A)
        → Returns P m
        → Runs I m J K
        → Runs I m (λ a s. P a × J a s) K
    Runs-Returns {P} m r h = record { from = λ s i. go (m s) refl (h.from s i) (r.at s) }
      where
        go :
            {s : S} (p : Result A × S)
            → m s ≡ p
            → After J K p
            → ((a : A) → (m s).0 ≡ ok a → P a)
            → After (λ a s. P a × J a s) K p
        go (ok a, s') e q at = (at a (ap (λ x. x.0) e), q)
        go (err e', s') e q at = q

  module _ {A : Type 0} where
    -- An invariant through an action whose error is looked at.
    pub Runs-attempt : (m : Exec S A) → Runs I m (λ _. I) I → Runs I (attempt m) (λ _. I) K
    unfolding attempt
    Runs-attempt m h = record { from = λ s i. go (m s) (h.from s i) }
      where
        go : (p : Result A × S) → After {A = A} (λ _. I) I p → I (p.1)
        go (ok a, s) q = q
        go (err e, s) q = q

  -- A fact that does not depend on the world.
  pub Runs-assume :
      {A P : Type 0} {J : A → S → Type 0} (m : Exec S A)
      → (P → Runs I m J K)
      → Runs (λ s. P × I s) m J K
  Runs-assume m h = record { from = λ s i. (h (i.0)).from s (i.1) }

  pub Runs-refuse_if :
      (b : Bool) (e : Error)
      → ((s : S) → I s → K s)
      → Runs I (refuse_if b e) (λ _ s. (b ≡ false) × I s) K
  unfolding refuse_if
  Runs-refuse_if true e k = record { from = λ s i. k s i }
  Runs-refuse_if false e k = record { from = λ s i. (refl, i) }

module _ {S A : Type 0} {I K : S → Type 0} {J : A → S → Type 0} (m : Exec S A)
    (h : Runs I m J K) where
  pub Runs-weaken :
      {L : A → S → Type 0} {M : S → Type 0}
      → ((a : A) (s : S) → J a s → L a s)
      → ((s : S) → K s → M s)
      → Runs I m L M
  Runs-weaken {L} {M} f g = record { from = λ s i. go (m s) (h.from s i) }
    where
      go : (p : Result A × S) → After J K p → After L M p
      go (ok a, s) q = f a s q
      go (err e, s) q = g s q

-- What holds behind a result and behind an error, holds.
pub Runs-kept :
    {S A : Type 0} {I K : S → Type 0} (m : Exec S A)
    → Runs I m (λ _. K) K
    → (s : S) → I s
    → K (m s).1
Runs-kept {S} {A} {I} {K} m h s i = go (m s) (h.from s i)
  where
    go : (p : Result A × S) → After {A = A} (λ _. K) K p → K (p.1)
    go (ok a, s) q = q
    go (err e, s) q = q
