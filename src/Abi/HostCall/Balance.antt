-- ===== src/Abi/HostCall/Balance.antt =====
-- A host call gives back every block that it and the host have allocated for it.
use codex_pat.Abi.HostCall.{
  call_host_api, call_stored, raw_host_call, take_answer, with_block, with_request,
}
use codex_pat.Abi.Memory.{
  Allocates, Buffer, Frees-Allocates, HoldsSame, HostApi, IsAllocator, IsPolite, Memory,
  null_pointer,
}
use codex_pat.Base.{
  Bool-cases, Bytes, Option, [], arith, false, if◌then◌else◌, inl, inr, none, refl, some, subst,
  sym, true, ℕ, ◌==◌, ◌∷◌, ◌≡◌, ◌⊎◌,
}
use codex_pat.Errors.{Error, Result, err}
use codex_pat.Exec.{Exec}

-- What the plugin asks of a host's table before it keeps it, the version left out.
pub record HasCallbacks {m : Memory} (host : HostApi m) : Type 0 where
  pub call : ℕ → ℕ → ℕ → m.World → (ℕ × Buffer) × m.World
  pub call_is : host.call ≡ some call
  pub free_buffer : ℕ → ℕ → m.World → m.World
  pub free_buffer_is : host.free_buffer ≡ some free_buffer

module _ (m : Memory) where
  -- An action that holds no other blocks when it ends.
  pub record IsBalanced {A : Type 0} (run : m.World → A × m.World) : Type 0 where
    pub holds : (w : m.World) → HoldsSame m w (run w).1

  with_block-IsBalanced :
      {A : Type 0} (allocate : m.World → ℕ × m.World) (e : Error) (body : ℕ → Exec m.World A)
      → IsAllocator m
      → ((w : m.World) → Allocates m w (allocate w).0 (allocate w).1)
      → ((p : ℕ) → IsBalanced (body p))
      → IsBalanced (with_block m allocate e body)
  unfolding with_block
  with_block-IsBalanced {A} allocate e body c a h = record {
    holds = λ w.
        by_pointer w (allocate w).0 (allocate w).1 (a w)
          (Bool-cases ((allocate w).0 == null_pointer));
  }
    where
      by_pointer :
          (w : m.World) (p : ℕ) (w1 : m.World)
          → Allocates m w p w1
          → (p == null_pointer ≡ true) ⊎ (p == null_pointer ≡ false)
          → HoldsSame m w
              (if◌then◌else◌ {A = Result A × m.World}
                (p == null_pointer)
                (err e, w1)
                (let (r, w2) = body p w1 in (r, m.release p w2))).1
      by_pointer w p w1 a (inl b) = rw b (a.failed (ground arith))
      by_pointer w p w1 a (inr b) =
          rw b (Frees-Allocates m (λ q. ground arith) a ((h p).holds w1) (c.releases p _))

  calls-IsBalanced :
      (c : IsAllocator m) (api : Option (HostApi m))
      → ((method request len : ℕ) → IsBalanced (call_stored m api method request len))
      → (method request : Bytes) → IsBalanced (raw_host_call m api method request)
  unfolding raw_host_call with_request
  calls-IsBalanced c api h method request =
      with_block-IsBalanced _ _ _ c (c.texts method) λ p. requests p request
    where
      requests : (p : ℕ) (request : Bytes) → IsBalanced (with_request m api p request)
      requests p [] = h p null_pointer 0
      requests p (x ∷ s) = with_block-IsBalanced _ _ _ c (c.blocks (x ∷ s)) λ q. h p q _

  pub raw_host_call-IsBalanced-none :
      (c : IsAllocator m) (method request : Bytes)
      → IsBalanced (raw_host_call m none method request)
  unfolding call_stored
  raw_host_call-IsBalanced-none c =
      calls-IsBalanced c none λ method request len. record { holds = λ w q. refl }

  module _ (c : IsAllocator m) (host : HostApi m) (polite : IsPolite m host)
      (callbacks : HasCallbacks host) where
    take_answer-holds :
        (w w' : m.World) (code : ℕ) (b : Buffer)
        → Allocates m w b.ptr w'
        → HoldsSame m w (take_answer m host ((code, b), w')).1
    take_answer-holds w w' code b a = by_pointer (Bool-cases (b.ptr == null_pointer))
      where
        by_pointer :
            (b.ptr == null_pointer ≡ true) ⊎ (b.ptr == null_pointer ≡ false)
            → HoldsSame m w (take_answer m host ((code, b), w')).1
        by_pointer (inl e) = rw e (a.failed (ground arith))
        by_pointer (inr e) =
            rw (e, callbacks.free_buffer_is, e)
              (Frees-Allocates m (λ q. ground arith) a (λ q. refl)
                (polite.takes_back callbacks.free_buffer callbacks.free_buffer_is b.ptr b.len w'))

    call_host_api-Allocates :
        (method request len : ℕ) (w : m.World)
        → Allocates m w
            (call_host_api m (some host) method request len w).0.1.ptr
            (call_host_api m (some host) method request len w).1
    call_host_api-Allocates method request len w =
        subst (λ (r : (ℕ × Buffer) × m.World). Allocates m w r.0.1.ptr r.1) (sym is_call)
          (polite.hands_over callbacks.call callbacks.call_is method request len w)
      where
        is_call :
            call_host_api m (some host) method request len w ≡ callbacks.call method request len w
        is_call = rw callbacks.call_is refl

    call_stored-IsBalanced :
        (method request len : ℕ) → IsBalanced (call_stored m (some host) method request len)
    unfolding call_stored
    call_stored-IsBalanced method request len = record {
      holds = λ w.
          take_answer-holds w _ ((call_host_api m (some host) method request len w).0.0) _
            (call_host_api-Allocates method request len w);
    }

    pub raw_host_call-IsBalanced :
        (method request : Bytes) → IsBalanced (raw_host_call m (some host) method request)
    raw_host_call-IsBalanced = calls-IsBalanced c (some host) call_stored-IsBalanced
