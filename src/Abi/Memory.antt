-- ===== src/Abi/Memory.antt =====
-- The C memory behind the plugin's exports, and the host's table of callbacks (cmd/codex-pat/abi.go).
-- Pointers are numbers, and 0 is NULL. The C allocator and the host's functions are parameters.
use codex_pat.Base.{
  Bool, Bool-cases, Bytes, Option, ap, arith, false, inl, inr, not, refl, some, sym, ℕ, ◌&&◌, ◌==◌,
  ◌||◌, ◌∙◌, ◌≡◌, ◌≢◌,
}

-- `cliproxy_buffer`.
pub record Buffer : Type 0 where
  pub ptr : ℕ
  pub len : ℕ

abbrev pub null_pointer : ℕ
null_pointer = 0

abbrev pub empty_buffer : Buffer
empty_buffer = record { ptr = null_pointer; len = 0 }

-- cgo's `C.CString`, `C.CBytes`, `C.free`, `C.GoBytes` and `C.GoString`, and which blocks the
-- process holds.
pub record Memory : Type 1 where
  pub World : Type 0
  pub copy_text : Bytes → World → ℕ × World
  pub copy_bytes : Bytes → World → ℕ × World
  pub release : ℕ → World → World
  pub bytes_at : World → ℕ → ℕ → Bytes
  pub text_at : World → ℕ → Bytes
  pub is_live : World → ℕ → Bool

-- `cliproxy_host_api`, without the context, which its functions hold: `call` takes the method, the
-- request and its length, and `free_buffer` a pointer and a length.
pub record HostApi (m : Memory) : Type 0 where
  pub abi_version : ℕ
  pub call : Option (ℕ → ℕ → ℕ → m.World → (ℕ × Buffer) × m.World)
  pub free_buffer : Option (ℕ → ℕ → m.World → m.World)

module _ (m : Memory) where
  -- The same blocks are held.
  abbrev pub HoldsSame : m.World → m.World → Type 0
  HoldsSame w w' = (q : ℕ) → m.is_live w' q ≡ m.is_live w q

  -- A call that returns a pointer: to a block that was not held before, unless it is NULL.
  pub record Allocates (w : m.World) (p : ℕ) (w' : m.World) : Type 0 where
    pub failed : p ≡ null_pointer → HoldsSame w w'
    pub fresh : p ≢ null_pointer → m.is_live w p ≡ false
    pub made : p ≢ null_pointer → (q : ℕ) → m.is_live w' q ≡ (q == p || m.is_live w q)

  abbrev pub Frees : m.World → ℕ → m.World → Type 0
  Frees w p w' = (q : ℕ) → m.is_live w' q ≡ (not (q == p) && m.is_live w q)

  pub record IsAllocator : Type 0 where
    pub texts : (s : Bytes) (w : m.World) → Allocates w (m.copy_text s w).0 (m.copy_text s w).1
    pub blocks : (s : Bytes) (w : m.World) → Allocates w (m.copy_bytes s w).0 (m.copy_bytes s w).1
    pub releases : (p : ℕ) (w : m.World) → Frees w p (m.release p w)

  -- A host that hands over the buffers of its responses: one is held until it is freed.
  pub record IsPolite (host : HostApi m) : Type 0 where
    pub hands_over :
        (f : ℕ → ℕ → ℕ → m.World → (ℕ × Buffer) × m.World)
        → host.call ≡ some f
        → (method request len : ℕ) (w : m.World)
        → Allocates w (f method request len w).0.1.ptr (f method request len w).1
    pub takes_back :
        (g : ℕ → ℕ → m.World → m.World)
        → host.free_buffer ≡ some g
        → (p len : ℕ) (w : m.World) → Frees w p (g p len w)

  pub HoldsSame-trans : {w w' w'' : m.World} → HoldsSame w w' → HoldsSame w' w'' → HoldsSame w w''
  HoldsSame-trans a b q = b q ∙ a q

  -- What is allocated and then freed, whatever is kept in between.
  pub Frees-Allocates :
      {w w' w'' v : m.World} {p : ℕ}
      → p ≢ null_pointer
      → Allocates w p w'
      → HoldsSame w' w''
      → Frees w'' p v
      → HoldsSame w v
  Frees-Allocates {w} {p} n a s f q = elim (Bool-cases (q == p)) [
    | inl e ↦
        let same_pointer : q ≡ p = ground arith in
        f q ∙ (rw e (sym (ap (m.is_live w) same_pointer ∙ a.fresh n)))
    | inr e ↦ f q ∙ rw e (s q ∙ (a.made n q ∙ rw e refl))
  ]

  pub Allocates-behind :
      {w w' w'' : m.World} {p : ℕ} → HoldsSame w w' → Allocates w' p w'' → Allocates w p w''
  Allocates-behind {p} s a = record {
    failed = λ e q. a.failed e q ∙ s q;
    fresh = λ n. sym (s p) ∙ a.fresh n;
    made = λ n q. a.made n q ∙ ap (λ b. q == p || b) (s q);
  }
