-- ===== src/Abi/HostCall/Asked.antt =====
-- A host call that succeeds has asked the host what it was told to ask.
use codex_pat.Abi.HostCall.{
  answer, call_host_api, call_stored, int_max, raw_host_call, size_fits_go_bytes, taken, with_block,
  with_request,
}
use codex_pat.Abi.Memory.{Buffer, HostApi, IsAllocator, Memory, null_pointer}
use codex_pat.Base.{
  All, Bool, Bytes, Option, [], ap, arith, false, if◌then◌else◌, length, ltb, none, not, refl, same,
  some, sym, true, ℕ, ◌&&◌, ◌<◌, ◌==◌, ◌∙◌, ◌∷◌, ◌≡◌, ◌≢◌, ◌≤◌,
}
use codex_pat.Errors.{Error, Result, err, ok}
use codex_pat.Exec.{Exec}

-- What cgo's copies hold: a C string ends at its first 0, and what is copied stays while it is held.
pub record Copies (m : Memory) : Type 0 where
  pub text :
      (s : Bytes) (w : m.World)
      → All (λ c. c == 0 ≡ false) s
      → (m.copy_text s w).0 ≢ null_pointer
      → m.text_at (m.copy_text s w).1 (m.copy_text s w).0 ≡ s
  pub bytes :
      (s : Bytes) (w : m.World)
      → (m.copy_bytes s w).0 ≢ null_pointer
      → m.bytes_at (m.copy_bytes s w).1 (m.copy_bytes s w).0 (length s) ≡ s
  pub no_bytes : (p : ℕ) (w : m.World) → m.bytes_at w p 0 ≡ []
  pub keeps_text :
      (s : Bytes) (w : m.World) (p : ℕ)
      → m.is_live w p ≡ true
      → m.text_at (m.copy_bytes s w).1 p ≡ m.text_at w p

module _ (m : Memory) where
  -- The host was called with the method and the request, and `raw` is the buffer it has returned.
  pub record Asked (api : Option (HostApi m)) (method request raw : Bytes) : Type 0 where
    pub host : HostApi m
    pub stored : api ≡ some host
    pub method_ptr : ℕ
    pub request_ptr : ℕ
    pub before : m.World
    pub buffer : Buffer
    pub behind : m.World
    pub method_is : m.text_at before method_ptr ≡ method
    pub request_is : m.bytes_at before request_ptr (length request) ≡ request
    pub answered :
        call_host_api m (some host) method_ptr request_ptr (length request) before
        ≡ ((0, buffer), behind)
    pub raw_is : raw ≡ m.bytes_at behind buffer.ptr buffer.len
    pub not_empty : 0 < buffer.len
    pub fits : buffer.len ≤ int_max

  with_block_ok :
      {A : Type 0} {a : A} (allocate : m.World → ℕ × m.World) (e : Error)
      (body : ℕ → Exec m.World A) (w : m.World)
      → (with_block m allocate e body w).0 ≡ ok a
      → ((allocate w).0 ≢ null_pointer) × ((body (allocate w).0 (allocate w).1).0 ≡ ok a)
  unfolding with_block
  with_block_ok {A} {a} allocate e body w h = by_pointer ((allocate w).0 == null_pointer) refl h
    where
      by_pointer :
          (t : Bool)
          → (allocate w).0 == null_pointer ≡ t
          → (if◌then◌else◌ {A = Result A × m.World} t
              (err e, (allocate w).1)
              (let (r, w2) = body (allocate w).0 (allocate w).1 in
                (r, m.release (allocate w).0 w2))).0
            ≡ ok a
          → ((allocate w).0 ≢ null_pointer) × ((body (allocate w).0 (allocate w).1).0 ≡ ok a)
      by_pointer true q h = cc
      by_pointer false q h = (λ z. ground arith, h)

  answer_ok :
      (code : ℕ) (b : Buffer) (raw : Bytes) {raw' : Bytes}
      → answer m code b raw ≡ ok raw'
      → (code ≡ 0) × (raw ≡ raw') × (same raw [] ≡ false)
  answer_ok code b raw h = (ground arith, ground arith, ground arith)

  taken_parts :
      (b : Buffer) (w : m.World)
      → same (taken m b w) [] ≡ false
      → (0 < b.len) × (b.len ≤ int_max) × (taken m b w ≡ m.bytes_at w b.ptr b.len)
  unfolding same
  taken_parts b w h =
      by_test (not (b.ptr == null_pointer) && ltb 0 b.len && size_fits_go_bytes b.len) refl h
    where
      by_test :
          (t : Bool)
          → (not (b.ptr == null_pointer) && ltb 0 b.len && size_fits_go_bytes b.len) ≡ t
          → same (if t then m.bytes_at w b.ptr b.len else []) [] ≡ false
          → (0 < b.len)
            × (b.len ≤ int_max)
            × ((if t then m.bytes_at w b.ptr b.len else []) ≡ m.bytes_at w b.ptr b.len)
      by_test true e h = (ground arith, ground arith, refl)
      by_test false e h = absurd (ground arith)

  call_stored_ok :
      (api : Option (HostApi m)) (method request raw : Bytes) (p q : ℕ) (w : m.World)
      → m.text_at w p ≡ method
      → m.bytes_at w q (length request) ≡ request
      → (call_stored m api p q (length request) w).0 ≡ ok raw
      → Asked api method request raw
  unfolding call_stored
  call_stored_ok none method request raw p q w t b h = cc
  call_stored_ok (some host) method request raw p q w t b h = by_answer _ _ _ refl h
    where
      by_answer :
          (code : ℕ) (buffer : Buffer) (w' : m.World)
          → call_host_api m (some host) p q (length request) w ≡ ((code, buffer), w')
          → answer m code buffer (taken m buffer w') ≡ ok raw
          → Asked (some host) method request raw
      by_answer code buffer w' e h =
          let (c, k, n) = answer_ok code buffer (taken m buffer w') h in
          let (l, f, s) = taken_parts buffer w' n in
          record {
            host = host;
            stored = refl;
            method_ptr = p;
            request_ptr = q;
            before = w;
            buffer = buffer;
            behind = w';
            method_is = t;
            request_is = b;
            answered = e ∙ ap (λ x. ((x, buffer), w')) c;
            raw_is = sym k ∙ s;
            not_empty = l;
            fits = f;
          }

  with_request_ok :
      (c : IsAllocator m) (k : Copies m) (api : Option (HostApi m)) (method request raw : Bytes)
      (p : ℕ) (w : m.World)
      → m.text_at w p ≡ method
      → m.is_live w p ≡ true
      → (with_request m api p request w).0 ≡ ok raw
      → Asked api method request raw
  unfolding with_request
  with_request_ok c k api method [] raw p w t l h =
      call_stored_ok api method [] raw p null_pointer w t (k.no_bytes _ w) h
  with_request_ok c k api method (x ∷ s) raw p w t l h =
      let (n, h') = with_block_ok _ _ _ w h in
      call_stored_ok api method (x ∷ s) raw p _ _ (k.keeps_text (x ∷ s) w p l ∙ t)
        (k.bytes (x ∷ s) w n) h'

  -- A host call that succeeds has called the host whose table is stored, with the method and the
  -- request as they were given, and the host has answered 0; what it returns is the whole of the
  -- host's buffer, which is not empty and no longer than an `int`. The method has no 0 in it, and
  -- cgo's copies hold what is copied.
  pub raw_host_call_asks :
      (c : IsAllocator m) (k : Copies m) (api : Option (HostApi m)) (method request raw : Bytes)
      (w : m.World)
      → All (λ x. x == 0 ≡ false) method
      → (raw_host_call m api method request w).0 ≡ ok raw
      → Asked api method request raw
  unfolding raw_host_call
  raw_host_call_asks c k api method request raw w z h =
      let (n, h') = with_block_ok _ _ _ w h in
      with_request_ok c k api method request raw _ _ (k.text method w z n)
        ((c.texts method w).made n _ ∙ ground arith) h'
