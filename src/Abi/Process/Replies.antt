-- ===== src/Abi/Process/Replies.antt =====
-- What a call of the plugin leaves behind: a response that the host owns, or an error and nothing.
use codex_pat.Abi.HostCall.{size_fits_go_bytes}
use codex_pat.Abi.HostCall.Balance.{IsBalanced}
use codex_pat.Abi.Memory.{
  Allocates, Allocates-behind, Buffer, Frees-Allocates, HoldsSame, HoldsSame-trans, IsAllocator,
  Memory, empty_buffer, null_pointer,
}
use codex_pat.Abi.Process.{
  Process, Program, Reply, answer_call, dispatch_plugin, finish_call, initialize_plugin, panicked,
  plugin_call, plugin_free, recover_call, replied, respond, started, write_response,
}
use codex_pat.Base.{
  Bool, Bool-cases, Bytes, [], arith, false, if◌then◌else◌, inl, inr, length, ltb, not, refl, some,
  true, ℕ, ◌&&◌, ◌<◌, ◌==◌, ◌||◌, ◌∷◌, ◌≡◌, ◌≢◌, ◌⊎◌,
}

-- The contract of `cliproxyPluginCall`, from one world to another.
pub data Answered (m : Memory) (w : m.World) : ℕ → Buffer → m.World → Type 0 where
  -- the response is a new block, and all that is held besides
  delivered :
      {b : Buffer} {w' : m.World}
      → b.ptr ≢ null_pointer
      → 0 < b.len
      → Allocates m w b.ptr w'
      → Answered m w 0 b w'
  -- no response, and no block more
  withheld : {w' : m.World} → HoldsSame m w w' → Answered m w 1 empty_buffer w'

-- What holds of a response made at once, and of one made by the dispatcher, holds of every call.
pub answer_call-cases :
    (m : Memory) (program : Program m) (P : (ℕ × Buffer) × Process m → Type 0)
    (method request len : ℕ) (p : Process m)
    → ((raw : Bytes) → P (respond m program empty_buffer raw p))
    → ((text body : Bytes) → P (finish_call m program (dispatch_plugin m program text body p)))
    → P (answer_call m program method request len p)
unfolding answer_call
answer_call-cases m program P method request len p h k =
    elim (Bool-cases (method == null_pointer)) [
      | inl e ↦ rw e (h _)
      | inr e ↦
          elim (Bool-cases
            (ltb 0 len && (request == null_pointer || not (size_fits_go_bytes len)))) [
              | inl f ↦ rw (e, f) (h _)
              | inr f ↦ rw (e, f) (k _ _)
            ]
    ]

-- What is asked of the dispatcher that answers a call: it holds no other blocks when it returns or
-- panics.
abbrev pub IsTidy : (m : Memory) → Program m → Process m → Type 0
IsTidy m program p =
    (method request : Bytes)
    → IsBalanced m ((started m program p.dispatcher).dispatch p.api method request)

module _ (m : Memory) (program : Program m) (c : IsAllocator m) where
  Answered-behind :
      {w w' w'' : m.World} {code : ℕ} {b : Buffer}
      → HoldsSame m w w'
      → Answered m w' code b w''
      → Answered m w code b w''
  Answered-behind s (delivered n l a) = delivered n l (Allocates-behind m s a)
  Answered-behind s (withheld k) = withheld (HoldsSame-trans m s k)

  respond-Answered :
      (raw : Bytes) (p : Process m)
      → Answered m p.world
          (respond m program empty_buffer raw p).0.0
          (respond m program empty_buffer raw p).0.1
          (respond m program empty_buffer raw p).1.world
  unfolding respond write_response
  respond-Answered [] p = withheld λ q. refl
  respond-Answered (x ∷ s) p =
      by_pointer (m.copy_bytes (x ∷ s) p.world).0 _ (c.blocks (x ∷ s) p.world) (Bool-cases _)
    where
      outcome : ℕ → m.World → (Bool × Buffer) × m.World
      outcome ptr w' =
          if ptr == null_pointer
          then ((false, empty_buffer), w')
          else ((true, record { ptr = ptr; len = length (x ∷ s) }), w')

      by_pointer :
          (ptr : ℕ) (w' : m.World)
          → Allocates m p.world ptr w'
          → (ptr == null_pointer ≡ true) ⊎ (ptr == null_pointer ≡ false)
          → Answered m p.world
              (if (outcome ptr w').0.0 then 0 else 1)
              (outcome ptr w').0.1
              (outcome ptr w').1
      by_pointer ptr w' a (inl e) = rw e (withheld (a.failed (ground arith)))
      by_pointer ptr w' a (inr e) = rw e (delivered (λ q. ground arith) (omega arith) a)

  finish_call-Answered :
      (w : m.World) (r : Reply × Process m)
      → HoldsSame m w r.1.world
      → Answered m w
          (finish_call m program r).0.0
          (finish_call m program r).0.1
          (finish_call m program r).1.world
  unfolding recover_call
  finish_call-Answered w (replied raw, p) s = Answered-behind s (respond-Answered raw p)
  finish_call-Answered w (panicked, p) s = Answered-behind s (respond-Answered _ p)

  dispatch_plugin-holds :
      (method request : Bytes) (p : Process m)
      → IsTidy m program p
      → HoldsSame m p.world (dispatch_plugin m program method request p).1.world
  unfolding dispatch_plugin initialize_plugin
  dispatch_plugin-holds method request p t = (t method request).holds p.world

  answer_call-Answered :
      (method request len : ℕ) (p : Process m)
      → IsTidy m program p
      → Answered m p.world
          (answer_call m program method request len p).0.0
          (answer_call m program method request len p).0.1
          (answer_call m program method request len p).1.world
  answer_call-Answered method request len p t =
      answer_call-cases m program (λ r. Answered m p.world r.0.0 r.0.1 r.1.world) method request len
        p (λ raw. respond-Answered raw p)
        λ text body. finish_call-Answered p.world _ (dispatch_plugin-holds text body p t)

  -- A call with a response to fill either returns 0 with a response that is not empty, in a block
  -- that was not held before and is all that is held besides, or 1 with no response and no block
  -- more; a panic of the dispatcher is no exception. The allocator keeps its law, and the dispatcher
  -- that answers, the one there is or a new one, holds no blocks when it is done.
  pub plugin_call_contract :
      (method request len : ℕ) (response : Buffer) (p : Process m)
      → IsTidy m program p
      → (code : ℕ) × (b : Buffer) × (p' : Process m) × (plugin_call m program method request len
            (some response)
            p
          ≡ ((code, some b), p'))
        × Answered m p.world code b p'.world
  unfolding plugin_call
  plugin_call_contract method request len response p t =
      (_, _, _, refl, answer_call-Answered method request len p t)

  -- A call and the release of its response, as the host makes them, leave the same blocks held as
  -- before, whatever the code was. The allocator keeps its law, and the dispatcher that
  -- answers holds no blocks.
  pub plugin_free-plugin_call :
      (method request len : ℕ) (p : Process m)
      → IsTidy m program p
      → let ((code, b), p') = answer_call m program method request len p in
        HoldsSame m p.world (plugin_free m program b.ptr b.len p').world
  unfolding plugin_free
  plugin_free-plugin_call method request len p t =
      by_answer _ (answer_call-Answered method request len p t)
    where
      by_answer :
          {code : ℕ} {b : Buffer} (p' : Process m)
          → Answered m p.world code b p'.world
          → HoldsSame m p.world
              (if b.ptr == null_pointer
                then p'
                else record p' { world = m.release b.ptr p'.world }).world
      by_answer {b} p' (delivered n l a) = elim (Bool-cases (b.ptr == null_pointer)) [
        | inl e ↦ absurd (n (ground arith))
        | inr e ↦ rw e (Frees-Allocates m n a (λ q. refl) (c.releases b.ptr p'.world))
      ]
      by_answer p' (withheld s) = s
