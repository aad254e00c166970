-- ===== src/Abi/HostCall.antt =====
-- `rawHostCall` (cmd/codex-pat/abi.go) and the C functions it uses. The lock, and the context that a
-- host's function is given, are left out.
pub mod Balance
pub mod Asked
use codex_pat.Abi.Memory.{Buffer, HostApi, Memory, empty_buffer, null_pointer}
use codex_pat.Base.{
  Bool, Bytes, Option, [], if◌then◌else◌, leb, length, ltb, none, not, same, some, ℕ, ◌&&◌, ◌-◌,
  ◌==◌, ◌^◌, ◌∷◌,
}
use codex_pat.Errors.{Error, Result, err, ok, plain}
use codex_pat.Exec.{Exec}

-- `INT_MAX`, of 32 bits.
abbrev pub int_max : ℕ
int_max = 2 ^ 31 - 1

-- `size_fits_go_bytes`.
abbrev pub size_fits_go_bytes : ℕ → Bool
size_fits_go_bytes len = leb len int_max

module _ (m : Memory) where
  -- `call_host_api`.
  abbrev pub call_host_api : Option (HostApi m) → ℕ → ℕ → ℕ → m.World → (ℕ × Buffer) × m.World
  call_host_api none method request len w = ((1, empty_buffer), w)
  call_host_api (some host) method request len w = elim host.call [
    | none ↦ ((1, empty_buffer), w)
    | some call ↦ call method request len w
  ]

  -- `free_host_buffer`.
  abbrev pub free_host_buffer : Option (HostApi m) → ℕ → ℕ → m.World → m.World
  free_host_buffer none ptr len w = w
  free_host_buffer (some host) ptr len w = elim host.free_buffer [
    | none ↦ w
    | some free_buffer ↦ if ptr == null_pointer then w else free_buffer ptr len w
  ]

  -- A block with a deferred `C.free`.
  unfoldable pub with_block :
      {A : Type 0} → (m.World → ℕ × m.World) → Error → (ℕ → Exec m.World A) → Exec m.World A
  with_block allocate e body w =
      let (p, w1) = allocate w in
      if p == null_pointer then (err e, w1) else (let (r, w2) = body p w1 in (r, m.release p w2))

  -- The bytes of the response that Go can hold.
  abbrev pub taken : Buffer → m.World → Bytes
  taken b w =
      if not (b.ptr == null_pointer) && ltb 0 b.len && size_fits_go_bytes b.len
      then m.bytes_at w b.ptr b.len
      else []

  abbrev pub answer : ℕ → Buffer → Bytes → Result Bytes
  answer code b raw =
      if not (code == 0)
      then err (plain "host callback failed")
      else if ltb 0 b.len && same raw []
      then err (plain "host callback response is too large")
      else if same raw []
      then err (plain "host callback returned no response")
      else ok raw

  abbrev pub take_answer : HostApi m → (ℕ × Buffer) × m.World → Result Bytes × m.World
  take_answer host ((code, b), w) = (
    answer code b (taken b w),
    if not (b.ptr == null_pointer) then free_host_buffer (some host) b.ptr b.len w else w,
  )

  unfoldable pub call_stored : Option (HostApi m) → ℕ → ℕ → ℕ → Exec m.World Bytes
  call_stored none method request len w = (err (plain "host callback is unavailable"), w)
  call_stored (some host) method request len w =
      take_answer host (call_host_api (some host) method request len w)

  unfoldable pub with_request : Option (HostApi m) → ℕ → Bytes → Exec m.World Bytes
  with_request api method [] = call_stored api method null_pointer 0
  with_request api method (c ∷ s) =
      with_block (m.copy_bytes (c ∷ s)) (plain "allocate host callback request")
        λ request. call_stored api method request (length (c ∷ s))

  -- `rawHostCall`.
  unfoldable pub raw_host_call : Option (HostApi m) → Bytes → Bytes → Exec m.World Bytes
  raw_host_call api method request =
      with_block (m.copy_text method) (plain "allocate host callback method")
        λ ptr. with_request api ptr request
