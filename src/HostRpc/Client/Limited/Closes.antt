-- ===== src/HostRpc/Client/Limited/Closes.antt =====
-- The end of the stream of a bounded call over the host: on a bridge that lists the methods that it is
-- called with, the newest first.
use codex_pat.Base.{Bool, Bytes, List, [], false, if◌then◌else◌, same, some, suc, ℕ, ◌∷◌, ◌≡◌}
use codex_pat.Exec.{Exec}
use codex_pat.Exec.Runs.{Runs}
use codex_pat.HostRpc.Client.{Client, Sdk}
use codex_pat.Platform.{Platform}

abbrev noted : {W A : Type 0} → Bytes → Exec W A → Exec (W × List Bytes) A
noted method m s = let (r, w) = m (s.0) in (r, (w, method ∷ s.1))

abbrev pub logged :
    {W : Type 0} → (Bytes → Bytes → Exec W Bytes) → (W → Bool) → Client (W × List Bytes)
logged call cancelled = record {
  call = some (λ method request. noted method (call method request));
  cancelled = λ s. cancelled (s.0);
}

-- The number of closing calls.
abbrev pub count_closes : Sdk → List Bytes → ℕ
count_closes sdk [] = 0
count_closes sdk (method ∷ methods) =
    if same method sdk.method_host_http_stream_close
    then suc (count_closes sdk methods)
    else count_closes sdk methods

-- The names of the methods that open and read a stream are not that of the one that closes it.
pub record IsDistinct (sdk : Sdk) : Type 0 where
  pub open_other : same sdk.method_host_http_do_stream sdk.method_host_http_stream_close ≡ false
  pub read_other : same sdk.method_host_http_stream_read sdk.method_host_http_stream_close ≡ false

module _ (go : Platform) (sdk : Sdk) (apart : IsDistinct sdk) {W : Type 0}
    (call : Bytes → Bytes → Exec W Bytes) where
  abbrev On : (List Bytes → Type 0) → (W × List Bytes) → Type 0
  On I s = I (s.1)

  module _ (cancelled : W → Bool) where
    abbrev client : Client (W × List Bytes)
    client = logged call cancelled
