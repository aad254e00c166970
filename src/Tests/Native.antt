-- ===== src/Tests/Native.antt =====
-- A small memory and a host over it: blocks are numbered as they are made, and the allocator fails
-- where the next number is taken.
use codex_pat.Abi.HostCall.{call_stored, raw_host_call, with_block, with_request}
use codex_pat.Abi.HostCall.Asked.{Asked, Copies}
use codex_pat.Abi.HostCall.Balance.{IsBalanced}
use codex_pat.Abi.Memory.{
  Allocates, Buffer, Frees, HostApi, IsAllocator, IsPolite, Memory, empty_buffer, null_pointer,
}
use codex_pat.Abi.Process.{
  Dispatcher, PluginApi, Process, Program, host_api_compatible, plugin_call, plugin_init, replied,
}
use codex_pat.Abi.Process.Replies.{Answered, IsTidy, plugin_call_contract}
use codex_pat.Abi.Process.Steps.{
  IsSafe, Reachable, Reachable-IsSafe, initialise, loaded, step, stepped,
}
use codex_pat.Base.{
  Bool, Bool-cases, Bytes, Option, [], ap, arith, codes, false, if◌then◌else◌, inl, inr, length,
  none, not, refl, same, some, some_injective, subst, suc, take, true, ℕ, ◌&&◌, ◌==◌, ◌||◌, ◌∙◌,
  ◌∷◌, ◌≡◌, ◌≢◌,
}
use codex_pat.Errors.{ok}
use codex_pat.Exec.{lift, or_raise, ◌>>=◌}
use codex_pat.HostRpc.Client.{
  Client, Sdk, auth_get, auth_get_runtime, auth_list, auth_save, callback_field,
  host_auth_save_request, http_do, invoke_method, log,
}
use codex_pat.HostRpc.Client.Asks.{auth_save_asks, native_client}
use codex_pat.HostRpc.Client.Limited.{close_http_stream, host_http_do_limited}
use codex_pat.HostRpc.Client.Limited.Balance.{clients-IsBalanced}
use codex_pat.HostRpc.Envelope.{Envelope, decode_envelope}
use codex_pat.Json.{Json, end, field, object, single, string}
use codex_pat.Tests.Machine.{machine}
use codex_pat.Text.Trim.{trim}

pub record Heap : Type 0 where
  pub next : ℕ
  pub held : ℕ → Bool
  pub texts : ℕ → Bytes

abbrev is_full : Heap → Bool
is_full w = w.next == 0 || w.held w.next

abbrev extended : Bytes → Heap → Heap
extended s w = record {
  next = suc w.next;
  held = λ q. q == w.next || w.held q;
  texts = λ q. if q == w.next then s else w.texts q;
}

abbrev block : Bytes → Heap → Bool → ℕ × Heap
block s w true = (0, w)
block s w false = (w.next, extended s w)

abbrev pub memory : Memory
memory = record {
  World = Heap;
  copy_text = λ s w. block s w (is_full w);
  copy_bytes = λ s w. block s w (is_full w);
  release = λ p w. record w { held = λ q. not (q == p) && w.held q };
  bytes_at = λ w p n. take n (w.texts p);
  text_at = λ w p. w.texts p;
  is_live = λ w p. w.held p;
}

block-Allocates :
    (s : Bytes) (w : Heap) (t : Bool)
    → is_full w ≡ t
    → Allocates memory w (block s w t).0 (block s w t).1
block-Allocates s w true e = record {
  failed = λ z q. refl;
  fresh = λ n. absurd (n refl);
  made = λ n. absurd (n refl);
}
block-Allocates s w false e = record {
  failed = λ z. absurd (ground arith);
  fresh = λ n. ground arith;
  made = λ n q. refl;
}

pub memory-IsAllocator : IsAllocator memory
memory-IsAllocator = record {
  texts = λ s w. block-Allocates s w (is_full w) refl;
  blocks = λ s w. block-Allocates s w (is_full w) refl;
  releases = λ p w q. refl;
}

take-length : (s : Bytes) → take (length s) s ≡ s
take-length [] = refl
take-length (x ∷ s) = ap (◌∷◌ x) (take-length s)

stored_text :
    (s : Bytes) (w : Heap) (t : Bool)
    → (block s w t).0 ≢ null_pointer
    → (block s w t).1.texts (block s w t).0 ≡ s
stored_text s w true n = absurd (n refl)
stored_text s w false n = ground arith

other_text :
    (s : Bytes) (w : Heap) (p : ℕ) (t : Bool)
    → is_full w ≡ t
    → w.held p ≡ true
    → (block s w t).1.texts p ≡ w.texts p
other_text s w p true e h = refl
other_text s w p false e h = elim (Bool-cases (p == w.next)) [
  | inl q ↦ let same_block : p ≡ w.next = ground arith in absurd (grind arith)
  | inr q ↦ rw q refl
]

memory-Copies : Copies memory
memory-Copies = record {
  text = λ s w z n. stored_text s w (is_full w) n;
  bytes = λ s w n. ap (take (length s)) (stored_text s w (is_full w) n) ∙ take-length s;
  no_bytes = λ p w. refl;
  keeps_text = λ s w p l. other_text s w p (is_full w) refl l;
}

-- A host that answers every call with the text `ok`.
abbrev calls : ℕ → ℕ → ℕ → Heap → (ℕ × Buffer) × Heap
calls method request len w =
    let (p, w') = memory.copy_bytes (codes "ok") w in ((0, record { ptr = p; len = 2 }), w')

abbrev frees : ℕ → ℕ → Heap → Heap
frees p len w = memory.release p w

abbrev pub host : HostApi memory
host = record { abi_version = 1; call = some calls; free_buffer = some frees }

host-IsPolite : IsPolite memory host
host-IsPolite = record {
  hands_over = λ f e method request len w.
      subst
        (λ (g : ℕ → ℕ → ℕ → Heap → (ℕ × Buffer) × Heap).
          Allocates memory w (g method request len w).0.1.ptr (g method request len w).1)
        (some_injective e) (block-Allocates (codes "ok") w (is_full w) refl);
  takes_back = λ g e p len w.
      subst (λ (f : ℕ → ℕ → Heap → Heap). Frees memory w p (f p len w)) (some_injective e)
        (λ q. refl);
}

abbrev echo : Dispatcher memory
echo = record { dispatch = λ api method request w. (replied method, w) }

abbrev program : Program memory
program = record {
  abi_version = 1;
  error_response = λ code message. codes code;
  new_dispatcher = echo;
}

-- A heap with one block, the text `ping` of the host.
abbrev pub fresh_heap : Heap
fresh_heap = record {
  next = 8;
  held = λ q. q == 7;
  texts = λ q. if q == 7 then codes "ping" else [];
}

abbrev pub new_process : Process memory
new_process = record { api = none; dispatcher = none; world = fresh_heap }

abbrev pub ready_process : Process memory
ready_process = record { api = some host; dispatcher = none; world = fresh_heap }

ready-IsTidy : IsTidy memory program ready_process
ready-IsTidy method request = record { holds = λ w q. refl }

host_run : host_api_compatible memory program (some host) ≡ true
unfolding host_api_compatible
host_run = refl

abbrev pub no_exports : Option PluginApi
no_exports = some (record { abi_version = 0; call = none; free_buffer = none; shutdown = none })

ready_run : (plugin_init memory program (some host) no_exports new_process).1 ≡ ready_process
unfolding plugin_init host_api_compatible
ready_run = refl

abbrev ready-Reachable : Reachable memory program ready_process
unfolding step plugin_init host_api_compatible
ready-Reachable = stepped (initialise (some host) no_exports) (loaded fresh_heap)

pub only_host : (x : HostApi memory) → ready_process.api ≡ some x → IsPolite memory x
only_host x e = subst (IsPolite memory) (some_injective e) host-IsPolite

plugin_call_contract_example :
    (code : ℕ) × (b : Buffer) × (p' : Process memory) × (plugin_call memory program 7 0 0
        (some empty_buffer)
        ready_process
      ≡ ((code, some b), p'))
    × Answered memory fresh_heap code b p'.world
plugin_call_contract_example =
    plugin_call_contract memory program memory-IsAllocator 7 0 0 empty_buffer ready_process
      ready-IsTidy

Reachable-IsSafe_example : IsSafe memory program ready_process
Reachable-IsSafe_example = Reachable-IsSafe memory program ready-Reachable

call_run : (raw_host_call memory (some host) (codes "m") (codes "r") fresh_heap).0 ≡ ok (codes "ok")
unfolding raw_host_call with_block with_request call_stored same
call_run = refl

abbrev answer_envelope : Envelope
answer_envelope = record { is_ok = true; result = codes "x"; fault = none }

abbrev pub sdk : Sdk
sdk = record {
  method_host_http_do = codes "h";
  method_host_http_do_stream = codes "t";
  method_host_http_stream_read = codes "r";
  method_host_http_stream_close = codes "c";
  method_host_auth_list = codes "l";
  method_host_auth_get = codes "g";
  method_host_auth_get_runtime = codes "u";
  method_host_auth_save = codes "s";
  method_host_log = codes "o";
  base64 = λ s. s;
  read_envelope = λ raw. some answer_envelope;
  read_http_response = λ raw. none;
  read_stream_response = λ raw. some (record { status_code = 200; stream_id = codes "1" });
  read_stream_chunk = λ raw. some (record { payload = codes "w"; failure = []; done = true });
  read_files = λ raw. some [];
  read_physical_file = λ raw. none;
  read_runtime = λ raw. none;
  read_saved_file = λ raw. some (record { name = codes "n"; path = codes "p" });
}

abbrev client : Client Heap
client = native_client machine sdk memory (some host) (λ w. false)

save_call :
    (auth_save machine sdk client [] (codes "n") (codes "c") fresh_heap).0
    ≡ ok (record { name = codes "n"; path = codes "p" })
unfolding auth_save invoke_method host_auth_save_request ◌>>=◌ or_raise raw_host_call with_block
    with_request call_stored same lift decode_envelope
save_call = refl

auth_save_asks_example :
    (value : Json) × (answer : Bytes) × (machine.scan (codes "c") ≡ single value)
    × Asked memory
        (some host)
        sdk.method_host_auth_save
        (machine.json_text (
          object (
            callback_field []
              (field (codes "name") (string (trim (codes "n"))) (field (codes "json") value end)))))
        answer
auth_save_asks_example =
    auth_save_asks machine sdk memory (some host) (λ w. false) memory-IsAllocator memory-Copies []
      (codes "n") (codes "c") fresh_heap {saved = record { name = codes "n"; path = codes "p" }}
      (refl, tt) (λ e. cc) save_call

clients-IsBalanced_example :
    IsBalanced memory (
      http_do machine sdk client []
        (record { method = codes "GET"; url = []; headers = []; body = [] }))
    × IsBalanced memory (
        host_http_do_limited machine sdk client 9 []
          (record { method = codes "GET"; url = []; headers = []; body = [] })
          5)
    × IsBalanced memory (close_http_stream machine sdk client [])
    × IsBalanced memory (auth_list machine sdk client [])
    × IsBalanced memory (auth_get machine sdk client [] (codes "7"))
    × IsBalanced memory (auth_get_runtime machine sdk client [] (codes "7"))
    × IsBalanced memory (auth_save machine sdk client [] (codes "n") (codes "c"))
    × IsBalanced memory (log machine sdk client [] (codes "info") [])
clients-IsBalanced_example =
    clients-IsBalanced machine sdk memory program (λ w. false) memory-IsAllocator ready-Reachable
      only_host [] (codes "7") (codes "n") (codes "c") (codes "info")
      (record { method = codes "GET"; url = []; headers = []; body = [] }) [] 9 5
