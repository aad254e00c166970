-- ===== src/Tests/Wired.antt =====
-- The whole plugin over a small memory, a host that answers every call, and a disk that keeps nothing.
use codex_pat.Abi.Memory.{Buffer, HoldsSame, HostApi, Memory, empty_buffer}
use codex_pat.Abi.Process.{
  Process, Program, answer_call, host_api_compatible, plugin_call, plugin_init,
}
use codex_pat.Abi.Process.Replies.{Answered}
use codex_pat.Abi.Process.Steps.{Reachable, initialise, loaded, step, stepped}
use codex_pat.Base.{
  Bool, Bytes, List, Option, [], arith, codes, false, if◌then◌else◌, none, refl, some, take, true,
  ℕ, ◌++◌, ◌+◌, ◌==◌, ◌||◌, ◌∷◌, ◌≡◌, ◌≢◌,
}
use codex_pat.Errors.{ok}
use codex_pat.Exec.{attempt, lift, or_raise, pure, ◌>>=◌}
use codex_pat.Files.{Disk, regular_file}
use codex_pat.Management.{management_status_path}
use codex_pat.Management.Assets.{ManagementRegistration, Page}
use codex_pat.Plugin.{Answer, ManagementRequest, managed, management_handle}
use codex_pat.Plugin.Envelope.{Messages}
use codex_pat.Tests.Machine.{machine}
use codex_pat.Tests.Native.{
  Heap, fresh_heap, host, memory, memory-IsAllocator, no_exports, only_host, ready_process, sdk,
}
use codex_pat.Text.Digits.{decimal}
use codex_pat.Wiring.{Machine, Setup, codex_program}
use codex_pat.Wiring.Answers.{HasMemory, codex_call_answers}
use codex_pat.Wiring.Contract.{codex_call_contract}
use codex_pat.Wiring.Quiet.{IsApart}
use codex_pat.Wiring.Serves.{codex_serves, next_call, no_call, serve}

abbrev one_file : Disk
one_file = record {
  World = Unit {0};
  node_at = λ w path. some (regular_file (codes "c") 384);
  dir = λ path. [];
  create_temp = λ dir pattern w. (ok (codes "t"), w);
  chmod = λ path mode w. (ok tt, w);
  write = λ path raw w. (ok tt, w);
  sync = λ path w. (ok tt, w);
  close = λ path w. (ok tt, w);
  rename = λ from to w. (ok tt, w);
  remove = λ path w. (ok tt, w);
  open_root = λ path w. (ok tt, w);
  close_root = λ w. (ok tt, w);
  random = λ w. (ok [], w);
  open_new = λ path mode w. (ok tt, w);
  is_exist = λ e. false;
  hex = λ s. s;
  below = λ root s. s;
}

abbrev computer : Machine Heap
computer = record {
  disk = one_file;
  is_windows = false;
  disk_of = λ w. tt;
  with_disk = λ d w. w;
  lstat = λ path w. (ok (record { is_symlink = false; is_regular = true; mod_time = 1 }), w);
  read_file = λ path w. (ok (codes "c"), w);
  time_now = λ w. 10_000_000_000;
  pause = λ n w. w;
  is_expired = λ w. false;
}

computer-IsApart : IsApart memory computer
computer-IsApart = record { disk_apart = λ d w q. refl; pause_apart = λ n w q. refl }

-- Every request asks for the statuses of the accounts, and an answer is written as its status.
abbrev status_request : ManagementRequest
status_request = record {
  method = codes "GET";
  path = management_status_path;
  body = [];
  host_callback_id = codes "7";
}

abbrev written_answer : Answer ManagementRegistration Page → Option Bytes
written_answer (managed r) = some (decimal 10 r.status_code [])
written_answer _ = none

abbrev messages : Messages ManagementRegistration Page
messages = record {
  method_of = λ s. management_handle;
  read_parse_request = λ s. none;
  read_refresh_request = λ s. none;
  read_registration_request = λ s. none;
  read_management_request = λ s. some status_request;
  answer_json = written_answer;
  envelope_json = λ e. some (codes "e" ++ e.result);
}

abbrev setup : Setup
setup = record { version = codes "1"; embedded = λ name. some name; base_url = [] }

abbrev program : Program memory
program = codex_program machine sdk memory computer setup 9 1 messages

abbrev ready-Reachable : Reachable memory program ready_process
unfolding step plugin_init host_api_compatible codex_program
ready-Reachable = stepped (initialise (some host) no_exports) (loaded fresh_heap)

codex_call_contract_example :
    (code : ℕ) × (b : Buffer) × (p' : Process memory) × (plugin_call memory program 7 0 0
        (some empty_buffer)
        ready_process
      ≡ ((code, some b), p'))
    × Answered memory fresh_heap code b p'.world
codex_call_contract_example =
    codex_call_contract machine sdk memory computer setup 9 1 messages memory-IsAllocator
      computer-IsApart ready-Reachable only_host 7 0 0 empty_buffer

-- The statuses are asked of the host and answered with 200, in the block behind those of the call.
status_run :
    let ((code, b), p') = answer_call memory program 7 0 0 ready_process in
    memory.bytes_at p'.world b.ptr b.len ≡ codes "e200"
unfolding answer_call codex_pat.Abi.Process.dispatch_plugin codex_pat.Abi.Process.initialize_plugin
    codex_program codex_pat.Abi.Process.respond codex_pat.Abi.Process.write_response
    codex_pat.Plugin.Dispatch.dispatch codex_pat.Plugin.Dispatch.dispatch_method
    codex_pat.Wiring.new_dispatcher codex_pat.Plugin.new_plugin_dispatcher
    codex_pat.Wiring.native_handle codex_pat.Management.Handler.handle codex_pat.Management.route
    codex_pat.Text.Case.to_upper codex_pat.Text.Case.is_ascii codex_pat.Text.Case.upper_byte
    codex_pat.Base.same codex_pat.Text.Trim.trim codex_pat.Management.is_listed
    codex_pat.Text.Trim.trim_right_set codex_pat.Management.Handler.handle_status attempt ◌>>=◌ pure
    codex_pat.HostRpc.Client.auth_list codex_pat.HostRpc.Client.invoke_method or_raise lift
    codex_pat.Abi.HostCall.raw_host_call codex_pat.Abi.HostCall.with_block
    codex_pat.Abi.HostCall.with_request codex_pat.Abi.HostCall.call_stored
    codex_pat.HostRpc.Envelope.decode_envelope codex_pat.Management.Handler.list_statuses
    codex_pat.Management.Handler.sort_statuses codex_pat.Management.Encoding.to_page
    codex_pat.Management.Encoding.json_page codex_pat.Management.Encoding.json_response
    codex_pat.Management.Encoding.body_json codex_pat.Text.Order.sort_by decimal
    codex_pat.Plugin.Envelope.success_envelope
status_run = refl

-- Two calls, of which the second passes a pointer for its request.
abbrev twice : Process memory
twice = serve memory program 7 7 4 (serve memory program 7 0 0 ready_process)

codex_serves_example : HoldsSame memory fresh_heap twice.world
codex_serves_example =
    codex_serves machine sdk memory computer setup 9 1 messages memory-IsAllocator computer-IsApart
      (next_call 7 0 0 (next_call 7 7 4 no_call)) ready-Reachable only_host

-- A memory without an end: a new block is numbered above all that are held.
abbrev above : List (ℕ × Bytes) → ℕ
above [] = 1
above (b ∷ bs) = b.0 + above bs

abbrev text_in : List (ℕ × Bytes) → ℕ → Bytes
text_in [] q = []
text_in (b ∷ bs) q = if q == b.0 then b.1 else text_in bs q

abbrev is_in : List (ℕ × Bytes) → ℕ → Bool
is_in [] q = false
is_in (b ∷ bs) q = q == b.0 || is_in bs q

abbrev without : ℕ → List (ℕ × Bytes) → List (ℕ × Bytes)
without p [] = []
without p (b ∷ bs) = let rest = without p bs in if p == b.0 then rest else b ∷ rest

abbrev endless : Memory
endless = record {
  World = List (ℕ × Bytes);
  copy_text = λ s w. (above w, (above w, s) ∷ w);
  copy_bytes = λ s w. (above w, (above w, s) ∷ w);
  release = without;
  bytes_at = λ w p n. take n (text_in w p);
  text_at = text_in;
  is_live = is_in;
}

above_ne_zero : (w : List (ℕ × Bytes)) → above w ≢ 0
above_ne_zero [] e = absurd (omega arith)
above_ne_zero (b ∷ bs) e = above_ne_zero bs (omega arith)

endless-HasMemory : HasMemory endless
endless-HasMemory = record { copies = λ s w. above_ne_zero w }

abbrev other_computer : Machine endless.World
other_computer = record {
  disk = one_file;
  is_windows = false;
  disk_of = λ w. tt;
  with_disk = λ d w. w;
  lstat = λ path w. (ok (record { is_symlink = false; is_regular = true; mod_time = 1 }), w);
  read_file = λ path w. (ok (codes "c"), w);
  time_now = λ w. 10_000_000_000;
  pause = λ n w. w;
  is_expired = λ w. false;
}

abbrev other_program : Program endless
other_program = codex_program machine sdk endless other_computer setup 9 1 messages

-- A host that fails at every call.
abbrev failing_host : HostApi endless
failing_host = record {
  abi_version = 1;
  call = some (λ method request len w. ((1, empty_buffer), w));
  free_buffer = some (λ p len w. without p w);
}

abbrev other_process : Process endless
other_process = record {
  api = some failing_host;
  dispatcher = none;
  world = (7, codes "ping") ∷ [];
}

abbrev other-Reachable : Reachable endless other_program other_process
unfolding step plugin_init host_api_compatible codex_program
other-Reachable =
    stepped (initialise (some failing_host) no_exports) (loaded ((7, codes "ping") ∷ []))

-- A host that fails is answered, too.
codex_call_answers_example :
    (plugin_call endless other_program 7 0 0 (some empty_buffer) other_process).0.0 ≡ 0
codex_call_answers_example =
    codex_call_answers machine sdk endless other_computer setup 9 1 messages other-Reachable
      endless-HasMemory (λ e q. cc) 7 0 0 empty_buffer
