-- ===== src/HostRpc/Client/Balance.antt =====
-- The wrappers over the native bridge leave no block behind.
use codex_pat.Abi.HostCall.{raw_host_call}
use codex_pat.Abi.HostCall.Balance.{IsBalanced}
use codex_pat.Abi.Memory.{HoldsSame, HoldsSame-trans, HostApi, Memory}
use codex_pat.Base.{Bool, Bytes, Option, false, if◌then◌else◌, none, refl, some, true}
use codex_pat.Errors.{Result, err, ok, plain}
use codex_pat.Exec.{Exec}
use codex_pat.Exec.Runs.{After, Runs-bind, Runs-kept, Runs-lift, Runs-or_raise, Runs-raise}
use codex_pat.HostRpc.Client.{
  Client, Sdk, auth_get, auth_get_runtime, auth_list, auth_save, call_host, http_do, invoke_method,
  log,
}
use codex_pat.HostRpc.Client.Asks.{native_client}
use codex_pat.Json.{Dict, Json}
use codex_pat.LoadSmoke.Run.{run}
use codex_pat.Platform.{Platform}
use codex_pat.Service.Reads.{IsQuiet}
use codex_pat.Whoami.{Request}

-- What holds no other blocks when it ends, keeps those of any world before.
pub balanced-IsQuiet :
    {A : Type 0} (m : Memory) (w : m.World) (run : Exec m.World A)
    → IsBalanced m run
    → IsQuiet (HoldsSame m w) run
balanced-IsQuiet {A} m w run b = record {
  from = λ v s. after (run v) (HoldsSame-trans m s (b.holds v));
}
  where
    after :
        (p : Result A × m.World) → HoldsSame m w p.1 → After (λ _. HoldsSame m w) (HoldsSame m w) p
    after (ok a, v) s = s
    after (err e, v) s = s

module _ (go : Platform) (sdk : Sdk) (m : Memory) (api : Option (HostApi m))
    (cancelled : m.World → Bool)
    (balanced : (method request : Bytes) → IsBalanced m (raw_host_call m api method request)) where
  abbrev client : Client m.World
  client = native_client go sdk m api cancelled

  module _ {A : Type 0} (method : Bytes) (read : Bytes → Option A) (zero_value : A) where
    call_host-IsQuiet :
        (w : m.World) (request : Option Bytes)
        → IsQuiet
            (HoldsSame m w)
            (call_host go sdk client (raw_host_call m api) method read zero_value request)
    call_host-IsQuiet w none = Runs-raise _ λ v s. s
    call_host-IsQuiet w (some body) =
        Runs-bind _ _ (Runs-or_raise _ _ (balanced-IsQuiet m w _ (balanced method body)))
          λ raw. Runs-lift _ (λ a e v s. s) λ v s. s

    pub invoke_method-IsBalanced :
        (request : Option Bytes)
        → IsBalanced m (invoke_method go sdk client method request read zero_value)
    unfolding invoke_method
    invoke_method-IsBalanced request = record { holds = λ w. by_context w (cancelled w) }
      where
        by_context :
            (w : m.World) (t : Bool)
            → HoldsSame m w
                (if◌then◌else◌ {A = Result A × m.World} t
                  (err (plain "context done"), w)
                  (call_host go sdk client
                    (raw_host_call m api)
                    method
                    read
                    zero_value
                    request
                    w)).1
        by_context w true = λ q. refl
        by_context w false = Runs-kept _ (call_host-IsQuiet w request) w λ q. refl

  pub http_do-IsBalanced : (id : Bytes) (r : Request) → IsBalanced m (http_do go sdk client id r)
  unfolding http_do
  http_do-IsBalanced id r = invoke_method-IsBalanced _ _ _ _

  pub auth_list-IsBalanced : (id : Bytes) → IsBalanced m (auth_list go sdk client id)
  unfolding auth_list
  auth_list-IsBalanced id = invoke_method-IsBalanced _ _ _ _

  pub auth_get-IsBalanced : (id index : Bytes) → IsBalanced m (auth_get go sdk client id index)
  unfolding auth_get
  auth_get-IsBalanced id index = invoke_method-IsBalanced _ _ _ _

  pub auth_get_runtime-IsBalanced :
      (id index : Bytes) → IsBalanced m (auth_get_runtime go sdk client id index)
  unfolding auth_get_runtime
  auth_get_runtime-IsBalanced id index = invoke_method-IsBalanced _ _ _ _

  pub auth_save-IsBalanced :
      (id name raw : Bytes) → IsBalanced m (auth_save go sdk client id name raw)
  unfolding auth_save
  auth_save-IsBalanced id name raw = invoke_method-IsBalanced _ _ _ _

  pub log-IsBalanced :
      (id level : Bytes) (fields : Dict Json) → IsBalanced m (log go sdk client id level fields)
  unfolding log
  log-IsBalanced id level fields = invoke_method-IsBalanced _ _ _ _
