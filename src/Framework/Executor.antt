-- ===== src/Framework/Executor.antt =====
-- A transaction under the executor (framework/src/executor/mod.rs): the hooks before it, the call of
-- its service, the hooks after it, and what becomes of the writes.
use muta.Prelude.{
  Bool, Dict, List, Option, Result, String, [], any, err, if◌then◌else◌, length, none, ok, some,
  string_default, take, ℕ, ◌++◌, ◌>>=◌, ◌∷◌,
}
use muta.Protocol.{ServiceContext, ServiceResponse, cancel, from_error, is_error}
use muta.Framework.State.{GeneralServiceState, TrieOps, revert_cache, stash}

-- The errors of the executor that a transaction can meet; each holds the text of a panic.
pub data ExecutorError : Type 0 where
  call_service : String → ExecutorError
  tx_hook : String → ExecutorError

abbrev pub service_not_found_code : ℕ
service_not_found_code = 62077

pub data ExecType : Type 0 where
  read_only read_write : ExecType

-- The first `n` events (`Vec::truncate`).
unfoldable pub truncate : ℕ → ServiceContext → ServiceContext
truncate n ctx = record ctx { events = take n ctx.events }

module _ {T E : Type 0} (ops : TrieOps T E) where
  -- The states of the services, each under its name.
  abbrev pub ServiceStateMap : Type 0
  ServiceStateMap = Dict String (GeneralServiceState T)

  unfoldable pub stash_states : ServiceStateMap → ServiceStateMap
  stash_states [] = []
  stash_states ((name, s) ∷ states) = (name, stash ops s) ∷ stash_states states

  unfoldable pub revert_states : ServiceStateMap → ServiceStateMap
  revert_states [] = []
  revert_states ((name, s) ∷ states) = (name, revert_cache ops s) ∷ revert_states states

  -- What a transaction changes: the states, and the context with its events, its cycles and whether
  -- it was canceled, which every copy of the context shares.
  pub record World : Type 0 where
    pub states : ServiceStateMap
    pub context : ServiceContext

  -- A method of a service ends with a response, or in a panic with a text, and leaves a world.
  abbrev pub Ran : Type 0
  Ran = Result (ServiceResponse String) String × World

  pub record Service : Type 0 where
    pub tx_hook_before : World → Ran
    pub tx_hook_after : World → Ran
    pub read : World → Ran
    pub write : World → Ran

  -- `CommitHooks::kan`, once the hook ran: whatever it answered, its writes are stashed.
  unfoldable pub kan : Ran → Result (ServiceResponse String) ExecutorError × World
  kan (ok res, w) = (ok res, record w { states = stash_states w.states })
  kan (err e, w) = (err (tx_hook e), record w { states = revert_states w.states })

  abbrev pub Responses : Type 0
  Responses = List (ServiceResponse String)

  -- One hook after the others; a panic ended them.
  unfoldable pub run_hook :
      (World → Ran)
      → Result Responses ExecutorError × World
      → Result Responses ExecutorError × World
  run_hook hook (err e, w) = (err e, w)
  run_hook hook (ok ret, w) =
      let (r, w') = kan (hook w) in (r >>= λ resp. ok (ret ++ (resp ∷ [])), w')

  -- `CommitHooks::before` and `after`, with the method of each service.
  unfoldable pub run_hooks :
      List (World → Ran)
      → Result Responses ExecutorError × World
      → Result Responses ExecutorError × World
  run_hooks [] r = r
  run_hooks (hook ∷ hooks) r = run_hooks hooks (run_hook hook r)

  -- `get_tx_hooks`: the hooks of all services for a write, none for a read.
  unfoldable pub get_tx_hooks : ExecType → List (World → Ran) → List (World → Ran)
  get_tx_hooks read_only hooks = []
  get_tx_hooks read_write hooks = hooks

  abbrev pub befores : List (String × Service) → List (World → Ran)
  befores [] = []
  befores ((name, service) ∷ services) = service.tx_hook_before ∷ befores services

  abbrev pub afters : List (String × Service) → List (World → Ran)
  afters [] = []
  afters ((name, service) ∷ services) = service.tx_hook_after ∷ afters services

  abbrev pub any_error : Responses → Bool
  any_error resp = any (λ r. is_error r) resp

  -- `catch_call`, once its service returned or panicked.
  unfoldable pub caught : Ran → Result (ServiceResponse String) ExecutorError × World
  caught (ok r, w) = (ok r, w)
  caught (err e, w) = (err (call_service e), record w { states = revert_states w.states })

  -- A response with an error takes the events and the writes of the call back.
  unfoldable pub settle : ℕ → ServiceResponse String → World → World
  settle event_index ret w =
      if is_error ret
      then record {
        states = revert_states w.states;
        context = cancel (truncate event_index w.context) "tx_exec_return_code_not_zero";
      }
      else w

  -- How `catch_call` ends, after the hooks.
  unfoldable pub finish_call :
      ℕ
      → ServiceResponse String
      → Result Responses ExecutorError × World
      → Result (ServiceResponse String) ExecutorError × World
  finish_call event_index ret (err e, w) = (err e, w)
  finish_call event_index ret (ok resp, w) = (
    ok ret,
    (if any_error resp
        then record { states = revert_states w.states; context = truncate event_index w.context }
        else record w { states = stash_states w.states }),
  )

  unfoldable pub after_call :
      ℕ
      → List (World → Ran)
      → Result (ServiceResponse String) ExecutorError × World
      → Result (ServiceResponse String) ExecutorError × World
  after_call event_index hooks (err e, w) = (err e, w)
  after_call event_index hooks (ok ret, w) =
      finish_call event_index ret (run_hooks hooks (ok [], settle event_index ret w))

  module _ (find : String → Option Service) where
    unfoldable pub call_method : ExecType → Service → World → Ran
    call_method read_only service w = service.read w
    call_method read_write service w = service.write w

    -- `call`
    unfoldable pub call : ExecType → World → Ran
    call exec_type w = elim (find w.context.service_name) [
      | none ↦ (ok (from_error service_not_found_code "can not found service"), w)
      | some service ↦ call_method exec_type service w
    ]

    -- The transaction itself, unless a hook before it failed.
    unfoldable pub run_tx :
        ExecType → Responses → ℕ → World → Result (ServiceResponse String) ExecutorError × World
    run_tx exec_type resp event_index w =
        if any_error resp
        then (
          ok (from_error 65535 "skip_tx_run"),
          record { states = revert_states w.states; context = truncate event_index w.context },
        )
        else caught (call exec_type w)

    -- `catch_call` after the hooks before the call.
    unfoldable pub before_call :
        ExecType
        → List (World → Ran)
        → Result Responses ExecutorError × World
        → Result (ServiceResponse String) ExecutorError × World
    before_call exec_type hooks (err e, w) = (err e, w)
    before_call exec_type hooks (ok resp, w) =
        let stashed = record w { states = stash_states w.states } in
        let event_index = length w.context.events in
        after_call event_index hooks (run_tx exec_type resp event_index stashed)

    unfoldable pub catch_call :
        ExecType
        → List (String × Service)
        → World
        → Result (ServiceResponse String) ExecutorError × World
    catch_call exec_type services w =
        before_call exec_type (get_tx_hooks exec_type (afters services))
          (run_hooks (get_tx_hooks exec_type (befores services)) (ok [], w))
