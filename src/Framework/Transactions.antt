-- ===== src/Framework/Transactions.antt =====
-- Which writes of a transaction stay (framework/src/executor/mod.rs).
use muta.Prelude.{
  List, Result, String, [], ap, arith, err, length, ok, refl, some, take, true, ℕ, ◌∙◌, ◌∷◌, ◌≡◌,
}
use muta.Protocol.{Bytes, ServiceResponse, is_error}
use muta.Framework.Views.{get_bytes_value-stash}
use muta.Framework.State.{TrieOps, get_bytes_value, revert_cache, stash}
use muta.Framework.Executor.{
  ExecutorError, Ran, Responses, ServiceStateMap, World, after_call, any_error, finish_call, kan,
  revert_states, run_hook, run_hooks, settle, stash_states, truncate,
}

ok_injective :
    (a b : List (ServiceResponse String))
    → ◌≡◌ {A = Result (List (ServiceResponse String)) ExecutorError} (ok a) (ok b)
    → a ≡ b
ok_injective a b h = cc

module _ {T E : Type 0} (ops : TrieOps T E) where
  -- No call has written since the last stash.
  abbrev pub IsClean : ServiceStateMap ops → Type 0
  IsClean states = revert_states ops states ≡ states

  stash_states-IsClean : (m : ServiceStateMap ops) → IsClean (stash_states ops m)
  unfolding revert_states stash_states revert_cache stash
  stash_states-IsClean [] = refl
  stash_states-IsClean ((name, s) ∷ m) = cc (stash_states-IsClean m)

  revert_states-IsClean : (m : ServiceStateMap ops) → IsClean (revert_states ops m)
  unfolding revert_states revert_cache
  revert_states-IsClean [] = refl
  revert_states-IsClean ((name, s) ∷ m) = cc (revert_states-IsClean m)

  kan-IsClean : (r : Ran ops) → IsClean ((kan ops r).1.states)
  unfolding kan
  kan-IsClean (ok res, w) = stash_states-IsClean w.states
  kan-IsClean (err e, w) = revert_states-IsClean w.states

  run_hook-IsClean :
      (hook : World ops → Ran ops) (r : Result (Responses ops) ExecutorError) (w : World ops)
      → IsClean w.states
      → IsClean ((run_hook ops hook (r, w)).1.states)
  unfolding run_hook
  run_hook-IsClean hook (err e) w h = h
  run_hook-IsClean hook (ok ret) w h = kan-IsClean (hook w)

  run_hooks-IsClean :
      (hooks : List (World ops → Ran ops)) (r : Result (Responses ops) ExecutorError)
      (w : World ops)
      → IsClean w.states
      → IsClean ((run_hooks ops hooks (r, w)).1.states)
  unfolding run_hooks
  run_hooks-IsClean [] r w h = h
  run_hooks-IsClean (hook ∷ hooks) r w h =
      run_hooks-IsClean hooks ((run_hook ops hook (r, w)).0) ((run_hook ops hook (r, w)).1)
        (run_hook-IsClean hook r w h)

  finish_call-failed :
      (event_index : ℕ) (ret : ServiceResponse String) (r : Result (Responses ops) ExecutorError)
      (w : World ops) (resp : Responses ops)
      → r ≡ ok resp
      → any_error ops resp ≡ true
      → IsClean w.states
      → (finish_call ops event_index ret (r, w)).1.states ≡ w.states
  unfolding finish_call
  finish_call-failed event_index ret (err e) w resp done failed clean = refl
  finish_call-failed event_index ret (ok resp') w resp done failed clean =
      ground (arith, ok_injective resp' resp done, failed, clean)

  -- The same services, where every key reads the same.
  abbrev pub ReadAlike : ServiceStateMap ops → ServiceStateMap ops → Type 0
  ReadAlike [] [] = Unit {0}
  ReadAlike [] (_ ∷ _) = ⊥
  ReadAlike (_ ∷ _) [] = ⊥
  ReadAlike ((name, s) ∷ m) ((name', s') ∷ m') =
      (name ≡ name')
      × ((key : Bytes) → get_bytes_value ops s' key ≡ get_bytes_value ops s key)
      × ReadAlike m m'

  stash_states-ReadAlike : (m : ServiceStateMap ops) → ReadAlike m (stash_states ops m)
  unfolding stash_states
  stash_states-ReadAlike [] = tt
  stash_states-ReadAlike ((name, s) ∷ m) =
      (refl, get_bytes_value-stash ops s, stash_states-ReadAlike m)

  -- When a service has hooks, none of those after the call panics, and one of them answers an error,
  -- no write is taken back: the states are the ones that the hooks left, and the hooks after the
  -- first ran, with its answer, on the states that it left with their caches stashed, in which every
  -- key reads as before, the ones that the call wrote among them.
  pub finish_call-keeps_writes :
      (event_index : ℕ) (ret : ServiceResponse String) (hook : World ops → Ran ops)
      (hooks : List (World ops → Ran ops)) (w left : World ops) (answer : ServiceResponse String)
      (resp : Responses ops)
      → hook w ≡ (ok answer, left)
      → (run_hooks ops (hook ∷ hooks) (ok [], w)).0 ≡ ok resp
      → any_error ops resp ≡ true
      → ((finish_call ops event_index ret (run_hooks ops (hook ∷ hooks) (ok [], w))).1.states
          ≡ (run_hooks ops hooks
              (ok (answer ∷ []), record left { states = stash_states ops left.states })).1.states)
        × ReadAlike left.states (stash_states ops left.states)
  unfolding run_hooks run_hook kan
  finish_call-keeps_writes event_index ret hook hooks w left answer resp calm done failed =
      let first = run_hook ops hook (ok [], w) in
      (
        finish_call-failed event_index ret _ _ resp done failed
              (run_hooks-IsClean hooks (first.0) (first.1) (kan-IsClean (hook w)))
            ∙ rw calm refl,
        stash_states-ReadAlike left.states,
      )

  settle-undoes :
      (ret : ServiceResponse String) (before after : World ops)
      → is_error ret ≡ true
      → IsClean before.states
      → revert_states ops after.states ≡ revert_states ops before.states
      → take (length before.context.events) after.context.events ≡ before.context.events
      → settle ops (length before.context.events) ret after ≡ record {
        states = before.states;
        context = record after.context {
          events = before.context.events;
          canceled_reason = some "tx_exec_return_code_not_zero";
        };
      }
  unfolding settle truncate
  settle-undoes ret before after failed clean cached kept = rw (failed, cached, clean, kept) refl

  -- A call that answers an error, and that wrote to caches and added events only, is undone before
  -- the hooks after it run: they find the states and the events from before the call, and a context
  -- that is canceled.
  pub after_call-undoes :
      (ret : ServiceResponse String) (hooks : List (World ops → Ran ops)) (before after : World ops)
      → is_error ret ≡ true
      → IsClean before.states
      → revert_states ops after.states ≡ revert_states ops before.states
      → take (length before.context.events) after.context.events ≡ before.context.events
      → after_call ops (length before.context.events) hooks (ok ret, after)
        ≡ finish_call ops (length before.context.events) ret (
            run_hooks ops hooks (
              ok [],
              record {
                states = before.states;
                context = record after.context {
                  events = before.context.events;
                  canceled_reason = some "tx_exec_return_code_not_zero";
                };
              },
            ))
  unfolding after_call
  after_call-undoes ret hooks before after failed clean cached kept =
      ap
        (λ (w : World ops).
          finish_call ops (length before.context.events) ret (run_hooks ops hooks (ok [], w)))
        (settle-undoes ret before after failed clean cached kept)
