-- ===== src/Registry/Workers.antt =====
-- The bindings of the worker processes, table `worker_bindings` (registry.py):
-- `register_worker_binding`, `heartbeat_worker_binding`, `finish_worker_binding`,
-- `active_worker_bindings`. The table shares no row with the others.
use adaptive_agent_harness.Base.{
  ==_eq, Bool, List, Option, Option-cases, [], arith, false, inl, inr, is_some, leb, ltb, none, not,
  refl, some, true, ℕ, ◌&&◌, ◌++◌, ◌==◌, ◌||◌, ◌∷◌, ◌≡◌,
}
use adaptive_agent_harness.Base.Table.{find, find-update-kept, find_sound, order_by, select, update}
use adaptive_agent_harness.Base.Transaction.{
  Transaction, err, gets, integrity_error, modify, ok, or_raise, registry_error, require,
  stale_attempt_fence, stale_runtime_generation, value_error, ◌>>=◌, ◌>>◌,
}
use adaptive_agent_harness.Registry.Schema.{Text}

pub data WorkerState : Type 0 where
  ready busy terminating lost quarantined terminated : WorkerState

-- `{"ready", "busy", "terminating"}`
abbrev pub is_alive : WorkerState → Bool
is_alive ready = true
is_alive busy = true
is_alive terminating = true
is_alive _ = false

pub record WorkerBinding : Type 0 where
  pub worker_id : Text
  pub runtime_generation : ℕ
  pub worker_kind : Text
  pub workspace_id : Text
  pub workspace_generation : ℕ
  pub operation_id : Option Text
  pub pid : ℕ
  pub process_start_identity : Text
  pub capability_digest : Text
  pub environment_digest : Text
  pub state : WorkerState
  pub started_at_unix_ms : ℕ
  pub heartbeat_at_unix_ms : ℕ
  pub last_event_sequence : ℕ
  pub ended_at_unix_ms : Option ℕ
  pub termination_receipt_json : Option Text

pub record Workers : Type 0 where
  pub generation : ℕ
  pub bindings : List WorkerBinding

-- `_worker_binding`
abbrev pub binding_row : Text → Workers → Option WorkerBinding
binding_row id s = find (λ b. b.worker_id == id) s.bindings

unfoldable pub register : WorkerBinding → ℕ → Transaction Workers WorkerBinding
register b now s =
    (do
      require (b.runtime_generation == s.generation) stale_runtime_generation
      require
          (ltb 0 b.pid && ltb 0 b.workspace_generation && not (is_some (binding_row b.worker_id s)))
          integrity_error
      modify (λ t. record t {
        bindings =
            t.bindings
            ++ record b {
              operation_id = none;
              state = ready;
              started_at_unix_ms = now;
              heartbeat_at_unix_ms = now;
              last_event_sequence = 0;
              ended_at_unix_ms = none;
              termination_receipt_json = none;
            }
              ∷ [];
      })
      or_raise (← gets (binding_row b.worker_id)) registry_error)
      s

-- The fence of a binding
unfoldable pub is_held : ℕ → Text → WorkerBinding → Bool
is_held generation identity b =
    b.runtime_generation == generation && b.process_start_identity == identity && is_alive b.state

-- `WHERE worker_id = ? AND runtime_generation = ? AND process_start_identity = ?`
abbrev pub is_binding : Text → ℕ → Text → WorkerBinding → Bool
is_binding id generation identity b =
    b.worker_id == id && b.runtime_generation == generation && b.process_start_identity == identity

abbrev pub set_beat : WorkerState → Option Text → ℕ → ℕ → WorkerBinding → WorkerBinding
set_beat state operation sequence now b = record b {
  state = state;
  operation_id = operation;
  heartbeat_at_unix_ms = now;
  last_event_sequence = sequence;
}

unfoldable pub beat :
    Text → ℕ → Text → WorkerState → Option Text → Option ℕ → ℕ → Transaction Workers WorkerBinding
unfolding is_held
beat id generation identity state operation last now = do
  require (is_alive state) value_error
  b ← or_raise (← gets (binding_row id)) registry_error
  require (is_held generation identity b) stale_attempt_fence
  let sequence : ℕ = elim last [ none ↦ b.last_event_sequence | some n ↦ n ]
  require (leb b.last_event_sequence sequence) stale_attempt_fence
  modify (λ s. record s {
    bindings =
        update (is_binding id generation identity) (set_beat state operation sequence now)
          s.bindings;
  })
  or_raise (← gets (binding_row id)) registry_error

abbrev pub set_ended : WorkerState → Text → ℕ → ℕ → WorkerBinding → WorkerBinding
set_ended state receipt now ended b = record b {
  state = state;
  operation_id = none;
  heartbeat_at_unix_ms = now;
  ended_at_unix_ms = some ended;
  termination_receipt_json = some receipt;
}

-- The clock is read twice, by the heartbeat and by the end.
unfoldable pub finish :
    Text → ℕ → Text → WorkerState → Text → ℕ → ℕ → Transaction Workers WorkerBinding
unfolding is_held
finish id generation identity state receipt now ended = do
  require (not (is_alive state)) value_error
  b ← or_raise (← gets (binding_row id)) registry_error
  require (is_held generation identity b) stale_attempt_fence
  modify (λ s. record s {
    bindings =
        update (is_binding id generation identity) (set_ended state receipt now ended) s.bindings;
  })
  or_raise (← gets (binding_row id)) registry_error

-- `ORDER BY runtime_generation, worker_id`
abbrev binds_first : WorkerBinding → WorkerBinding → Bool
binds_first b c =
    ltb b.runtime_generation c.runtime_generation
    || b.runtime_generation == c.runtime_generation && leb b.worker_id c.worker_id

unfoldable pub active_bindings : Workers → List WorkerBinding
active_bindings s = order_by binds_first (select (λ b. is_alive b.state) s.bindings)

-- After a worker binding is finished, its row is the answer with the termination receipt, and a
-- heartbeat with any live state and a finish with any end state are refused with StaleAttemptFence.
pub finish-once :
    (id : Text) (generation : ℕ) (identity : Text) (state : WorkerState) (receipt : Text)
    (now ended : ℕ) (s s' : Workers) (b : WorkerBinding) (g : ℕ) (i : Text) (t u : WorkerState)
    (o : Option Text) (l : Option ℕ) (x : Text) (m n : ℕ)
    → is_alive t ≡ true
    → is_alive u ≡ false
    → finish id generation identity state receipt now ended s ≡ ok (b, s')
    → (binding_row id s' ≡ some b)
      × (b.termination_receipt_json ≡ some receipt)
      × (beat id g i t o l m s' ≡ err stale_attempt_fence)
      × (finish id g i u x m n s' ≡ err stale_attempt_fence)
unfolding finish beat is_held
finish-once id generation identity state receipt now ended s s' b g i t u o l x m n active ends h =
    elim (Option-cases (binding_row id s)) [
      | inl missing ↦ ground (arith, h, missing)
      | inr (b0, found) ↦
          let kept =
            find-update-kept (λ x. x.worker_id == id) (is_binding id generation identity)
              (set_ended state receipt now ended) s.bindings b0 (λ x. refl) found in
          let key = ==_eq _ _ (find_sound (λ x. x.worker_id == id) s.bindings b0 found) in
          (
            ground (arith, h, found, kept, key),
            ground (arith, h, found, kept, key),
            ground (arith, h, found, kept, key, active),
            ground (arith, h, found, kept, key, ends),
          )
    ]
