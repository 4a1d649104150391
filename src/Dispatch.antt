-- ===== src/Dispatch.antt =====
-- The dispatch of media processing to one-off tasks: backend/signage/media_dispatch.py. The answers of
-- the task service are arguments; the digests of the state keys are parameters.
pub mod Reservation
pub mod Costs
pub mod Retries
use digital_signage_project.Base.{
  ℕ, ◌+◌, ◌*◌, String, Bool, true, false, not, ◌&&◌, ◌||◌, Option, none, some, List, [], ◌∷◌, ◌++◌,
  ltb, leb, ◌==◌, if◌then◌else◌, str_eq, is_none, is_some, any, filter, update, get, put, length,
  mem, Result, ok, err,
}
use digital_signage_project.Models.{MediaAsset, MediaStatus, media_status_eq, asset_id}
use digital_signage_project.Throttle.{ApiThrottle, throttle_key, get_or_create}
use digital_signage_project.Alerts.{Severity, AlertTable, open_alert}

abbrev pub second : ℕ
second = 1000000

-- The settings that the module reads; a list of subnets or groups is its length.
pub record Settings : Type 0 where
  pub production : Bool
  pub backend : String
  pub cluster : String
  pub task_definition : String
  pub container_name : String
  pub subnet_ids : ℕ
  pub security_group_ids : ℕ
  pub max_concurrent_tasks : ℕ
  pub max_tasks_per_hour : ℕ
  pub ambiguity_reuse_seconds : ℕ
  pub startup_grace_seconds : ℕ
  pub aws_connect_timeout_seconds : ℕ
  pub aws_read_timeout_seconds : ℕ
  pub retry_seconds : ℕ
  pub max_dispatch_attempts : ℕ

-- `_ecs_configuration` returns; otherwise it raises `DispatchConfigurationError`.
unfoldable pub ecs_configuration : Settings → Bool
ecs_configuration c =
    not (str_eq c.cluster "")
    && not (str_eq c.task_definition "")
    && not (str_eq c.container_name "")
    && leb 1 c.subnet_ids
    && leb 1 c.security_group_ids
    && leb 1 c.max_concurrent_tasks
    && leb 1 c.max_tasks_per_hour
    && leb 1 c.ambiguity_reuse_seconds
    && leb 1 c.startup_grace_seconds
    && leb 1 c.aws_connect_timeout_seconds
    && leb 1 c.aws_read_timeout_seconds
    && leb c.ambiguity_reuse_seconds 3600
    && leb c.max_concurrent_tasks 2
    && leb c.max_tasks_per_hour 6

pub record Queue : Type 0 where
  pub assets : List MediaAsset
  pub throttles : List ApiThrottle
  pub alerts : AlertTable

-- `open_alert(None, code, severity, message)`
unfoldable pub note : ℕ → String → Severity → String → Queue → Queue
note now code severity message s =
    elim (open_alert (λ _. true) now none code severity message s.alerts) [
      | ok (t, a, created) ↦ record s { alerts = t }
      | err _ ↦ s
    ]

-- The reuse of an attempt whose outcome is not known.
unfoldable pub is_reusable : Settings → ℕ → Option ApiThrottle → MediaAsset → Bool
is_reusable c now none a = false
is_reusable c now (some t) a =
    ltb 0 t.attempts
    && t.attempts == a.dispatch_attempts
    && ltb now (t.window_started_at + c.ambiguity_reuse_seconds * second)

abbrev pub backs_off : Settings → ℕ → MediaAsset → Bool
backs_off c now a = elim a.last_dispatch_attempt_at [
  | none ↦ false
  | some t ↦ ltb now (t + c.retry_seconds * second)
]

-- The row of the dispatch state that `_reserve_dispatch_attempt` saves.
unfoldable pub marked : ℕ → ℕ → Bool → ℕ → List ApiThrottle → List ApiThrottle
marked now key reuse attempt throttles =
    let (t, table) = get_or_create now key throttles in
    put throttle_key
      (record t {
        attempts = attempt;
        window_started_at = if reuse then t.window_started_at else now;
        blocked_until = some now;
      })
      table

abbrev pub delete_state : ℕ → List ApiThrottle → List ApiThrottle
delete_state key throttles = filter (λ (t : ApiThrottle). not (throttle_key t == key)) throttles

-- What is left of an asset whose attempts are used up.
abbrev pub given_up : ℕ → Bool → MediaAsset → Queue → Queue
given_up key mark_issued a s =
    if mark_issued
    then record s {
      assets = put asset_id (record a { dispatched_at = none }) s.assets;
      throttles = delete_state key s.throttles;
    }
    else s

-- `_reserve_dispatch_attempt` on the row `a`, whose dispatch state is `state`.
unfoldable pub reserve_row :
    Settings → ℕ → ℕ → Bool → Option ApiThrottle → MediaAsset → Queue → Option ℕ × Queue
reserve_row c now key mark_issued state a s =
    let reuse = is_reusable c now state a in
    if not reuse && leb c.max_dispatch_attempts a.dispatch_attempts
    then (none, given_up key mark_issued a s)
    else (let attempt = if reuse then a.dispatch_attempts else a.dispatch_attempts + 1 in
        let a' = record a {
          dispatch_attempts = attempt;
          last_dispatch_attempt_at = some now;
          dispatched_at = if mark_issued then some now else a.dispatched_at;
        } in
        (
          some attempt,
          record s {
            assets = put asset_id a' s.assets;
            throttles =
                if mark_issued then marked now key reuse attempt s.throttles else s.throttles;
          },
        ))

-- `_reserve_dispatch_attempt`
unfoldable pub reserve : Settings → (ℕ → ℕ) → ℕ → Bool → Bool → ℕ → Queue → Option ℕ × Queue
reserve c state_key now bypass_backoff mark_issued k s = elim (get asset_id k s.assets) [
  | none ↦ (none, s)
  | some a ↦
      if not (media_status_eq a.status MediaStatus.quarantined)
        || (not bypass_backoff && backs_off c now a)
      then (none, s)
      else reserve_row c now (state_key k) mark_issued
          (if mark_issued then get throttle_key (state_key k) s.throttles else none) a s
]

-- `_clear_dispatch_state`
unfoldable pub clear_dispatch_state : (ℕ → ℕ) → ℕ → ℕ → Bool → Queue → Queue
clear_dispatch_state state_key k attempt clear_dispatched_at s = record s {
  throttles = elim (get throttle_key (state_key k) s.throttles) [
    | none ↦ s.throttles
    | some t ↦ if t.attempts == attempt then delete_state (state_key k) s.throttles else s.throttles
  ];
  assets =
      if clear_dispatched_at
      then update (λ (a : MediaAsset). a.id == k && a.dispatch_attempts == attempt)
          (λ (a : MediaAsset). record a { dispatched_at = none }) s.assets
      else s.assets;
}

abbrev pub record_dispatch_failure : ℕ → Queue → Queue
record_dispatch_failure now =
    note now "media_processing_dispatch_failed" Severity.warning
      "A quarantined media upload could not be queued for validation."

abbrev pub record_dispatch_exhaustion : ℕ → Queue → Queue
record_dispatch_exhaustion now =
    note now "media_processing_dispatch_exhausted" Severity.critical
      "One or more media uploads exhausted automated validation retries and require operator investigation."

abbrev pub record_budget_deferral : ℕ → Queue → Queue
record_budget_deferral now =
    note now "media_processing_dispatch_budget_exhausted" Severity.warning
      "The hourly media-processing task budget was reached; quarantined uploads will retry automatically."

-- `_handle_dispatch_failure`
unfoldable pub handle_dispatch_failure : Settings → ℕ → ℕ → Queue → Queue
handle_dispatch_failure c now attempt s =
    if leb c.max_dispatch_attempts attempt
    then record_dispatch_exhaustion now (record_dispatch_failure now s)
    else record_dispatch_failure now s

-- A failure before the call: an attempt is reserved, without the marker, and counted.
unfoldable pub failed_early : Settings → (ℕ → ℕ) → ℕ → Bool → ℕ → Queue → Queue
failed_early c state_key now bypass_backoff k s =
    let (attempt, s') = reserve c state_key now bypass_backoff false k s in
    elim attempt [ none ↦ s' | some n ↦ handle_dispatch_failure c now n s' ]

-- `_lock_hourly_dispatch_budget`
unfoldable pub lock_hourly_dispatch_budget :
    ℕ → ℕ → List ApiThrottle → ApiThrottle × List ApiThrottle
lock_hourly_dispatch_budget now budget_key throttles =
    let (t, table) = get_or_create now budget_key throttles in
    let t' = record t { attempts = 0; window_started_at = now; blocked_until = none } in
    if leb (t.window_started_at + 3600 * second) now
    then (t', put throttle_key t' table)
    else (t, table)

-- The other assets whose task the service may not show yet.
unfoldable pub recently_dispatched : Settings → ℕ → ℕ → List ℕ → List MediaAsset → List MediaAsset
recently_dispatched c now k active = filter (λ (a : MediaAsset).
    (elim a.dispatched_at [
      | none ↦ false
      | some t ↦ leb now (t + c.startup_grace_seconds * second)
    ])
    && not (a.id == k)
    && not (mem a.id active))

abbrev pub is_exhausted : Settings → ℕ → MediaAsset → Bool
is_exhausted c k a =
    a.id == k
    && (media_status_eq a.status MediaStatus.quarantined
        || media_status_eq a.status MediaStatus.processing)
    && leb c.max_dispatch_attempts a.dispatch_attempts

-- The transaction of `dispatch_media_processing` before the call: the attempt to call with, or
-- nothing. `active` is what `_active_ecs_tasks` answers: nothing stands for its exceptions.
unfoldable pub reserve_task :
    Settings → (ℕ → ℕ) → ℕ → ℕ → Bool → Option (ℕ × List ℕ) → ℕ → Queue → Option ℕ × Queue
reserve_task c state_key budget_key now bypass_backoff active k s =
    let (budget, table) = lock_hourly_dispatch_budget now budget_key s.throttles in
    let s0 = record s { throttles = table } in
    if leb c.max_tasks_per_hour budget.attempts
    then (none, record_budget_deferral now s0)
    else (elim active [
      | none ↦ (none, failed_early c state_key now bypass_backoff k s0)
      | some (count, ids) ↦
          if leb c.max_concurrent_tasks (count + length (recently_dispatched c now k ids s0.assets))
          then (none, s0)
          else (let (attempt, s1) = reserve c state_key now bypass_backoff true k s0 in
              elim attempt [
                | none ↦ (
                  none,
                  if any (is_exhausted c k) s1.assets
                      then record_dispatch_exhaustion now s1
                      else s1,
                )
                | some n ↦ (
                  some n,
                  record s1 {
                    throttles =
                        put throttle_key (record budget { attempts = budget.attempts + 1 })
                          s1.throttles;
                  },
                )
              ])
    ])

-- The answers of `run_task`: one task and no failure, another response, a client error with its HTTP
-- status, a transport error.
pub data Response : Type 0 where
  started : Response
  refused : Response
  client_error : ℕ → Response
  transport_error : Response

-- What `dispatch_media_processing` does after the call.
unfoldable pub settle : Settings → (ℕ → ℕ) → ℕ → ℕ → ℕ → Response → Queue → Bool × Queue
settle c state_key now k attempt started s =
    (true, clear_dispatch_state state_key k attempt false s)
settle c state_key now k attempt refused s =
    (false, handle_dispatch_failure c now attempt (clear_dispatch_state state_key k attempt true s))
settle c state_key now k attempt (client_error status) s =
    if leb 500 status then (false, record_dispatch_failure now s) else (
      false,
      handle_dispatch_failure c now attempt (clear_dispatch_state state_key k attempt true s),
    )
settle c state_key now k attempt transport_error s = (false, record_dispatch_failure now s)

-- `dispatch_media_processing`: whether a task runs, the attempt in the client token if `run_task` was
-- called, and the tables. `client` says whether the client could be made.
unfoldable pub dispatch_media_processing :
    Settings
    → (ℕ → ℕ)
    → ℕ
    → ℕ
    → Bool
    → Bool
    → Option (ℕ × List ℕ)
    → (ℕ → Response)
    → ℕ
    → Queue
    → Bool × Option ℕ × Queue
dispatch_media_processing c state_key budget_key now bypass_backoff client active run k s =
    if str_eq c.backend "disabled" && not c.production
    then (false, none, s)
    else if not (str_eq c.backend "ecs" && ecs_configuration c && client)
    then (false, none, failed_early c state_key now bypass_backoff k s)
    else (let (attempt, s1) = reserve_task c state_key budget_key now bypass_backoff active k s in
        elim attempt [
          | none ↦ (false, none, s1)
          | some n ↦ let (b, s2) = settle c state_key now k n (run n) s1 in (b, some n, s2)
        ])
