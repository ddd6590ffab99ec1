-- ===== src/Corerun/Stop.antt =====
-- internal/corerun/control.go: the stop of the managed cores, by SIGTERM and then by SIGKILL.
pub mod Rules
pub mod Ends
pub mod Gone
pub mod Signals
pub mod Managed
use local_clash.Prelude.{
  ℕ, zero, suc, ◌+◌, ◌/◌, ltb, nat_eq, String, Bool, true, false, not, List, [], ◌∷◌, ◌++◌, Option,
  none, some, map, if◌then◌else◌, is_empty,
}
use local_clash.Corerun.Process.{
  Host, Signal, sigterm, sigkill, RuntimeProcess, is_live, find_managed_runtime_processes,
  append_unique_pids, append_unique_strings,
}

pub data StopError : Type 0 where
  send_failed : Signal → ℕ → StopError
  not_before_timeout not_after_sigkill : StopError

-- `error` is the second result of the functions, `left` the field `Error`; `pid` is 0 if there is
-- none. Warnings and next actions are left out.
pub record StopResult : Type 0 where
  pub stopped : Bool
  pub was_running : Bool
  pub pid : ℕ
  pub pids : List ℕ
  pub process_names : List String
  pub signal : Option Signal
  pub forced : Bool
  pub stopped_pids : List ℕ
  pub left : Option StopError
  pub error : Option StopError

-- a stop in progress: its result, the signals sent so far, the first one first, and the moment
pub record Stopping : Type 0 where
  pub result : StopResult
  pub sent : List (Signal × ℕ)
  pub moment : ℕ

module _ ⦃h : Host⦄ where
  -- the loop of `waitForAllExit` over the processes
  unfoldable pub all_exited : ℕ → List ℕ → Bool
  unfolding is_live
  all_exited moment [] = true
  all_exited moment (pid ∷ pids) = if is_live moment pid then false else all_exited moment pids

  -- the loop of `waitForAllExit`, one moment for each round, with the milliseconds slept so far;
  -- `none` means that the fuel ran out
  unfoldable pub wait_rounds : ℕ → ℕ → List ℕ → ℕ → ℕ → Option (Bool × ℕ)
  unfolding all_exited
  wait_rounds zero deadline pids slept moment = none
  wait_rounds (suc fuel) deadline pids slept moment =
      let rest = wait_rounds fuel deadline pids (slept + h.nap moment) (suc moment) in
      if all_exited moment pids
      then some (true, moment)
      else if ltb deadline (h.clock moment + slept)
      then some (false, moment)
      else rest

  -- There are at least 100 ms of sleep between two rounds, so this fuel is enough.
  abbrev pub wait_fuel : ℕ → ℕ
  wait_fuel timeout = timeout / 100 + 2

  unfoldable pub wait_for_all_exit : List ℕ → ℕ → ℕ → Option (Bool × ℕ)
  unfolding wait_rounds
  wait_for_all_exit pids timeout moment =
      wait_rounds (wait_fuel timeout) (h.clock moment + timeout) pids 0 (suc moment)

  -- the loop that sends SIGTERM: what was sent, and the process that did not take it;
  -- os.FindProcess does not fail
  unfoldable pub send_terms : List ℕ → List (Signal × ℕ) × Option ℕ
  send_terms [] = ([], none)
  send_terms (pid ∷ pids) =
      let (sent, failed) = send_terms pids in
      if h.accepts sigterm pid then ((sigterm, pid) ∷ sent, failed) else ([], some pid)

  -- the loop that sends SIGKILL to those that are still there
  unfoldable pub send_kills : ℕ → List ℕ → List (Signal × ℕ) × Option ℕ
  unfolding is_live
  send_kills moment [] = ([], none)
  send_kills moment (pid ∷ pids) =
      let (sent, failed) = send_kills moment pids in
      if not (is_live moment pid)
      then (sent, failed)
      else if h.accepts sigkill pid
      then ((sigkill, pid) ∷ sent, failed)
      else ([], some pid)

-- what a wait that saw all processes exit writes
unfoldable pub has_stopped : List ℕ → Stopping → Stopping
unfolding append_unique_pids
has_stopped pids s =
    let r = s.result in
    record s {
      result = record r { stopped = true; stopped_pids = append_unique_pids r.stopped_pids pids };
    }

abbrev pub with_error : StopError → Stopping → Stopping
with_error e s = let r = s.result in record s { result = record r { error = some e } }

abbrev pub with_left : StopError → Stopping → Stopping
with_left e s = let r = s.result in record s { result = record r { left = some e } }

-- the end of a wait: `failed` goes on when processes are left
unfoldable pub after_wait :
    List ℕ → Option (Bool × ℕ) → (ℕ → Option Stopping) → Stopping → Option Stopping
unfolding has_stopped
after_wait pids none failed s = none
after_wait pids (some (true, moment)) failed s =
    some (has_stopped pids (record s { moment = moment }))
after_wait pids (some (false, moment)) failed s = failed moment

-- the rest of a loop that sends signals
abbrev pub after_sending :
    Signal
    → List (Signal × ℕ) × Option ℕ
    → Stopping
    → (Stopping → Option Stopping)
    → Option Stopping
after_sending signal (sent, none) s next = next (record s { sent = s.sent ++ sent })
after_sending signal (sent, some pid) s next =
    some (with_error (send_failed signal pid) (record s { sent = s.sent ++ sent }))

-- before SIGTERM is sent
unfoldable pub begun : List ℕ → StopResult → Stopping
unfolding append_unique_pids
begun pids result = record {
  result = record result {
    pids = append_unique_pids result.pids pids;
    was_running = true;
    signal = some sigterm;
  };
  sent = [];
  moment = 0;
}

module _ ⦃h : Host⦄ where
  -- from SIGKILL on
  unfoldable pub force_stop : List ℕ → ℕ → Stopping → Option Stopping
  unfolding send_kills wait_for_all_exit after_wait has_stopped
  force_stop pids timeout s =
      let r = s.result in
      let s' : Stopping = record s { result = record r { forced = true; signal = some sigkill } } in
      after_sending sigkill (send_kills (suc s.moment) pids) (record s' { moment = suc s.moment })
        λ t.
          after_wait pids (wait_for_all_exit pids timeout t.moment)
            (λ moment. some (with_left not_after_sigkill (record t { moment = moment }))) t

  unfoldable pub stop_runtime_pids : List ℕ → ℕ → Bool → StopResult → Option Stopping
  unfolding send_terms wait_for_all_exit force_stop append_unique_pids begun after_wait has_stopped
  stop_runtime_pids pids timeout force_kill result =
      let known = record result { pids = append_unique_pids result.pids pids } in
      if is_empty pids
      then some (record { result = known; sent = []; moment = 0 })
      else after_sending sigterm (send_terms pids) (begun pids result) λ t.
        after_wait pids (wait_for_all_exit pids timeout t.moment)
          (λ moment.
            if force_kill
            then force_stop pids timeout (record t { moment = moment })
            else some (with_left not_before_timeout (record t { moment = moment })))
          t

  abbrev pub first_pid : List RuntimeProcess → ℕ
  first_pid [] = 0
  first_pid (p ∷ ps) = p.pid

  -- Stop, with the timeout in milliseconds
  unfoldable pub stop : ℕ → Bool → Option Stopping
  unfolding find_managed_runtime_processes append_unique_pids append_unique_strings
      stop_runtime_pids
  stop timeout force_kill =
      let processes = find_managed_runtime_processes in
      let timeout' = if nat_eq timeout 0 then 5000 else timeout in
      let pids = append_unique_pids [] (map (λ (p : RuntimeProcess). p.pid) processes) in
      let names = append_unique_strings [] (map (λ (p : RuntimeProcess). p.name) processes) in
      let nothing : StopResult = record {
        stopped = false;
        was_running = false;
        pid = 0;
        pids = [];
        process_names = [];
        signal = none;
        forced = false;
        stopped_pids = [];
        left = none;
        error = none;
      } in
      if is_empty processes
      then some (record { result = nothing; sent = []; moment = 0 })
      else stop_runtime_pids pids timeout' force_kill
          (record nothing { pid = first_pid processes; pids = pids; process_names = names })
