-- ===== src/Corerun/Stop/Ends.antt =====
-- The stop ends, and `stopped` says that every process was seen to be gone.
use local_clash.Prelude.{
  ℕ, zero, suc, ◌+◌, ◌*◌, ◌/◌, ◌≤◌, ◌<◌, ltb, ◌≡◌, refl, ap, ◌∙◌, Bool, true, false, List, Option,
  none, some, if◌then◌else◌, is_empty, inl, inr, Bool-cases, arith,
}
use local_clash.Corerun.Process.{Host, Signal, sigterm, sigkill, find_managed_runtime_processes}
use local_clash.Corerun.Stop.{
  StopResult, Stopping, all_exited, wait_rounds, wait_fuel, wait_for_all_exit, send_terms,
  send_kills, after_wait, after_sending, force_stop, stop_runtime_pids, stop,
}

-- The clock does not go back, and time.Sleep sleeps for at least 100 ms where the code calls it.
abbrev pub Advances : Host → Type 0
Advances h =
    ((moment : ℕ) → h.clock moment ≤ h.clock (suc moment)) × ((moment : ℕ) → 100 ≤ h.nap moment)

module _ ⦃h : Host⦄ where
  wait_rounds-ends :
      (fuel deadline : ℕ) (pids : List ℕ) (slept moment : ℕ)
      → Advances h
      → deadline < h.clock moment + slept + 100 * fuel
      → (r : Bool × ℕ) × (wait_rounds (suc fuel) deadline pids slept moment ≡ some r)
  unfolding wait_rounds
  wait_rounds-ends zero deadline pids slept moment ticks few =
      elim (Bool-cases (all_exited moment pids)) [
        | inl gone ↦ ((true, moment), ground arith)
        | inr there ↦ ((false, moment), ground arith)
      ]
  wait_rounds-ends (suc fuel) deadline pids slept moment ticks few =
      let (r, later) =
        wait_rounds-ends fuel deadline pids (slept + h.nap moment) (suc moment) ticks
          (omega (arith, ticks.0 moment, ticks.1 moment)) in
      elim (Bool-cases (all_exited moment pids)) [
        | inl gone ↦ ((true, moment), ground arith)
        | inr there ↦ elim (Bool-cases (ltb deadline (h.clock moment + slept))) [
          | inl late ↦ ((false, moment), ground arith)
          | inr early ↦ (r, ground (arith, later))
        ]
      ]

  wait_for_all_exit-ends :
      (pids : List ℕ) (timeout moment : ℕ)
      → Advances h
      → (r : Bool × ℕ) × (wait_for_all_exit pids timeout moment ≡ some r)
  unfolding wait_for_all_exit
  wait_for_all_exit-ends pids timeout moment ticks =
      let (r, e) =
        wait_rounds-ends (timeout / 100 + 1) (h.clock moment + timeout) pids 0 (suc moment) ticks
          (omega (arith, ticks.0 moment)) in
      let fuel : wait_fuel timeout ≡ suc (timeout / 100 + 1) = omega arith in
      (r, ap (λ n. wait_rounds n (h.clock moment + timeout) pids 0 (suc moment)) fuel ∙ e)

-- A result is there.
abbrev Returns : Option Stopping → Type 0
Returns o = (s : Stopping) × (o ≡ some s)

after_wait-Returns :
    (pids : List ℕ) (w : Option (Bool × ℕ)) (failed : ℕ → Option Stopping) (s : Stopping)
    → (r : Bool × ℕ) × (w ≡ some r)
    → ((moment : ℕ) → Returns (failed moment))
    → Returns (after_wait pids w failed s)
unfolding after_wait
after_wait-Returns pids none failed s (r, e) f = cc
after_wait-Returns pids (some (true, moment)) failed s w f = (_, refl)
after_wait-Returns pids (some (false, moment)) failed s w f = f moment

after_sending-Returns :
    (signal : Signal) (sent : List (Signal × ℕ)) (refused : Option ℕ) (s : Stopping)
    (next : Stopping → Option Stopping)
    → ((t : Stopping) → Returns (next t))
    → Returns (after_sending signal (sent, refused) s next)
after_sending-Returns signal sent none s next f = f _
after_sending-Returns signal sent (some pid) s next f = (_, refl)

if-Returns :
    (test : Bool) (a b : Option Stopping) → Returns a → Returns b → Returns (if test then a else b)
if-Returns true a b p q = p
if-Returns false a b p q = q

module _ ⦃h : Host⦄ (ticks : Advances h) where
  force_stop-Returns :
      (pids : List ℕ) (timeout : ℕ) (s : Stopping) → Returns (force_stop pids timeout s)
  unfolding force_stop
  force_stop-Returns pids timeout s =
      after_sending-Returns sigkill (send_kills (suc s.moment) pids).0
        (send_kills (suc s.moment) pids).1 _ _
        (λ t.
          after_wait-Returns pids (wait_for_all_exit pids timeout t.moment) _ t
            (wait_for_all_exit-ends pids timeout t.moment ticks) (λ moment. (_, refl)))

  stop_runtime_pids-Returns :
      (pids : List ℕ) (timeout : ℕ) (force_kill : Bool) (result : StopResult)
      → Returns (stop_runtime_pids pids timeout force_kill result)
  unfolding stop_runtime_pids
  stop_runtime_pids-Returns pids timeout force_kill result =
      if-Returns (is_empty pids) _ _ (_, refl)
        (after_sending-Returns sigterm (send_terms pids).0 (send_terms pids).1 _ _ (λ t.
          after_wait-Returns pids (wait_for_all_exit pids timeout t.moment) _ t
            (wait_for_all_exit-ends pids timeout t.moment ticks)
            (λ moment.
              if-Returns force_kill _ _
                (force_stop-Returns pids timeout (record t { moment = moment })) (_, refl))))

  -- Stop returns, whatever the processes do, if its clock does not go back and
  -- time.Sleep sleeps for at least as long as it is told to.
  pub stop-Returns :
      (timeout : ℕ) (force_kill : Bool) → (s : Stopping) × (stop timeout force_kill ≡ some s)
  unfolding stop
  stop-Returns timeout force_kill =
      if-Returns (is_empty find_managed_runtime_processes) _ _ (_, refl)
        (stop_runtime_pids-Returns _ _ force_kill _)
