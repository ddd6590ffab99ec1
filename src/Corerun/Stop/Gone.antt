-- ===== src/Corerun/Stop/Gone.antt =====
-- `stopped` says that every process was seen to be gone.
use local_clash.Prelude.{
  ℕ, zero, suc, ◌+◌, ◌≡◌, ◌⊎◌, Bool, true, false, List, some, is_empty, All, [], ◌∷◌, Bool-cases,
  inl, inr, arith,
}
use local_clash.Corerun.Process.{Host, is_live, process_zombie, sigterm, sigkill}
use local_clash.Corerun.Stop.{
  StopResult, Stopping, all_exited, wait_rounds, wait_fuel, wait_for_all_exit, send_terms,
  send_kills, has_stopped, begun, force_stop, stop_runtime_pids,
}
use local_clash.Corerun.Stop.Rules.{
  Ensures, Ensures-some, Ensures-if, Ensures-after_wait, Ensures-after_sending, Ensures-return,
}

module _ ⦃h : Host⦄ where
  -- The process is not there at the moment, or it is a zombie.
  abbrev pub IsGone : ℕ → ℕ → Type 0
  IsGone moment pid = (h.answers moment pid ≡ false) ⊎ (process_zombie moment pid ≡ true)

  is_live-IsGone : (moment pid : ℕ) → is_live moment pid ≡ false → IsGone moment pid
  unfolding is_live
  is_live-IsGone moment pid e = elim (Bool-cases (h.answers moment pid)) [
    | inl answers ↦ inr (ground arith)
    | inr silent ↦ inl silent
  ]

  all_exited-IsGone :
      (moment : ℕ) (pids : List ℕ) → all_exited moment pids ≡ true → All (IsGone moment) pids
  unfolding all_exited
  all_exited-IsGone moment [] e = tt
  all_exited-IsGone moment (pid ∷ pids) e = elim (Bool-cases (is_live moment pid)) [
    | inl live ↦ ground arith
    | inr gone ↦ (is_live-IsGone moment pid gone, all_exited-IsGone moment pids (ground arith))
  ]

  wait_rounds-gone :
      (fuel deadline : ℕ) (pids : List ℕ) (slept moment last : ℕ)
      → wait_rounds fuel deadline pids slept moment ≡ some (true, last)
      → all_exited last pids ≡ true
  unfolding wait_rounds
  wait_rounds-gone zero deadline pids slept moment last e = cc
  wait_rounds-gone (suc fuel) deadline pids slept moment last e =
      ground (arith, wait_rounds-gone fuel deadline pids (slept + h.nap moment) (suc moment) last)

  wait_for_all_exit-gone :
      (pids : List ℕ) (timeout moment last : ℕ)
      → wait_for_all_exit pids timeout moment ≡ some (true, last)
      → all_exited last pids ≡ true
  unfolding wait_for_all_exit
  wait_for_all_exit-gone pids timeout moment last e =
      wait_rounds-gone (wait_fuel timeout) (h.clock moment + timeout) pids 0 (suc moment) last e

  -- The processes were all gone at the last look, or nothing says that they stopped.
  abbrev pub GoneIfStopped : List ℕ → Stopping → Type 0
  GoneIfStopped pids s = (s.result.stopped ≡ false) ⊎ All (IsGone s.moment) pids

  force_stop-GoneIfStopped :
      (pids : List ℕ) (timeout : ℕ) (s : Stopping)
      → s.result.stopped ≡ false
      → Ensures (GoneIfStopped pids) (force_stop pids timeout s)
  unfolding force_stop has_stopped
  force_stop-GoneIfStopped pids timeout s fresh =
      Ensures-after_sending (GoneIfStopped pids) sigkill (send_kills (suc s.moment) pids).0
        (send_kills (suc s.moment) pids).1 _ _
        (λ all.
          Ensures-after_wait (GoneIfStopped pids) pids
            (wait_for_all_exit pids timeout (suc s.moment)) _ _
            (λ moment e. inr (
              all_exited-IsGone moment pids
                (wait_for_all_exit-gone pids timeout (suc s.moment) moment e)))
            (λ moment e. Ensures-return (GoneIfStopped pids) _ (inl fresh)))
        (λ pid. inl fresh)

  -- After a stop that says that the processes stopped, each of them was gone, or a zombie, at the
  -- last look.
  pub stop_runtime_pids-IsGone :
      (pids : List ℕ) (timeout : ℕ) (force_kill : Bool) (result : StopResult) (s : Stopping)
      → result.stopped ≡ false
      → stop_runtime_pids pids timeout force_kill result ≡ some s
      → (s.result.stopped ≡ false) ⊎ All (IsGone s.moment) pids
  unfolding stop_runtime_pids has_stopped begun
  stop_runtime_pids-IsGone pids timeout force_kill result s fresh e =
      Ensures-some (GoneIfStopped pids) (stop_runtime_pids pids timeout force_kill result) s e (
        Ensures-if (GoneIfStopped pids) (is_empty pids) _ _
          (λ none_given. Ensures-return (GoneIfStopped pids) _ (inl fresh))
          (Ensures-after_sending (GoneIfStopped pids) sigterm (send_terms pids).0
            (send_terms pids).1 _ _
            (λ all.
              Ensures-after_wait (GoneIfStopped pids) pids (wait_for_all_exit pids timeout 0) _ _
                (λ moment w.
                  inr (
                    all_exited-IsGone moment pids (wait_for_all_exit-gone pids timeout 0 moment w)))
                (λ moment w.
                  Ensures-if (GoneIfStopped pids) force_kill _ _
                    (λ forced.
                      force_stop-GoneIfStopped pids timeout
                        (record (begun pids result) { sent = (send_terms pids).0; moment = moment })
                        fresh)
                    (Ensures-return (GoneIfStopped pids) _ (inl fresh))))
            (λ pid. inl fresh)))
