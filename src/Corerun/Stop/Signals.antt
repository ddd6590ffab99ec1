-- ===== src/Corerun/Stop/Signals.antt =====
-- Which processes a stop signals, and in what order.
use local_clash.Prelude.{
  ℕ, suc, ◌≡◌, ◌⊎◌, refl, sym, ap, subst, Bool, true, List, [], ◌∷◌, ◌++◌, All, some, false, none,
  map, is_empty, inl, inr, Bool-cases, arith,
}
use local_clash.Corerun.Process.{Host, Signal, sigterm, sigkill, is_live, process_zombie}
use local_clash.Corerun.Stop.{
  StopResult, Stopping, wait_for_all_exit, send_terms, send_kills, has_stopped, begun, force_stop,
  stop_runtime_pids,
}
use local_clash.Corerun.Stop.Rules.{
  Ensures, Ensures-if, Ensures-after_wait, Ensures-after_sending, Ensures-return,
}

abbrev pub Signals : Type 0
Signals = List (Signal × ℕ)

module _ ⦃h : Host⦄ (Q : ℕ → Type 0) where
  abbrev pub IsTerm : Signal × ℕ → Type 0
  IsTerm e = (e.0 ≡ sigterm) × Q e.1

  -- The process is there at the moment, and it is no zombie.
  abbrev pub IsLive : ℕ → ℕ → Type 0
  IsLive moment pid = (h.answers moment pid ≡ true) × (process_zombie moment pid ≡ false)

  is_live-IsLive : (moment pid : ℕ) → is_live moment pid ≡ true → IsLive moment pid
  unfolding is_live
  is_live-IsLive moment pid e = (ground arith, ground arith)

  -- SIGKILL for a process that is there at the moment
  abbrev pub IsKill : ℕ → Signal × ℕ → Type 0
  IsKill moment e = (e.0 ≡ sigkill) × Q e.1 × IsLive moment e.1

  -- Only SIGTERM was sent, or all processes were sent SIGTERM, the wait for them timed out, and
  -- each SIGKILL is for a process that is there at the look after that wait.
  abbrev pub InOrder : ℕ → Bool → List ℕ → Signals → Type 0
  InOrder timeout force_kill pids sent =
      All IsTerm sent
      ⊎ ((force_kill ≡ true)
          × ((kills : Signals) × (sent ≡ map (λ pid. (sigterm, pid)) pids ++ kills)
              × All IsTerm (map (λ pid. (sigterm, pid)) pids)
              × ((moment : ℕ) × (wait_for_all_exit pids timeout 0 ≡ some (false, moment))
                  × All (IsKill (suc moment)) kills)))

  send_terms-IsTerm : (pids : List ℕ) → All Q pids → All IsTerm (send_terms pids).0
  unfolding send_terms
  send_terms-IsTerm [] q = tt
  send_terms-IsTerm (pid ∷ pids) q = elim (Bool-cases (h.accepts sigterm pid)) [
    | inl yes_sent ↦ rw yes_sent ((refl, q.0), send_terms-IsTerm pids q.1)
    | inr refused ↦ rw refused (tt)
  ]

  send_terms-all :
      (pids : List ℕ)
      → (send_terms pids).1 ≡ none
      → (send_terms pids).0 ≡ map (λ pid. (sigterm, pid)) pids
  unfolding send_terms
  send_terms-all [] e = refl
  send_terms-all (pid ∷ pids) e = ground (arith, send_terms-all pids)

  send_kills-IsKill :
      (moment : ℕ) (pids : List ℕ) → All Q pids → All (IsKill moment) (send_kills moment pids).0
  unfolding send_kills
  send_kills-IsKill moment [] q = tt
  send_kills-IsKill moment (pid ∷ pids) q = elim (Bool-cases (is_live moment pid)) [
    | inr gone ↦ rw gone (send_kills-IsKill moment pids q.1)
    | inl live ↦ elim (Bool-cases (h.accepts sigkill pid)) [
      | inl took ↦
          rw (live, took)
            ((refl, q.0, is_live-IsLive moment pid live), send_kills-IsKill moment pids q.1)
      | inr refused ↦ rw (live, refused) (tt)
    ]
  ]

  module _ (pids : List ℕ) (every : All Q pids) where
    abbrev pub SentInOrder : ℕ → Bool → Stopping → Type 0
    SentInOrder timeout force_kill s = InOrder timeout force_kill pids s.sent

    force_stop-InOrder :
        (timeout : ℕ) (s : Stopping)
        → wait_for_all_exit pids timeout 0 ≡ some (false, s.moment)
        → s.sent ≡ map (λ pid. (sigterm, pid)) pids
        → All IsTerm s.sent
        → Ensures (SentInOrder timeout true) (force_stop pids timeout s)
    unfolding force_stop has_stopped
    force_stop-InOrder timeout s waited all_sent terms =
        let kills = (send_kills (suc s.moment) pids).0 in
        let ordered : InOrder timeout true pids (s.sent ++ kills) = inr (
          refl,
          (
            kills,
            ap (λ (l : Signals). l ++ kills) all_sent,
            subst (All IsTerm) all_sent terms,
            (s.moment, waited, send_kills-IsKill (suc s.moment) pids every),
          ),
        ) in
        Ensures-after_sending (SentInOrder timeout true) sigkill kills
          (send_kills (suc s.moment) pids).1 _ _
          (λ done.
            Ensures-after_wait (SentInOrder timeout true) pids
              (wait_for_all_exit pids timeout (suc s.moment)) _ _ (λ moment e. ordered)
              (λ moment e. Ensures-return (SentInOrder timeout true) _ ordered))
          (λ pid. ordered)

    pub stop_runtime_pids-InOrder :
        (timeout : ℕ) (force_kill : Bool) (result : StopResult)
        → Ensures
            (SentInOrder timeout force_kill)
            (stop_runtime_pids pids timeout force_kill result)
    unfolding stop_runtime_pids has_stopped begun
    stop_runtime_pids-InOrder timeout force_kill result =
        let terms = (send_terms pids).0 in
        let sent_terms = send_terms-IsTerm pids every in
        let P = SentInOrder timeout force_kill in
        Ensures-if P (is_empty pids) _ _ (λ none_given. Ensures-return P _ (inl tt))
          (Ensures-after_sending P sigterm terms (send_terms pids).1 _ _
            (λ done.
              Ensures-after_wait P pids (wait_for_all_exit pids timeout 0) _ _
                (λ moment w. inl sent_terms)
                (λ moment w.
                  Ensures-if P force_kill _ _
                    (λ forced.
                      let s' : Stopping = record (begun pids result) {
                        sent = terms;
                        moment = moment;
                      } in
                      subst (λ b. Ensures (SentInOrder timeout b) (force_stop pids timeout s'))
                        (sym forced)
                        (force_stop-InOrder timeout s' w (send_terms-all pids done) sent_terms))
                    (Ensures-return P _ (inl sent_terms))))
            (λ pid. inl sent_terms))
