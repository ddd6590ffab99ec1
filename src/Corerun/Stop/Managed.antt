-- ===== src/Corerun/Stop/Managed.antt =====
-- Stop signals managed cores only.
use local_clash.Prelude.{
  ℕ, nat_eq, String, ◌≡◌, refl, sym, ap, subst, Bool, true, false, not, ◌||◌, List, [], ◌∷◌, ◌++◌,
  All, All-append, Option, none, some, some-injective, map, if◌then◌else◌, is_empty, inl, inr,
  Bool-cases, Option-cases, arith,
}
use local_clash.Corerun.Process.{
  Host, RuntimeProcess, is_live, process_zombie, process_name, process_command_has_exact_arg,
  managed_process_name, named_process, runtime_process, runtime_processes, insert_process,
  sort_processes, process_less, find_managed_runtime_processes, append_unique_pids, elem_pid,
}
use local_clash.Corerun.Stop.{Stopping, stop}
use local_clash.Corerun.Stop.Signals.{InOrder, SentInOrder, stop_runtime_pids-InOrder}
use local_clash.Corerun.Stop.Rules.{Ensures-some, Ensures-if, Ensures-return}

module _ ⦃h : Host⦄ where
  -- A live process with the name of a managed core that is not this program and no test of a
  -- configuration, as the kernel shows it at the first look.
  abbrev pub IsManaged : ℕ → Type 0
  IsManaged pid =
      (nat_eq pid h.self ≡ false)
      × (h.answers 0 pid ≡ true)
      × (process_zombie 0 pid ≡ false)
      × (process_command_has_exact_arg pid "-t" ≡ false)
      × ((name : String) × (process_name (h.comm pid) ≡ some name)
          × (managed_process_name name ≡ true))

  named_process-eq-some :
      (pid : ℕ) (found : Option String) (p : RuntimeProcess)
      → named_process managed_process_name pid found ≡ some p
      → (p.pid ≡ pid)
        × (process_command_has_exact_arg pid "-t" ≡ false)
        × ((name : String) × (found ≡ some name) × (managed_process_name name ≡ true))
  unfolding named_process
  named_process-eq-some pid none p e = cc
  named_process-eq-some pid (some name) p e = elim (Bool-cases (managed_process_name name)) [
    | inl managed ↦ elim (Bool-cases (process_command_has_exact_arg pid "-t")) [
      | inl test ↦ ground arith
      | inr no_test ↦
          let same : some (record { pid = pid; name = name }) ≡ some p = ground arith in
          (
            sym (ap (λ (q : RuntimeProcess). q.pid) (some-injective _ _ same)),
            no_test,
            (name, refl, managed),
          )
    ]
    | inr other ↦ ground arith
  ]

  runtime_process-IsManaged :
      (pid : ℕ) (p : RuntimeProcess)
      → runtime_process managed_process_name pid ≡ some p
      → IsManaged p.pid
  unfolding runtime_process is_live
  runtime_process-IsManaged pid p e =
      elim (Bool-cases (nat_eq pid 0 || nat_eq pid h.self || not (is_live 0 pid))) [
        | inl skipped ↦ ground arith
        | inr looked_at ↦
            let named : named_process managed_process_name pid (process_name (h.comm pid))
                ≡ some p =
              ground arith in
            let (same, no_test, name) =
              named_process-eq-some pid (process_name (h.comm pid)) p named in
            subst IsManaged (sym same) (ground arith, ground arith, ground arith, no_test, name)
      ]

  ManagedProcess : RuntimeProcess → Type 0
  ManagedProcess p = IsManaged p.pid

  runtime_processes-IsManaged :
      (pids : List ℕ) → All ManagedProcess (runtime_processes managed_process_name pids)
  unfolding runtime_processes ManagedProcess
  runtime_processes-IsManaged [] = tt
  runtime_processes-IsManaged (pid ∷ pids) =
      let rest = runtime_processes-IsManaged pids in
      elim (Option-cases (runtime_process managed_process_name pid)) [
        | inl no_core ↦ rw no_core rest
        | inr (p, core) ↦ rw core (runtime_process-IsManaged pid p core, rest)
      ]

All-insert_process :
    (P : RuntimeProcess → Type 0) (p : RuntimeProcess) (ps : List RuntimeProcess)
    → P p
    → All P ps
    → All P (insert_process p ps)
unfolding insert_process
All-insert_process P p [] h k = (h, tt)
All-insert_process P p (q ∷ ps) h k = elim (Bool-cases (process_less q p)) [
  | inl later ↦ rw later (k.0, All-insert_process P p ps h k.1)
  | inr first ↦ rw first (h, k)
]

All-sort_processes :
    (P : RuntimeProcess → Type 0) (ps : List RuntimeProcess) → All P ps → All P (sort_processes ps)
unfolding sort_processes
All-sort_processes P [] h = tt
All-sort_processes P (p ∷ ps) h =
    All-insert_process P p (sort_processes ps) h.0 (All-sort_processes P ps h.1)

All-if :
    (Q : ℕ → Type 0) (test : Bool) (xs ys : List ℕ)
    → All Q xs
    → All Q ys
    → All Q (if test then xs else ys)
All-if Q true xs ys h k = h
All-if Q false xs ys h k = k

All-append_unique_pids :
    (Q : ℕ → Type 0) (existing pids : List ℕ)
    → All Q existing
    → All Q pids
    → All Q (append_unique_pids existing pids)
unfolding append_unique_pids
All-append_unique_pids Q existing [] h k = h
All-append_unique_pids Q existing (pid ∷ pids) h k =
    let old = nat_eq pid 0 || elem_pid pid existing in
    All-append_unique_pids Q (if old then existing else existing ++ (pid ∷ [])) pids
      (All-if Q old existing (existing ++ (pid ∷ [])) h
        (All-append Q existing (pid ∷ []) h (k.0, tt)))
      k.1

All-pids :
    (Q : ℕ → Type 0) (ps : List RuntimeProcess)
    → All (λ (p : RuntimeProcess). Q p.pid) ps
    → All Q (map (λ (p : RuntimeProcess). p.pid) ps)
All-pids Q [] h = tt
All-pids Q (p ∷ ps) h = (h.0, All-pids Q ps h.1)

module _ ⦃h : Host⦄ where
  managed_pids : List ℕ
  unfolding find_managed_runtime_processes append_unique_pids
  managed_pids =
      append_unique_pids [] (map (λ (p : RuntimeProcess). p.pid) find_managed_runtime_processes)

  managed_pids-IsManaged : All IsManaged managed_pids
  unfolding managed_pids find_managed_runtime_processes ManagedProcess
  managed_pids-IsManaged = All-append_unique_pids IsManaged [] _ tt (
      All-pids IsManaged find_managed_runtime_processes
        (All-sort_processes ManagedProcess _ (runtime_processes-IsManaged h.listed)))

  -- the timeout of a stop; 0 stands for 5 s
  abbrev pub timeout_or_default : ℕ → ℕ
  timeout_or_default timeout = if nat_eq timeout 0 then 5000 else timeout

  -- Stop sends signals to managed cores only. SIGKILL is sent only if `ForceKill` is set, after
  -- SIGTERM was sent to every one of them and the wait for them has timed out, and only to a
  -- process that is there, and is no zombie, at the look after that wait.
  pub stop-InOrder :
      (timeout : ℕ) (force_kill : Bool) (s : Stopping)
      → stop timeout force_kill ≡ some s
      → (pids : List ℕ) × All IsManaged pids
        × InOrder IsManaged (timeout_or_default timeout) force_kill pids s.sent
  unfolding stop managed_pids
  stop-InOrder timeout force_kill s e =
      let P =
        SentInOrder IsManaged managed_pids managed_pids-IsManaged (timeout_or_default timeout)
          force_kill in
      (
        managed_pids,
        managed_pids-IsManaged,
        Ensures-some P (stop timeout force_kill) s e (
            Ensures-if P (is_empty find_managed_runtime_processes) _ _
              (λ nothing. Ensures-return P _ (inl tt))
              (stop_runtime_pids-InOrder IsManaged managed_pids managed_pids-IsManaged _ force_kill
                _)),
      )
