-- ===== src/Corerun/Stop/Rules.antt =====
-- Rules for what every result of a stop satisfies.
use local_clash.Prelude.{
  ℕ, ◌++◌, ◌≡◌, refl, subst, Bool, true, false, List, Option, none, some, if◌then◌else◌,
}
use local_clash.Corerun.Process.{Signal}
use local_clash.Corerun.Stop.{
  Stopping, after_wait, after_sending, has_stopped, with_error, send_failed,
}

pub Ensures : (Stopping → Type 0) → Option Stopping → Type 0
Ensures P none = Unit
Ensures P (some s) = P s

pub Ensures-some :
    (P : Stopping → Type 0) (o : Option Stopping) (s : Stopping) → o ≡ some s → Ensures P o → P s
unfolding Ensures
Ensures-some P o s e h = subst (Ensures P) e h

pub Ensures-if :
    (P : Stopping → Type 0) (test : Bool) (a b : Option Stopping)
    → (test ≡ true → Ensures P a)
    → Ensures P b
    → Ensures P (if test then a else b)
Ensures-if P true a b p q = p refl
Ensures-if P false a b p q = q

pub Ensures-after_wait :
    (P : Stopping → Type 0) (pids : List ℕ) (w : Option (Bool × ℕ)) (failed : ℕ → Option Stopping)
    (s : Stopping)
    → ((moment : ℕ) → w ≡ some (true, moment) → P (has_stopped pids (record s { moment = moment })))
    → ((moment : ℕ) → w ≡ some (false, moment) → Ensures P (failed moment))
    → Ensures P (after_wait pids w failed s)
unfolding after_wait Ensures
Ensures-after_wait P pids none failed s p f = tt
Ensures-after_wait P pids (some (true, moment)) failed s p f = p moment refl
Ensures-after_wait P pids (some (false, moment)) failed s p f = f moment refl

pub Ensures-after_sending :
    (P : Stopping → Type 0) (signal : Signal) (sent : List (Signal × ℕ)) (refused : Option ℕ)
    (s : Stopping) (next : Stopping → Option Stopping)
    → (refused ≡ none → Ensures P (next (record s { sent = s.sent ++ sent })))
    → ((pid : ℕ) → P (with_error (send_failed signal pid) (record s { sent = s.sent ++ sent })))
    → Ensures P (after_sending signal (sent, refused) s next)
unfolding Ensures
Ensures-after_sending P signal sent none s next p f = p refl
Ensures-after_sending P signal sent (some pid) s next p f = f pid

pub Ensures-return : (P : Stopping → Type 0) (s : Stopping) → P s → Ensures P (some s)
unfolding Ensures
Ensures-return P s h = h
