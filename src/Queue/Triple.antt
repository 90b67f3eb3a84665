-- ===== src/Queue/Triple.antt =====
-- The rules for the actions of core/internal/queue on its directories.
use agentbell.Common.{Bool, true, false, Result, ok, err, if◌then◌else◌}
use agentbell.Queue.Types.{Error}
use agentbell.Queue.Disk.{Disk, Fs, forgive, is_not_exist, unless_missing, system_call}
pub use agentbell.Actions.Triple.{
  Post, Triple, Triple-pure, Triple-raise, Triple-lift, Triple-if, Triple-weaken, Triple-bind,
  Triple-ignore, Triple-modify, Triple-call_or, Triple-inspect, Triple-try, Triple-any,
}

module _ {P : Disk → Type 0} {E : Error → Disk → Type 0} where
  pub Triple-system_call : ((k : Disk) → P k → E Error.io k) → Triple P system_call (λ _. P) E
  unfolding system_call
  Triple-system_call h = Triple-call_or Error.io h

module _ {P Q : Disk → Type 0} where
  pub Triple-unless_missing :
      (m : Fs (Unit {0}))
      → Triple P m (λ _. Q) (λ _. Q)
      → Triple P (unless_missing m) (λ _. Q) (λ _. Q)
  unfolding unless_missing
  Triple-unless_missing m t = record { at = λ w p. go (m w).0 (m w).1.disk (t.at w p) }
    where
      go :
          (r : Result Error (Unit {0})) (k : Disk)
          → Post (λ _. Q) (λ _. Q) r k
          → Post (λ _. Q) (λ _. Q) (forgive r) k
      go (ok a) k q = q
      go (err e) k q = forgiven (is_not_exist e) q
        where
          forgiven : (b : Bool) → Q k → Post (λ _. Q) (λ _. Q) (if b then ok tt else err e) k
          forgiven true q = q
          forgiven false q = q
