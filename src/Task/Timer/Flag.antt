-- ===== src/Task/Timer/Flag.antt =====
-- The timer's flag and its stream: no tick is lost between two looks at the flag.
use ferr_os.Base.{
  ℕ, ◌≡◌, refl, sym, Bool, true, false, ◌||◌, some, [], ◌∷◌, ◌++◌, arith, if◌then◌else◌, ok,
}
use mathlib.Core.Path.{subst}
use ferr_os.Base.{sym, refl}
use ferr_os.Task.{ready, pending}
use ferr_os.Task.Waker.{AtomicWaker, IsAtomicWaker}
use ferr_os.Task.Timer.{Timer, raise_timer, poll_next, poll_again, wake_timer}

-- The handler never reports a tick that has not been consumed: it stores the flag before it
-- compares it.
pub raise_timer-silent :
    {W : Type 0} (atomic : AtomicWaker W) (s : Timer W) → (raise_timer atomic s).errors ≡ s.errors
unfolding raise_timer wake_timer
raise_timer-silent atomic s = ground arith

at_flag :
    {W : Type 0} (atomic : AtomicWaker W) (law : IsAtomicWaker atomic) (early late flag : Bool)
    (task : ℕ) (s : Timer W)
    → (s' : Timer W) × (poll_next atomic early late task (record s { timer_flag = some flag })
        ≡ ok ((if flag || early || late then ready tt else pending), s'))
      × (s'.timer_flag ≡ some false)
      × ((flag || early || late) ≡ false → (raise_timer atomic s').woken ≡ s.woken ++ task ∷ [])
unfolding poll_next poll_again raise_timer wake_timer
at_flag atomic law early late true task s = (_, refl, refl, λ h. absurd (cc h))
at_flag atomic law true true false task s = (_, refl, refl, λ h. absurd (cc h))
at_flag atomic law true false false task s = (_, refl, refl, λ h. absurd (cc h))
at_flag atomic law false true false task s = (_, refl, refl, λ h. absurd (cc h))
at_flag atomic law false false false task s =
    (_, refl, refl, λ h. rw (law.take-register task s.waker))

-- With an initialised flag, polling the timer's stream gives a tick exactly if the flag is set
-- before it or by an interrupt during it, and leaves the flag clear. Where it gives none, the
-- next interrupt wakes the polling task.
pub poll_next_lem :
    {W : Type 0} (atomic : AtomicWaker W) (law : IsAtomicWaker atomic) (early late flag : Bool)
    (task : ℕ) (s : Timer W)
    → s.timer_flag ≡ some flag
    → (s' : Timer W) × (poll_next atomic early late task s
        ≡ ok ((if flag || early || late then ready tt else pending), s'))
      × (s'.timer_flag ≡ some false)
      × ((flag || early || late) ≡ false → (raise_timer atomic s').woken ≡ s.woken ++ task ∷ [])
poll_next_lem {W} atomic law early late flag task s e =
    subst
      (λ current.
        (s' : Timer W) × (poll_next atomic early late task (record s { timer_flag = current })
          ≡ ok ((if flag || early || late then ready tt else pending), s'))
        × (s'.timer_flag ≡ some false)
        × ((flag || early || late) ≡ false → (raise_timer atomic s').woken ≡ s.woken ++ task ∷ []))
      (sym e) (at_flag atomic law early late flag task s)
