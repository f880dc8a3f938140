-- ===== src/Utp/Deadline/Passed.antt =====
-- A deadline passes at its time, not before, and only then.
use discv5_streams.Prelude.{ℕ, ◌≤◌, ◌≡◌, ◌↔◌, ◌⊎◌, true, false, Option, none, some, arith}
use discv5_streams.Utp.Deadline.{Deadline, set, callback}

-- A deadline that has not passed has a timer for its time.
abbrev pub IsArmed : Deadline → Type 0
IsArmed d = (t : ℕ) → d.t ≡ some t → d.passed ≡ false → d.timer ≡ some t

pub set-IsArmed : (now : ℕ) (t : Option ℕ) (d : Deadline) → IsArmed (set now t d)
unfolding set
set-IsArmed now none d u e p = cc
set-IsArmed now (some t) d u e p = ground arith

-- After `set`, and when its timer fires, a deadline counts as passed exactly if its time has come.
pub set_passed_iff : (now t : ℕ) (d : Deadline) → ((set now (some t) d).passed ≡ true) ↔ (t ≤ now)
unfolding set
set_passed_iff now t d = ground arith

-- After a deadline is set and its timer fires, it counts as passed exactly if its time had come
-- when it was set, or has come when the timer fires.
pub callback_passed_iff :
    (later now t : ℕ) (d : Deadline)
    → ((callback later (set now (some t) d)).passed ≡ true) ↔ ((t ≤ now) ⊎ (t ≤ later))
unfolding set callback
callback_passed_iff later now t d = ground arith
