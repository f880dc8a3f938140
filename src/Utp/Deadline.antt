-- ===== src/Utp/Deadline.antt =====
-- utpconn/deadlines.go. A time is nanoseconds, `none` the zero time; a timer is the time at which
-- it fires, `none` when there is none or it is stopped.
pub mod Passed
use discv5_streams.Prelude.{ℕ, Bool, true, false, Option, none, some, ltb, if◌then◌else◌}

pub record Deadline : Type 0 where
  pub t : Option ℕ
  pub passed : Bool
  pub timer : Option ℕ

pub update : ℕ → Deadline → Deadline
update now d = elim d.t [
  | none ↦ d
  | some t ↦ if ltb now t then record d { timer = some t } else record d { passed = true }
]

unfoldable pub set : ℕ → Option ℕ → Deadline → Deadline
unfolding update
set now t d = update now (record d { t = t; passed = false; timer = none })

-- The timer has fired.
unfoldable pub callback : ℕ → Deadline → Deadline
unfolding update
callback now d = update now (record d { timer = none })

pub record ConnDeadlines : Type 0 where
  pub read : Deadline
  pub write : Deadline

pub set_deadline : ℕ → Option ℕ → ConnDeadlines → ConnDeadlines
unfolding set
set_deadline now t c = record { read = set now t c.read; write = set now t c.write }

pub set_read_deadline : ℕ → Option ℕ → ConnDeadlines → ConnDeadlines
unfolding set
set_read_deadline now t c = record c { read = set now t c.read }

pub set_write_deadline : ℕ → Option ℕ → ConnDeadlines → ConnDeadlines
unfolding set
set_write_deadline now t c = record c { write = set now t c.write }
