-- ===== src/FileShare/Saver.antt =====
-- The way in which the loops of cmd/file-share/files.go and transfers.go keep their state on disk:
-- a flag that asks for a save, and a goroutine that saves. The goroutine shares the variable that
-- holds the state with the loop, so it saves what it finds there when it gets to run.
pub mod Covered
use discv5_streams.Prelude.{◌≡◌, refl, Bool, true, false, ◌&&◌, Option, none, some, if◌then◌else◌}

-- The state file. A file that cannot be opened is told from one that is not there, and a write that
-- fails after the file was truncated leaves one that cannot be decoded.
pub data File (V : Type 0) : Type 0 where
  missing unreadable garbled : File V
  content : V → File V

-- How a save ends: `OpenFile` may fail, or the encoder.
pub data Outcome : Type 0 where
  saved not_opened not_encoded : Outcome

unfoldable pub write_file : {V : Type 0} → Outcome → V → File V → File V
write_file saved v file = content v
write_file not_opened v file = file
write_file not_encoded v file = garbled

pub data LoadError : Type 0 where
  open_error decode_error : LoadError

pub data Loaded (V : Type 0) : Type 0 where
  loaded : V → Loaded V
  load_failed : LoadError → Loaded V

pub Loaded-cases {ℓ} :
    {V : Type 0} (P : Loaded V → Type ℓ) (r : Loaded V)
    → ((v : V) → r ≡ loaded v → P (loaded v))
    → ((e : LoadError) → r ≡ load_failed e → P (load_failed e))
    → P r
Loaded-cases P (loaded v) f g = f v refl
Loaded-cases P (load_failed e) f g = g e refl

-- A file that is not there counts as an empty one.
unfoldable pub read_file : {V : Type 0} → V → File V → Loaded V
read_file empty missing = loaded empty
read_file empty unreadable = load_failed open_error
read_file empty garbled = load_failed decode_error
read_file empty (content v) = loaded v

-- The goroutine: not there (`saveDone` is nil), launched, with the state in hand, and at the send on
-- `saveDone`.
pub data Worker (S : Type 0) : Type 0 where
  idle launched finished : Worker S
  holding : S → Worker S

abbrev pub is_idle : {S : Type 0} → Worker S → Bool
is_idle idle = true
is_idle launched = false
is_idle finished = false
is_idle (holding s) = false

pub record Saver (S V : Type 0) : Type 0 where
  pub requested : Bool
  pub worker : Worker S
  pub file : File V

module _ {S V : Type 0} (view : S → V) where
  -- The top of the loop: launch a save if one is requested and none is running.
  unfoldable pub launch : Saver S V → Saver S V
  launch s =
      if s.requested && is_idle s.worker
      then record s { requested = false; worker = launched }
      else s

  -- The goroutine reads the variable.
  unfoldable pub pick_up : S → Worker S → Worker S
  pick_up now launched = holding now
  pick_up now idle = idle
  pick_up now finished = finished
  pick_up now (holding s) = holding s

  abbrev pub to_write : Worker S → Option S
  to_write (holding s) = some s
  to_write idle = none
  to_write launched = none
  to_write finished = none

  -- The goroutine writes what it holds.
  unfoldable pub write_out : Outcome → Saver S V → Saver S V
  write_out how s = elim (to_write s.worker) [
    | none ↦ s
    | some held ↦ record s { worker = finished; file = write_file how (view held) s.file }
  ]

  abbrev after_done : Worker S → Worker S
  after_done finished = idle
  after_done idle = idle
  after_done launched = launched
  after_done (holding s) = holding s

  -- The loop receives from `saveDone`.
  unfoldable pub save_done : Saver S V → Saver S V
  unfolding after_done
  save_done s = record s { worker = after_done s.worker }

  -- The loop is closed: a running save is waited for, and otherwise the state is saved.
  unfoldable pub close_down : Outcome → S → Saver S V → Saver S V
  unfolding write_out pick_up save_done
  close_down how now s =
      if is_idle s.worker
      then record s { file = write_file how (view now) s.file }
      else save_done (write_out how (record s { worker = pick_up now s.worker }))
