-- ===== src/SharedSocket/Threads.antt =====
-- sharedsocket/conn.go, with its goroutines and mutexes: the goroutine of `readLoop`, a `Close` of the
-- socket, and calls of the methods of the socket and its outlets from any other goroutine.
-- A step is what a goroutine does between two waits: for a mutex, for a channel, for the socket or for
-- the end of `readLoop`. A step that would have to wait is `none`.
pub mod Leads
pub mod Single
pub mod Opened
pub mod Runs
pub mod Stuck
use discv5_streams.Prelude.{
  ℕ, Bool, true, false, not, ◌==◌, if◌then◌else◌, Option, none, some, List, [], ◌∷◌, get_elem?, set,
}
use discv5_streams.SharedSocket.{
  Conn, DefaultConn, Packet, HandlerList, Delivery, delivered, dropped, refused, waits,
  send_on_closed, Dispatched, handled, to_outlet, nobody, Received, new_conn, add_handler,
  remove_handler, open_default, unset_default_conn, get_packet, recycle_packet, send_packet,
  read_from_udp, set_read_deadline, dispatch,
}

-- Where the goroutine of `readLoop` stands: it waits for a packet, for the outlet's mutex in
-- `getPacket`, for the `select` of `deliver`, or for the mutex in `recyclePacket`; or it has ended.
pub data ReadLoop : Type 0 where
  receiving : ReadLoop
  getting sending recycling : ℕ → Packet → ReadLoop
  ended panicked : ReadLoop

-- `closing` says that `Close` of the socket holds the mutex of the socket and waits for `readLoop`.
-- `locked` tells of each outlet whether its `Close` holds its mutex and waits for the socket's.
-- No other method waits while it holds one of these.
pub record Socket : Type 0 where
  pub conn : Conn
  pub loop : ReadLoop
  pub closing : Bool
  pub locked : ℕ → Bool

-- `NewConn`.
abbrev pub new_socket : Socket
new_socket = record { conn = new_conn; loop = receiving; closing = false; locked = λ d. false }

abbrev pub mark : ℕ → Bool → (ℕ → Bool) → ℕ → Bool
mark d b locked = λ k. if k == d then b else locked k

abbrev pub put : ℕ → DefaultConn → Socket → Socket
put d dc s = record s { conn = record s.conn { outlets = set s.conn.outlets d dc } }

abbrev pub with_outlet : ℕ → Socket → (DefaultConn → Option Socket) → Option Socket
with_outlet d s f = elim (get_elem? s.conn.outlets d) [ none ↦ none | some dc ↦ f dc ]

-- A method that runs under the mutex of the socket, or one under that of an outlet.
abbrev pub under_mutex : Socket → Socket → Option Socket
under_mutex s s' = if s.closing then none else some s'

abbrev pub under_outlet : ℕ → Socket → Option Socket → Option Socket
under_outlet d s o = if s.locked d then none else o

-- `readLoop` has received a packet and loaded the handlers.
abbrev pub dispatched : Packet → Dispatched → Socket → Socket
dispatched p (handled h) s = s
dispatched p (to_outlet d) s = record s { loop = getting d p }
dispatched p nobody s = s

-- The rest of `deliver`: `getPacket`, the `select`, and `recyclePacket`.
abbrev pub got_packet : ℕ → Packet → Socket → Option (Packet × DefaultConn) → Socket
got_packet d p s none = record s { loop = receiving }
got_packet d p s (some (q, dc)) = put d dc (record s { loop = sending d p })

abbrev pub selected : ℕ → Packet → Socket → Delivery → Option Socket
selected d p s (delivered dc) = some (put d dc (record s { loop = receiving }))
selected d p s (dropped dc) = some (record s { loop = recycling d p })
selected d p s refused = none
selected d p s waits = none
selected d p s send_on_closed = some (record s { loop = panicked })

unfoldable pub loop_step : Bool → Socket → ReadLoop → Option Socket
unfolding send_packet
loop_step pick s receiving = if s.conn.quit then some (record s { loop = ended }) else none
loop_step pick s (getting d p) =
    under_outlet d s (with_outlet d s (λ dc. some (got_packet d p s (get_packet dc))))
loop_step pick s (sending d p) =
    with_outlet d s (λ dc. selected d p s (send_packet s.conn.quit pick p dc))
loop_step pick s (recycling d p) =
    under_outlet d s
      (with_outlet d s (λ dc. some (put d (recycle_packet p dc) (record s { loop = receiving }))))
loop_step pick s ended = none
loop_step pick s panicked = none

-- A packet arrives while `readLoop` waits for one and the socket is open.
unfoldable pub packet_step : (ℕ → Bool) → Packet → Socket → ReadLoop → Option Socket
unfolding dispatch
packet_step accepts p s receiving =
    if s.conn.quit then none else some (dispatched p (dispatch accepts s.conn.handlers) s)
packet_step accepts p s (getting d q) = none
packet_step accepts p s (sending d q) = none
packet_step accepts p s (recycling d q) = none
packet_step accepts p s ended = none
packet_step accepts p s panicked = none

-- The second half of `Close`: `wg.Wait` returns, and the mutex is released.
abbrev pub close_end : Socket → ReadLoop → Option Socket
close_end s receiving = none
close_end s (getting d p) = none
close_end s (sending d p) = none
close_end s (recycling d p) = none
close_end s ended = if s.closing then some (record s { closing = false }) else none
close_end s panicked = none

-- What goroutines do. `closes` is `Close` of the socket up to `wg.Wait`, and `close_ends` the rest of it,
-- after which it closes the outlet as `closes_outlet` does. `closes_outlet` is `Close` of an outlet up to
-- `unsetDefaultConn`, and `unsets` the rest of it. A read that takes a packet gives it back in the
-- same step.
pub data Step : Type 0 where
  arrives : (accepts : ℕ → Bool) (p : Packet) → Step
  loops : (pick : Bool) → Step
  adds removes : (h : ℕ) → Step
  opens closes close_ends : Step
  closes_outlet unsets : (d : ℕ) → Step
  reads : (pick : Bool) (now n d : ℕ) → Step
  sets_deadline : (now t d : ℕ) → Step

unfoldable pub step : Step → Socket → Option Socket
unfolding packet_step loop_step add_handler remove_handler open_default read_from_udp
    set_read_deadline
step (arrives accepts p) s = packet_step accepts p s s.loop
step (loops pick) s = loop_step pick s s.loop
step (adds h) s = under_mutex s (record s { conn = add_handler h s.conn })
step (removes h) s = under_mutex s (record s { conn = remove_handler h s.conn })
step opens s = under_mutex s (record s { conn = (open_default s.conn).1 })
step closes s =
    under_mutex s
      (if s.conn.quit then s else record s { conn = record s.conn { quit = true }; closing = true })
step close_ends s = close_end s s.loop
step (closes_outlet d) s = under_outlet d s (
    with_outlet d s (λ dc.
      if dc.closed
      then some s
      else some (put d (record dc { closed = true }) (record s { locked = mark d true s.locked }))))
step (unsets d) s =
    if s.locked d
    then under_mutex s
        (record s { conn = unset_default_conn s.conn; locked = mark d false s.locked })
    else none
step (reads pick now n d) s =
    under_outlet d s (with_outlet d s (λ dc. some (put d (read_from_udp pick now n dc).1 s)))
step (sets_deadline now t d) s = with_outlet d s (λ dc. some (put d (set_read_deadline now t dc) s))

-- Steps in the order in which they are taken.
unfoldable pub run : List Step → Socket → Option Socket
run [] s = some s
run (e ∷ es) s = elim (step e s) [ none ↦ none | some s' ↦ run es s' ]
