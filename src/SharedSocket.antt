-- ===== src/SharedSocket.antt =====
-- sharedsocket/conn.go: one UDP socket for several handlers, and the default outlet.
-- A handler is a number, so that `==` on handlers is equality; what a handler answers is a parameter
-- of `dispatch`. A *defaultConn is its index in `outlets`. The underlying socket is not modelled: its
-- packets are the arguments of `dispatch`, and the methods that only call it are left out.
pub mod Handlers
pub mod Outlet
pub mod Opening
pub mod Threads
use discv5_streams.Prelude.{
  ℕ, zero, suc, ◌+◌, ◌-◌, ◌≤◌, Bool, true, false, ◌&&◌, ◌||◌, not, Option, none, some, List, [],
  ◌∷◌, ◌++◌, ltb, leb, ◌==◌, if◌then◌else◌, length, get_elem?, set, take,
}

-- `handlerList`.
pub record HandlerList : Type 0 where
  pub hs : List ℕ
  pub default_conn : Option ℕ

unfoldable pub append : ℕ → HandlerList → HandlerList
append h l = record l { hs = l.hs ++ (h ∷ []) }

-- `removeIndex` of the first handler equal to `h`, if there is one.
abbrev pub without : ℕ → List ℕ → List ℕ
without h [] = []
without h (x ∷ xs) = if x == h then xs else x ∷ without h xs

unfoldable pub remove : ℕ → HandlerList → HandlerList
remove h l = record l { hs = without h l.hs }

abbrev pub set_default : Option ℕ → HandlerList → HandlerList
set_default dc l = record l { default_conn = dc }

-- `packet`: the bytes and the address they came from.
pub record Packet : Type 0 where
  pub b : List ℕ
  pub addr : ℕ

-- `defaultConn`. `inbox` is what the channel `in` holds, oldest first; `Close` closes the channel and
-- sets `closed`. The end of `buffers` is the head of the list. `read_deadline` is the time at which
-- the timer fires.
pub record DefaultConn : Type 0 where
  pub inbox : List Packet
  pub read_deadline : Option ℕ
  pub buffers : List Packet
  pub closed : Bool

abbrev pub channel_size : ℕ
channel_size = 100

abbrev pub new_default_conn : DefaultConn
new_default_conn = record { inbox = []; read_deadline = none; buffers = []; closed = false }

-- `quit` is true once `Close` has closed the channel of that name.
pub record Conn : Type 0 where
  pub handlers : HandlerList
  pub outlets : List DefaultConn
  pub quit : Bool

abbrev pub new_conn : Conn
new_conn = record { handlers = record { hs = []; default_conn = none }; outlets = []; quit = false }

unfoldable pub add_handler : ℕ → Conn → Conn
add_handler h c = record c { handlers = append h c.handlers }

unfoldable pub remove_handler : ℕ → Conn → Conn
remove_handler h c = record c { handlers = remove h c.handlers }

-- `DefaultConn`.
unfoldable pub open_default : Conn → ℕ × Conn
open_default c = elim c.handlers.default_conn [
  | some d ↦ (d, c)
  | none ↦ (
    length c.outlets,
    record c {
      outlets = c.outlets ++ (new_default_conn ∷ []);
      handlers = set_default (some (length c.outlets)) c.handlers;
    },
  )
]

abbrev pub unset_default_conn : Conn → Conn
unset_default_conn c = record c { handlers = set_default none c.handlers }

-- `defaultConn.Close`, of the outlet `d`.
unfoldable pub close_outlet : ℕ → Conn → Conn
close_outlet d c = elim (get_elem? c.outlets d) [
  | none ↦ c
  | some dc ↦
      if dc.closed
      then c
      else unset_default_conn (record c { outlets = set c.outlets d (record dc { closed = true }) })
]

-- `Close`; the outlet is closed after the mutex is released.
unfoldable pub close : Conn → Conn
close c = if c.quit then c else elim c.handlers.default_conn [
  | none ↦ record c { quit = true }
  | some d ↦ close_outlet d (record c { quit = true })
]

abbrev pub get_packet : DefaultConn → Option (Packet × DefaultConn)
get_packet dc = if dc.closed then none else elim dc.buffers [
  | [] ↦ some (record { b = []; addr = 0 }, dc)
  | p ∷ rest ↦ some (p, record dc { buffers = rest })
]

abbrev pub recycle_packet : Packet → DefaultConn → DefaultConn
recycle_packet p dc = record dc { buffers = p ∷ dc.buffers }

-- The `select` of `deliver`. Where both cases are ready, `pick` is the choice that Go makes.
pub data Delivery : Type 0 where
  delivered dropped : DefaultConn → Delivery
  refused waits send_on_closed : Delivery

unfoldable pub send_packet : Bool → Bool → Packet → DefaultConn → Delivery
send_packet quit pick p dc =
    let ready = dc.closed || ltb (length dc.inbox) channel_size in
    if quit && (pick || not ready)
    then dropped (recycle_packet p dc)
    else (if dc.closed
        then send_on_closed
        else (if ready then delivered (record dc { inbox = dc.inbox ++ (p ∷ []) }) else waits))

unfoldable pub deliver : Bool → Bool → List ℕ → ℕ → DefaultConn → Delivery
deliver quit pick b addr dc = elim (get_packet dc) [
  | none ↦ refused
  | some r ↦ send_packet quit pick (record { b = b; addr = addr }) r.1
]

-- What `ReadFromUDP` returns; `no_packet` is a wait.
pub data Received : Type 0 where
  packet : List ℕ → ℕ → Received
  eof timeout no_packet : Received

abbrev pub has_passed : ℕ → Option ℕ → Bool
has_passed now none = false
has_passed now (some t) = leb t now

-- The channel's case of the `select` in `ReadFromUDP`, into a buffer of `n` bytes.
abbrev pub receive : ℕ → DefaultConn → Received × DefaultConn
receive n dc = elim dc.inbox [
  | [] ↦ (if dc.closed then eof else no_packet, dc)
  | p ∷ rest ↦ (packet (take n p.b) p.addr, recycle_packet p (record dc { inbox = rest }))
]

-- `ReadFromUDP`; `pick` is the choice of the timer where both cases are ready.
unfoldable pub read_from_udp : Bool → ℕ → ℕ → DefaultConn → Received × DefaultConn
read_from_udp pick now n dc =
    if has_passed now dc.read_deadline && (pick || length dc.inbox == 0 && not dc.closed)
    then (timeout, record dc { read_deadline = none })
    else receive n dc

-- `SetReadDeadline`. A timer for a duration of 0 or less fires at once. The value of a timer that has fired stays
-- in its channel when the timer is reset (Go before 1.23), so that the next read times out.
unfoldable pub set_read_deadline : ℕ → ℕ → DefaultConn → DefaultConn
set_read_deadline now t dc = elim dc.read_deadline [
  | none ↦ record dc { read_deadline = some (now + (now - t)) }
  | some old ↦ if leb old now then dc else record dc { read_deadline = some (now + (t - now)) }
]

-- A round of `readLoop` for one packet: the handler that took it, or the outlet it goes to.
pub data Dispatched : Type 0 where
  handled : ℕ → Dispatched
  to_outlet : ℕ → Dispatched
  nobody : Dispatched

abbrev pub first_accepting : (ℕ → Bool) → List ℕ → Option ℕ
first_accepting accepts [] = none
first_accepting accepts (h ∷ hs) = if accepts h then some h else first_accepting accepts hs

unfoldable pub dispatch : (ℕ → Bool) → HandlerList → Dispatched
dispatch accepts l = elim (first_accepting accepts l.hs) [
  | some h ↦ handled h
  | none ↦ elim l.default_conn [ none ↦ nobody | some d ↦ to_outlet d ]
]
