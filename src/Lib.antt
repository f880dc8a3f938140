-- ===== src/Lib.antt =====
-- Verification of discv5-streams: reliable streams between nodes that know each other by their
-- discovery records.
--
-- A stream is a uTP connection (utpconn) whose packets are encrypted by a session (session), over a
-- UDP socket that is shared with the discovery protocol (sharedsocket). The shared socket offers each
-- incoming packet to its handlers in turn; one of them is the session store, which finds the session
-- of the packet and calls its handler, which decodes the packet and gives it to the connection. In the
-- other direction the connection hands each packet that it makes to a write function, which encodes
-- it and sends it through the socket. The file server (fileserver) uses such a stream for each file,
-- after a handshake over the discovery protocol that agrees on the keys. The program cmd/file-share
-- keeps lists of shared files and of downloads for its user interface and runs the host (host) under
-- them. An older way to transfer (kcpxfer) puts sessions of kcp-go on the same socket.
--
-- The modules and the code that they are about:
--   Prelude: lists, options, tests on numbers, and fixed-width words with their bytes.
--   Utp.Seq, Utp.Header, Utp.SelAck: utpconn/utp.go and utpconn/header.go, that is the constants, the
--     order of sequence numbers, `Unmarshal`, `Marshal` and the bitmask of selective acks.
--   Utp.Tx: the fields of `Conn` in utpconn/conn.go that count what is sent, with `ack`, `ackTo`,
--   `seqSend`, `addLatency` and `updateCanWrite`, and `send.Ack` of utpconn/send.go.
--   Utp.Rx: the fields that hold what has come in, with `processInbound`, `wndSize`, the part of
--   `processDelivery` that takes in a payload and the part of `Read` that copies out of the buffer.
--   Utp.Conn: the connection. `Conn` has `makePacket`, `send`, `write`, `destroy` and `NewConn`,
--   `Acks` has `ackSkipped` and `applyAcks`, `Delivery` has `PacketIn` and `processDelivery`, `Api`
--   has the methods of net.Conn and `Timers` the callbacks. `Reach` puts them together: an event is a
--   call or a timer that fires, and a connection is reachable if events lead to it.
--   Utp.Link: the sending half of one connection, a network that loses, repeats and reorders, and the
--     receiving half of another. What is resent is the kept packet, under its number.
--   Utp.Config and Utp.Deadline: utpconn/options.go and utpconn/deadlines.go.
--   Session: session/session.go and, in Session.Store, session/store.go.
--   SharedSocket: sharedsocket/conn.go. `Threads` runs it with the goroutine of `readLoop` and its mutexes:
--     a step is what a goroutine does between two waits.
--   FileServer: fileserver. `Client` has the event loop of client.go, `Request` the answer to a request
--     in server.go, `Handshake` the start request on both sides, `Transfer` utpsession.go, `Url` url.go
--     and `ServeFs` servefs.go.
--   FileShare: cmd/file-share. `Saver` has the way in which its loops save, `Transfers` has
--     transfers.go up to `startTransfer`, `Download` and `Average` the rest of that file, and
--     `Together` the main loop with the downloads that it launched; `Files` has files.go and
--     `Network` network.go.
--   Host: host/host.go.
--   KcpXfer: kcpxfer/xfer.go.
--   Tests: the theorems at concrete inputs.
--
-- State is passed explicitly: a method is a function from the state before to the state after, in a
-- result type that has the panics of the code. A mutex makes each method and each callback one step;
-- where the code waits for an event, the step ends. Time is a number of nanoseconds, a timer the time
-- at which it fires. What the code takes from outside is a parameter: the clock, the write function
-- and the jitter of timers (Utp.Conn.Env), the key derivation and the cipher (Session.Crypto, with
-- its documented behaviour in Session.Agreement.IsCrypto), and the priority queue of go-ethereum
-- (Session.Store.Prque, Session.Expiry.IsPrque).
--
-- Loops are structural, or run on fuel: `ackTo` on the number of sends in flight, since each round
-- takes one off (Utp.Tx.AckTo), `Write` on the length of the buffer, since each round takes a byte
-- (Utp.Conn.Writing), and `expire` on the size of the queue, since each round pops an entry
-- (Session.Expiry). Fixed-width integers wrap around as in Go; `inboundWnd` is a Go int and never
-- goes below 0 (Utp.Rx.Stream).
--
-- A goroutine beside a loop is a part of the loop's state, and its steps are events that come in any
-- order between those of the loop: so are the saves of FileShare.Saver, which read the state of the
-- loop when they get to run, and the progress reports of FileShare.Download. The state files are
-- what is decoded from them, or a failure; the sort of FileShare.Files and the float64 of
-- FileShare.Average are parameters, and so are RLP and the hash of KcpXfer (KcpXfer.Handshake.Linked
-- has what is documented of them) and the URL library (FileServer.Url.RoundTrip). The loop over the entries of a loaded list runs on their number,
-- since each round goes to the next index (FileShare.Files.Loading).
--
-- Byte slices are values. The code keeps the slice that it is given for a packet that comes early, so
-- the results on what is read hold for callers that leave those bytes alone; that the file server does
-- not is shown in FileServer.Transfer.Buffer, which has the buffer and the slices.
--
-- Not modelled: logging, the buffer pool, channels and goroutines other than those named, the user
-- interface with its drawing, the command line programs, the addresses and options that the host
-- hands to the libraries, and the sessions of kcp-go.
pub mod Prelude
pub mod Utp
pub mod Session
pub mod FileShare
pub mod SharedSocket
pub mod Tests
pub mod Host
pub mod FileServer
pub mod KcpXfer
