-- ===== src/Lib.antt =====
-- adaptivemsg-go: the wire protocol and the recovery machinery, with the theorems that show them
-- correct.
--
-- The program connects a client and a server over a byte transport, TCP or a Unix socket. A
-- handshake (protocol.go) settles the version, the codec and the frame limit; frames (frame.go)
-- carry messages of many streams; in version 3 the connection outlives its transport: an attach
-- exchange (recovery_protocol.go) follows the handshake, every frame that was sent stays in a replay
-- buffer (replay.go) until the peer acknowledges it, and after a reconnect the frames that the peer
-- misses are sent again (recovery_runtime.go).
--
-- Which file models which part:
--   Prelude, Bytes      lists, Booleans, and big-endian integers as encoding/binary has them
--   Errors              error.go, and the io errors that the code tells apart
--   Port                net.Conn: io.ReadFull, and writeFull of frame.go over Write calls that may
--                       take less than they are given or fail (a script of outcomes)
--   Codecs              codec_registry.go
--   Frame               frame.go: headers, writeFrameNoFlush, readFrameFrom
--   Handshake           protocol.go: handshakeClient, handshakeServer
--   Replay              replay.go: the replay buffer, its array with the entries set to nil, the
--                       compaction, and the binary search of sort.Search
--   Duration, Recovery  recovery.go: options, defaults, normalisation on int64 bit patterns
--   AckSchedule         recovery_runtime.go: noteReceived, nextAckWait, takePendingControl
--   Runtime             recovery_runtime.go: the writer (stage, writeLive, writeResume, writeNext,
--                       stageWhileDetached), the reader (handleControlFrame,
--                       handleRecoveryDataFrame); Runtime/System joins two ends by transports that
--                       lose frames, as a step relation
--   Transport           recovery_runtime.go: attachTransport, detachTransport, closeTransport,
--                       attachedTransport, transportActive; the nil transport is never detached
--   Reconnect           recovery_runtime.go: reconnectUntilAttached, over a list of what its rounds
--                       meet
--   Compact             codec_msgpack.go: the compact codec on values as reflect shows them
--                       (encodeCompactValue, decodeCompactValue and what they call), its envelope,
--                       and the envelope of the map codec; the msgpack library is a record of
--                       functions with the laws that its documentation gives
--   Sessions            server.go and client.go: handleRecoveryConn with attachNew, attachResume and
--                       rejectAttach; startRecoveryConnection and resumeClientTransport
--   Connecting          client.go: connect, connectAttempt, connectVersion, dialBefore and connectError
--                       over a function that says what each dial and handshake comes to and how long
--                       it takes
--   Lifecycle           server.go: what lifecycleMu guards (trackListener, beginHandshake, trackConn
--                       and their counterparts), serveListener, handleConn and awaitClose as steps,
--                       and Shutdown; a listener or a transport is a number
--   Streams             connection.go: the table of streams (NewStream, getStreamCtx, removeStream,
--                       closePeerStream, markClosed) and acceptFrame
--   Serving             connection.go and stream.go: decodeLoop, dispatchMessage and handlerLoop as
--                       steps of one stream, with sendBoxed, enqueueFrame, handlerQ, inboxQ,
--                       protocolError and Stream.Close; the codec, the registry and the handlers are
--                       a record of functions
--   Receive             stream.go: recvGuard, takeRaw, peekRaw, readRaw, and sendRecvAs up to the
--                       decoding of the reply
--   Attach              recovery_protocol.go: attach messages, options in milliseconds, the payloads
--                       of control frames
--
-- A function with a transport is a function from the port to a result and the port: what was read or
-- written stays read or written when it fails. A uint64 or int64 is its bit pattern and wraps where
-- the source adds; lengths and byte counts of slices are numbers without bound. The loops are
-- structural, except for the one of `ack`, whose fuel is the number of entries behind the head, and
-- the one of the standard library's sort.Search, whose fuel is the length of the range: each round
-- shortens it, and the theorems are about the functions with that fuel. The one of Client.connect is
-- on a number of rounds that is an argument; each round brings the deadline nearer by the backoff.
--
-- Not modelled: the msgpack library, which is third-party, the debug counters except the ones of
-- frame.go, logging, the dialing and listening of transports, the code generator, the examples, and
-- the locks: each function is one atomic step. In Runtime/System frames are lost from the end of a
-- transport, never changed or swapped, as TCP has it; steps may come in any order. A frame that a
-- writer wrote to a transport that its peer does not read is gone. The streams of an end take every
-- frame (acceptFrame), and no frame of theirs is on the control stream.
pub mod Prelude
pub mod Errors
pub mod Bytes
pub mod Port
pub mod Codecs
pub mod Frame
pub mod Handshake
pub mod Replay
pub mod Duration
pub mod Recovery
pub mod Attach
pub mod AckSchedule
pub mod Runtime
pub mod Streams
pub mod Receive
pub mod Transport
pub mod Reconnect
pub mod Compact
pub mod Sessions
pub mod Lifecycle
pub mod Serving
pub mod Connecting
