-- ===== src/Lib.antt =====
-- PCUTP, the UART file transfer of src/pcutp: a sender with a network connection sends files, block
-- by block, to a receiver without one.
--
-- The parts and how they meet. The receiver greets (`hello` of src/pcutp/client.py), the sender
-- answers with a proposal (`_handle_hello` of src/pcutp/server.py), and both set block size, window
-- and compression. For a GET the sender announces a file by META and sends its blocks, packed where
-- that pays (src/pcutp/compression.py), each with a checksum (src/pcutp/crc.py). The receiver
-- appends the blocks that come in order to a part file, answers ACK, NAK or DROP, and puts the file
-- under its final name once size and checksum agree. A sender that hears nothing probes the receiver
-- and goes back by a barrier or a reset. While nothing is sent, src/pcutp/link.py finds out by
-- beacons and probes whether the link is still there.
--
-- Files and code:
--   Base          operations of Python on numbers, byte sequences and control lines, with lemmas
--   Errors        src/pcutp/errors.py
--   Crc           src/pcutp/crc.py; Crc/Hex has the hexadecimal fields
--   Names         src/pcutp/names.py; Safe is about its result
--   Flow          src/pcutp/flow.py; Cheapest is about the block size
--   Compression   src/pcutp/compression.py: Encoder is `compress`, Decoder `decompress`
--   Client        Announce is `_recv_meta` of src/pcutp/client.py, Header the choice of a branch in
--                 `_receive`, Receive its loop; Consistency, Limits, Final and Prefix are about a
--                 download; Calls has `hello`, `get` and `close`; Closes is about `close`
--   Link          Wait is `recv_line` of src/pcutp/link.py on lines, Stream the bytes under it, with
--                 `recv_exact` and `discard_input`, Teardown `send_fin`, `await_fin` and `linger`;
--                 Limits, Cutting, Framing, Answers and Ends are about them
--   Server        src/pcutp/server.py: Session has the attributes and the calls of the link, Block
--                 `_send_block`, Window `_send_window`, Recovery `_probe_receiver` and
--                 `_recover_window`, Transfer `send_file` and `_handle_get`, Serve `serve_once` and
--                 `shutdown`; Ensures, Recovers and Bounds, Draining, Progress, Waits, SendsAll, Greeted
--                 and Serves, Attempts, Persists, Setbacks and Resumes, Refusals and Lines are about
--                 them
--   Handshake     Negotiate is `_handle_hello` and the offer and checks of `hello`; Agreement and
--                 Greets are about both ends
--   Exchange      a transfer with both ends: Frames, Yields, Fills, Sends, Windows, Confirms and Files
--                 are about the sender, Receives, Blocks, Downloads and Announced about the receiver,
--                 Completes about both, Rounds and Sessions about a whole session of the sender
--   Fetcher       src/pcutp/fetcher.py; Bounded is about what it hands on
--   Transport     the pipe of src/pcutp/transport.py; Noise is about it
--   Sound         src/pcutp/sound.py: Words has its tables, Clips the sounds that are made of them, Voices
--                 `line` and the other calls, Samples the crossfade, Player `_push`, `_render` and
--                 `_pump`; Fading, Chunks, Gapless, Numbered and Newest are about the player,
--                 Voiced and Turns about the lines
--   Daemon        the decisions of src/pcutp/daemon.py; Losses is about them
--   Tests         runs at concrete inputs
--
-- Conventions. The attributes and local variables of a method are fields of a record, a method or a
-- round of its loop is a function on it. The sender's methods are actions: they return a value, raise
-- an error, or wait, where the events that the link delivers have come to an end. Bytes are lists of
-- numbers, control lines texts. Numbers are natural numbers; where Python would go below zero, the
-- difference is 0, and the tests that read it come out the same. Times are not counted, except in Link
-- and in Sound: a deadline is part of an event.
--
-- Bounds and fuel. A call of `compress` has as fuel the length of its input, since the position grows
-- in each round, and so has a call of `decompress`. The loops over an input of the link have as fuel
-- what the link delivers: `_send_window` has two rounds more than there are events, and each of its
-- rounds takes an event. The loop behind DONE has one round more than there are events, and that of
-- `serve_once` two for each event and two more, since of two rounds in a row one takes an event. The
-- reads of Link/Stream have a round for each byte and each burst that is to come. Loops of the source
-- that count have their count.
--
-- A parameter: `zlib_crc32` stands for zlib.crc32, with the documented laws of a running checksum
-- (`IsRunning` of Crc) where a theorem needs them.
--
-- Other parameters: urllib, as the parsing of a URL and the opening of one with the limits on redirects,
-- in Fetcher; the fetcher,
-- in `_handle_get`; Python's `int` on a text of the command line, in Daemon. The lines and payloads that
-- the link delivers are arguments of `get`.
--
-- In Sound the samples of a tone are a parameter, since they are floating-point numbers. Its player is
-- a thread of its own: what other threads ask for between two chunks is an argument of each round.
--
-- What has no model: logs and progress callbacks, the calls of src/pcutp/sound.py out of the other
-- parts, the process that plays, the command line, the control socket and the list of USB ports in
-- src/pcutp/daemon.py, and the receiver in BASIC under picocalc. The timeouts of the link are events
-- without a time. Bytes are cut into lines in Link/Stream; the other parts take whole lines and payloads.
pub mod Base
pub mod Errors
pub mod Compression
pub mod Names
pub mod Crc
pub mod Flow
pub mod Client
pub mod Link
pub mod Server
pub mod Handshake
pub mod Exchange
pub mod Fetcher
pub mod Transport
pub mod Sound
pub mod Daemon
pub mod Tests
