-- ===== src/Lib.antt =====
-- Verification library for ESPAsyncTCP, an asynchronous TCP library for the ESP8266 on lwIP, with
-- TLS by BearSSL. The code is modelled as it is built with ASYNC_TCP_SSL_ENABLED, lwIP 2 and the
-- default constants of src/async_config.h.
--
-- The program's parts. `AsyncClient` (src/ESPAsyncTCPClient.cpp) owns one lwIP `tcp_pcb`. lwIP calls
-- its static functions `_s_recv`, `_s_sent`, `_s_poll`, `_s_connected` and `_s_error`; these call the
-- handlers of the application and return an error code. `ACErrorTracker`
-- (src/ESPAsyncTCPErrorTracker.cpp) is shared between a client and the callback that runs, computes
-- that code, and outlives the client. `AsyncServer` (src/ESPAsyncTCPServer.cpp) listens and makes
-- clients. The TLS glue (src/tcp_bearssl.cpp) keeps a linked list of sessions, one for each pcb, and
-- moves bytes between lwIP, the engine and the client, which it calls back; it also checks
-- certificates and parses those of a server. `AsyncTCPBuffer` (src/ESPAsyncTCPBuffer.cpp) puts rings
-- of bytes before and behind a client, registers callbacks at it, and serves requests to read.
--
-- Which file models which part:
--   * Common.antt: shared names, Boolean tests, lists measured by native numbers, 32-bit arithmetic.
--   * Lwip.antt: the parameters of the model. `Stack` holds the answers of lwIP, of the clock, of the
--     heap and, for the client, of the glue; each is a function of the trace of all calls so far, so
--     that no answer is fixed in advance. `Call` lists the calls out of the library.
--   * Tracker.antt: `ACErrorTracker`. Tracker/Report.antt: runs of calls on it.
--     Tracker/Names.antt: the texts of `errorToString`.
--   * Client.antt: `AsyncClient`. Client/State.antt has its members, and `World`: the client, its
--     tracker, the trace, and two flags, that the object was deleted and that a deleted object or a
--     null pcb was used. A handler is a function `App` on the world, so that it may call the client
--     again or delete it. Client/Status.antt: `connected`, `space` and the like. Teardown.antt:
--     `_close` (`shut`), `close`, `abort`, `_error` and the destructor (`destroy`). Transmit.antt:
--     `add`, `send`, `write`, `_sent`. Receive.antt: `_recv` and `ack`. Poll.antt: `_poll`.
--     Connect.antt: `connect`, `_dns_found`, `_connected`. Upcalls.antt: what the glue calls.
--     Entry.antt: the static functions. Create.antt: construction and assignment. Config.antt: the
--     setters. Access.antt: the getters, the setters of the handlers, `operator==`. A method `_name`
--     is the definition `name`, and `s_name` its static function. Links.antt: `prev`, `next` and
--     `operator+=`, on a store of links by the clients' addresses. Names.antt: `stateToString`.
--     OverGlue.antt fills the glue's part of `Stack` by the glue of Tls.antt, replayed over the
--     trace; OverGlue/Hearing.antt and OverGlue/Receiving.antt are about `_recv` on it.
--     AbortContract.antt, Accounted.antt, Acknowledged.antt, Deletion.antt, Outcomes.antt,
--     Secured.antt and Timing.antt are about the contract with lwIP, the byte counts, the lifetime,
--     `write` and `connect`, the clients of a TLS server, and the clock.
--   * Server.antt: `AsyncServer`; Server/Lifecycle.antt and Server/Accepting.antt are about it.
--   * Tls.antt: the glue. Tls/State.antt has the session `tcp_ssl_pcb`, the list `tcp_ssl_pcbs` as a
--     list of sessions with addresses, and the engine as the parameter `Engine`. Tls/Registry.antt:
--     the list. Tls/Process.antt: `process_ssl_engine`. Tls/Io.antt: `tcp_ssl_write`,
--     `tcp_ssl_read`, `tcp_ssl_new_client`. Tls/Progress.antt, Tls/Delivery.antt, Tls/Writing.antt,
--     Tls/Registry/Freeing.antt and Tls/Registry/Making.antt are about them, Tls/Freed.antt about a
--     session that is freed in a callback, and Tls/Plaintext.antt, Tls/Plaintext/Loops.antt and
--     Tls/Plaintext/Reading.antt about the bytes that the engine decrypts, and Tls/Ciphertext.antt
--     and Tls/Ciphertext/Sending.antt about those that it encrypts. Tls/Suites.antt: the cipher
--     suites and the set-up of a client's context; Tls/Suites/Negotiated.antt: their order.
--     Tls/X509.antt: the callbacks of `br_x509_insecure_init`, over the parameters `Decoder` and
--     `Hashes`, and a whole run of them, `validate`; Tls/X509/Verdict.antt describes what it should
--     answer. Tls/Pem.antt: `parse_certificates`, over the parameter `PemDecoder`.
--     Tls/ServerContext.antt: `tcp_ssl_new_server_ctx`. Both count the blocks of the heap that are
--     in use, of which Tls/Pem/Memory.antt and Tls/ServerContext/Blocks.antt are an account.
--   * Buffer.antt: `AsyncTCPBuffer`. Buffer/Cbuf.antt and Buffer/Outlet.antt are its two interfaces:
--     the ring `cbuf` of the Arduino core, a parameter with the laws `IsQueue`, and the client, with
--     the laws `Accepts`. Buffer/State.antt has the members, the heap and the handlers.
--     Buffer/Transmit.antt: `write`, `_sendBuffer`, `flush`. Buffer/Transmit/Order.antt follows the
--     bytes through `_sendBuffer`, Buffer/Transmit/Chain.antt and Buffer/Transmit/Append.antt
--     through `write`, and Buffer/Transmit/Shrinking.antt and Buffer/Transmit/Flushing.antt through
--     `flush`; Buffer/Transmit/Solid.antt and Buffer/Transmit/Session.antt put calls of `write`
--     before a `flush`. Buffer/Receive.antt: the requests to read and `_handleRxBuffer`;
--     Buffer/Receive/Scanning.antt and Buffer/Receive/Delivery.antt say what a request is given.
--     Buffer/Packet.antt: `_rxData`; Buffer/Packet/Ends.antt: its loops; Buffer/Packet/Consumer.antt
--     and Buffer/Packet/InOrder.antt: the bytes that a data handler gets. Buffer/Lifecycle.antt:
--     construction with `_attachCallbacks`, `stop`, the destructor and what the callbacks that are
--     attached do (`on_event`).
--     Buffer/Overloads.antt: the overloads of `write` and `readBytes`. Buffer/OnClient.antt fills
--     the interface by an `AsyncClient` without TLS, and Buffer/Deleted.antt is about deleting a
--     buffer.
--   * Checks.antt: the theorems at concrete inputs, and runs of the definitions.
--
-- Bounds and fuel. The 32-bit counters and clock differences wrap around (`add32`, `sub32`); byte
-- counts and sizes are natural numbers. `process_ssl_engine` loops until the engine has nothing to
-- hand out: it runs on fuel, `Drains` bounds the engine's work by it, and each round takes a full
-- buffer from the engine. The copy loop of `tcp_ssl_read` runs on one round more than the packet has
-- bytes, since each round copies at least one; its feed loop has the source's own bound of 10.
-- The loop of `_sendBuffer` runs on fuel too, and two rounds are enough on a client that keeps
-- `Accepts`, since it cannot send again before an acknowledgement. The loop of `write` runs on two
-- rounds more than there are bytes, since each but the first takes a byte; the loop of `_rxData` on
-- the packet on one more than its bytes, and that on the ring on one. `flush` runs on one round more
-- than there are queued bytes, and its loop that waits on what bounds the delays until the client
-- wakes. The loop of `parse_certificates` runs on one round more than the text has bytes, and that of
-- `operator+=` on one for each client behind the one appended to.
--
-- Not modelled: lwIP, BearSSL and the Arduino core (parameters); log messages; the statistics of
-- debug builds; the sketches and scripts. The interface of the client to the buffer says that a
-- write calls nothing back, which is so for a client without TLS; a buffer on a TLS client is not
-- modelled, and neither is the panic of its construction on NULL. A string that `readStringUntil` fills is one that never runs out of memory.
-- Client/OverGlue.antt makes the upcalls of a call of the glue after that call, so it is for
-- handlers that do not call the glue in between.
pub mod Common
pub mod Lwip
pub mod Tracker
pub mod Client
pub mod Server
pub mod Tls
pub mod Buffer
pub mod Checks
