-- ===== src/Lib.antt =====
-- libnavajo, an HTTP and WebSocket server library in C++: a model of its core logic.
--
-- The server (src/WebServer.cc) reads requests; it decodes the credentials of a request with base64,
-- parses parameters and cookies, feeds the body of a form to the multipart parser, keeps sessions
-- between requests, and hands a connection that is upgraded to a WebSocket client, whose two threads
-- receive and send frames.
--
-- Bytes are natural numbers below 256, texts (`std::string`, `char *`) are lists of them, and a
-- `std::map` is an association list in the order of its keys. Pointers are numbers, 0 is null.
--
-- Base: what the parts share. Tests has the Boolean tests; ByteStrings texts and their searches;
-- Words laws of bit operations; Dict `std::map` over any strict weak order; Keys texts as keys; Totals
-- sums over a map.
--
-- Base64 (src/WebServer.cc, include/libnavajo/WebServer.hh): `base64_encode`, `base64_decode` and
-- `is_base64`. Digits is about the arithmetic of the groups, RoundTrip about both directions.
--
-- Address (include/libnavajo/IpAddress.hh): equality and order of `IpAddress`; ByteOrder and
-- Order are about maps that are kept by it. Texts has the constructors, the assignments, the texts and the names of
-- hosts. Networks models `IpNetwork`, on a machine that stores the lowest byte of a number first, with
-- Networks/Inside and Networks/Masks on which bits are compared (Octets and Swapping are about the words);
-- the calls of the resolver are parameters.
--
-- Auth (src/WebServer.cc): `isUserAllowed`, `isTokenAllowed`, `isAuthorizedDN` and the histories. Users
-- and Tokens are about their answers; the callbacks for tokens are parameters.
--
-- Mpfd (src/MPFDParser, include/MPFDParser): the multipart parser. Exceptions is the monad of its
-- methods; TempFiles and Field model `MPFD::Field` (TempFiles/Search the search for the name of a
-- temporary file, Field/Accept `AcceptSomeData`); Headers and Parser model `MPFD::Parser`, with
-- Headers/Frame on what the headers leave alone, Parser/Steps, Parser/Measure and Parser/Rounds on the rounds of
-- `_ProcessData`, Parser/Progress on its end, and Parser/Content and
-- Parser/ContentEnd on the text that a field gets.
-- `_ProcessData` runs on fuel of twice the length of the collector and two, the search for a temporary
-- file on one more than the number of the files, and a decimal number on one more than itself; each
-- round consumes a part of the collector or starts a search that does, each search passes a file, and a
-- number has fewer digits than its value. Which paths can be created is a parameter.
--
-- Request (include/libnavajo/HttpRequest.hh): Percent is the first loop of `decodParams`, with
-- Percent/Encoding on the encoding of forms; Parameters its second loop, with Parameters/Adding on one
-- parameter and Parameters/Values on keys that come several times; Cookies is `decodCookies`, with Pairs on a cookie as browsers write it; Sid
-- is about `getSession`. Client has the method and the data of the connection, Fields the methods that
-- read or put a field.
--
-- Session (include/libnavajo/HttpSession.hh): the static store of `HttpSession`. Release is how an
-- attribute is freed; Calls has the calls as data; Touching, WellFormed, Ownership, Expiry and Lookup
-- are about what the calls keep, Runs about sequences of calls. Each call
-- is one step; the values of `rand` and `time` are inputs.
--
-- WebSocket (src/WebSocketClient.cc, include/libnavajo/WebSocketClient.hh): Bits has masks and network
-- order (include/libnavajo/htonll.h). Receiving models `receivingThread`: Receivers its variables and
-- the header of a frame, Pieces the reading of the socket, Loop its loop on fuel (two rounds for a byte and two more, as a round that
-- reads nothing is followed by one that reads a byte; Bounds and Ends are about it), Runs, Rounds,
-- Headers and Frames the decoding of a frame, Empty that of a frame without content, Parts and Messages
-- that of a message; Endpoints has its parameters, which are malloc, zlib and the handlers.
-- Sending models `sendMessage`, the queue and `sendingThread`, with Frames on what is sent and Queue on
-- the order. Closing models the closing by three threads as steps of a shared state, with States and
-- Sound on its states. Clients (include/libnavajo/WebSocket.hh) models
-- the list of clients, the broadcasts and the settings, with Listing on where a client is.
--
-- Server (src/WebServer.cc): Stream models `recvLine`, `recvBytes` and the read-ahead buffers, where a
-- socket is the list of what the coming calls of `recv` find; Pieces, Lines, Bodies and Reads are about
-- the stream that they read. The loop of `recvLine` runs on fuel of the size of its destination, that of
-- `recvBytes` on the bytes that are asked for: each round has a byte at least. Text has `trim`,
-- `addExtraHeader` and C strings, with Text/Numbers on `atoi` and written lengths. Request
-- models the header of a request in `accept_request`: Url the request line and the decoding of the URL
-- (Url/Bounds on its buffer), Line a line of the header, Headers the loop over the lines, on fuel of
-- one round more than the stream has bytes, with Streams, Credentials and Authorisation on how it ends.
-- Body reads the content of a request, on fuel of one round more than it has bytes, with Body/Expected and
-- Body/Ends on how that ends; which sizes the memory fits is a parameter. Sending models `httpSend` and
-- `httpSend2`, where the coming calls of `send` and `select` are an input.
-- Answering models what `accept_request` does with a request whose header is read: the checks, the
-- upgrade to a WebSocket, the search in the repositories (Looking, on fuel for the forwards), what is
-- sent for a page (Encodings) and which memory is given back (Releases). Handling is one round of its
-- loop, from the socket to the answer, and Connections the loop, which runs on as many rounds as a
-- connection has queries, 25; Connections/Ends shows that they are enough. Whether an answer can be
-- sent is an input.
-- Queue models the queue of clients that the listening thread fills and the pool empties, as steps under
-- its mutex, with Served on their order.
-- The connection is not encrypted; what stands in the line's buffer behind its final zero is not
-- modelled.
--
-- Response (include/libnavajo/HttpResponse.hh): the response object, with ReturnCodes, the table of
-- messages, and Status on the calls that set the code. Headers (src/WebServer.cc) models
-- `getHttpHeader`, `getHttpWebSocketHeader` and the messages of errors (Headers/Messages), with
-- Headers/Reading, Headers/Lines and Headers/RoundTrip on a client that reads them; MimeTypes models
-- `get_mime_type`. Pages (include/libnavajo/DynamicPage.hh) has the helpers for pages. The texts of dates
-- and SHA1 are parameters.
--
-- Repository: Local (src/LocalRepository.cc) models the scan of a directory, which is an input, and the
-- files that URLs open; Paths and Served are about which ones. Dynamic
-- (include/libnavajo/DynamicRepository.hh) keeps pages with their owners and a record of the pages that
-- it deleted, with Ownership on that record; Precompiled (include/libnavajo/PrecompiledRepository.hh)
-- has pages that were compiled in. Each call is one step under the lock; what a page answers is a
-- parameter.
--
-- Logs (src/LogRecorder.cc, include/libnavajo/LogRecorder.hh): the entries that outputs are given, and
-- the messages that are logged once. Outputs (src/LogFile.cc, src/LogStdOutput.cc, src/LogSyslog.cc)
-- tells which text goes where. The text of the date and what `vsnprintf` writes are inputs.
--
-- Not modelled: system calls, TLS, the start of the server and its settings, zlib and the buffers around
-- it (include/libnavajo/nvjGzip.h), sockets and threads (include/libnavajo/nvjSocket.h,
-- include/libnavajo/nvjThread.h), and the generator of compiled pages (src/navajoPrecompiler.cc).
pub mod Base
pub mod Address
pub mod Auth
pub mod Base64
pub mod Mpfd
pub mod Repository
pub mod Logs
pub mod Request
pub mod Response
pub mod Server
pub mod Session
pub mod WebSocket
