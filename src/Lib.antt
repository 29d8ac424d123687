-- ===== src/Lib.antt =====
-- Verification of shellinabox, a server that offers terminals to web browsers.
--
-- The program is one process around a loop over file descriptors (libhttp/server.c). Each HTTP
-- connection (libhttp/httpconnection.c) reads a request, decodes its URL and its form
-- (libhttp/url.c), and finds the handler of the path in a trie (libhttp/trie.c). Headers,
-- arguments and sessions are kept in hash maps (libhttp/hashmap.c). The daemon
-- (shellinabox/shellinaboxd.c) starts a child process at a pty for each session
-- (shellinabox/session.c), keeps its output until the browser polls for it, sends it as JSON, and
-- passes the browser's key codes to the pty.
--
-- Where to find what:
--
--   Base: tests on numbers and byte strings, lists with native lengths and indices, ASCII texts and
--   decimal numbers. A byte is a number below 256 and a C string the list of its bytes.
--   HashMap: libhttp/hashmap.c. `HashMap` is the struct, with a list of buckets (HashMap/Bucket).
--   `add_to_hash_map`, `delete_from_hash_map` and `get_ref_from_hash_map` are addToHashMap,
--   deleteFromHashMap and getRefFromHashMap; `grow` is the part of addToHashMap that makes the table
--   larger by adding every entry to a new one. HashMap/Iterate has iterateOverHashMap and
--   destroyHashMap. HashMap/Effects is a state with failure: a run stops at a failed check, at a
--   division by zero, where an int overflows, or where the fuel for nested calls ends, and records the
--   calls of the destructor. One call more than there are entries is enough fuel where the grown table
--   has room for the entries, as it has up to 818 keys; HashMap/Stages has the sizes and counts that
--   a table then goes through. HashMap/Table reads a table as a map from keys to values;
--   HashMap/Refines is about sequences of calls.
--   Trie: libhttp/trie.c. `add_to_trie` and `get_from_trie` are addToTrie and getFromTrie. The
--   C code's goto and its loops are two functions that call each other, on a node and on its
--   children. Trie/Shape has the invariant, Trie/Insert and Trie/Lookup say what the two functions
--   do to the keys a trie stands for, and Trie/Longest is the specification by longest prefixes.
--   Url: libhttp/url.c. `url_unescape`, `url_parse_query_string` and `url_parse_header_line` are
--   urlUnescape, urlParseQueryString and urlParseHeaderLine; a parser returns the pairs that it adds
--   to its hash map, in order. Url/Search has urlMemstr.
--   Payload: serverCollectFullPayload of libhttp/server.c, with its handler as a parameter, and the
--   payload with which serverCollectHandler begins.
--   Json: jsonEscape of shellinabox/shellinaboxd.c, with the loop that counts and the one that
--   writes.
--   Keys: the loop of dataHandler of shellinabox/shellinaboxd.c that decodes key codes.
--   Session: newSessionKey from its random bytes, addToGraveyard and checkGraveyardInternal of
--   shellinabox/session.c. A key's loop at the label drain takes six of at most 13 bits in each
--   round, and has as many rounds as bits.
--   Session/Find is findSession, on the model of the hash map.
--   Terminal: the life of a session in shellinabox/shellinaboxd.c. `complete_pending_request`,
--   `session_done`, `handle_session` and `poll` are completePendingRequest, sessionDone,
--   handleSession and the part of dataHandler behind the look-up of the session for a request that
--   has no keys. They return the session, the replies and what they tell the server. Terminal/Life
--   puts them together, one event after the other: a session's pty is served, a request polls or brings
--   keys, the connection of a request ends, or the graveyard is checked. Its `press` and `invalidate`
--   are the branch of dataHandler for keys and invalidatePendingHttpSession. Terminal/Delivery is about
--   any sequence of events.
--   Http: libhttp/httpconnection.c. Http/Line reads request and header lines; Http/Command is
--   httpHandleCommand up to the call of a handler; Http/Machine has httpFinishCommand, httpSetState,
--   the two switches on what a handler or callback answers, httpConsumePayload and the end of
--   httpTransfer; Http/Loop is the loop of httpHandleConnection over the bytes that have come in,
--   with httpParseCommand, httpParseHeaders and httpParsePayload. A line is a list of bytes, where
--   the C code has offsets into `partial` and the buffer: the input of the loop is `partial`
--   followed by the buffer, and what is pushed back is what has not been consumed (of bytes of
--   `partial` the C code copies these only if their number differs from partialLength). What
--   handlers and callbacks answer is a parameter: the n-th call gets the n-th answer. The loop has a
--   bound on its rounds; the theorem on its end says which bound is enough, and when none is.
--   Http/End has the end of the input and destroyHttpConnection, and Http/Idle the whole life of a
--   connection, one event after the other.
--   Http/Transfer has removeHeader and addHeader, with which httpTransfer changes the headers of a
--   reply when zlib has made its body smaller.
--   WebSocket: the frames that httpSendWebSocketTextMsg and httpSendWebSocketBinaryMsg of
--   libhttp/httpconnection.c send, and in WebSocket/Read httpHandleWebSocket, which the loop of
--   Http/Loop has as a parameter. `http_handle_web_socket` goes over the bytes of `partial` and then
--   over those of the buffer; two rounds for each byte and one more are enough, since a round takes
--   a byte or, behind binary data, makes the next one take one. WebSocket/Read/Stream is the
--   specification, byte by byte.
--   ExternalFile: externalFileHttpHandler of shellinabox/externalfile.c: `first_call` is the branch
--   without a state, `next_call` the one with a state, and `serve_rest` the calls that
--   httpHandleConnection makes as long as the reply is partial. What open and fstat give is an
--   argument, and so are the bytes of each read.
--   Service: initService of shellinabox/service.c, with parseUserArg and parseGroupArg of
--   shellinabox/privileges.c. A fatal error is `none`; the user and group databases are arguments.
--   Server: the table of connections of libhttp/server.c, as two lists, with serverAddConnection,
--   serverDeleteConnection and serverGetConnection, and of serverLoop the order in which it leaves the
--   table for poll(), the time to wait, and the end of a round. The entry of the listening socket is
--   left out, so that both lists begin with the first connection. `sort_fds` has as many rounds as
--   there are connections, and the inner loop as many as there are entries to be polled.
--   UserCss: initUserCSS and getUserCSSString of shellinabox/usercss.c. What a style sheet reads as is
--   an argument, and a fatal error `none`. The loop has one round more than there are bytes, where each
--   round takes at least a colon.
--   Tests: runs at concrete inputs, and an instance of each theorem that has hypotheses.
--
-- What stands for the system: memory is never short; what read() gives, the time, and random bytes
-- are arguments; output and calls of callbacks are lists in the order in which they happen. Values
-- in a hash map are opaque, NULL is `none` where the code tests for it. Sizes of buffers are natural
-- numbers: an int does not overflow below 2 ^ 31 bytes in one buffer, more than these buffers reach;
-- the hash map's sizes and counts, which do overflow, have their bound. Where the
-- code itself relies on the width of a word (the hash of a string, the bits of a session's key) the
-- remainder is written out.
--
-- Not modelled: multipart bodies, SSL on a connection, reading from and writing to its socket, log
-- lines, its timeouts and events, the text of most replies, zlib, what the server loop does between
-- poll() and the end of a round, the start of a session's child process, and the pages that the
-- daemon itself serves; the launcher, privileges, PAM and SSL, which are calls of the system or of
-- other libraries; and the JavaScript of the browser's side.
pub mod Base
pub mod ExternalFile
pub mod HashMap
pub mod Http
pub mod Json
pub mod Keys
pub mod Payload
pub mod Server
pub mod Service
pub mod Session
pub mod Terminal
pub mod Tests
pub mod Trie
pub mod Url
pub mod UserCss
pub mod WebSocket
