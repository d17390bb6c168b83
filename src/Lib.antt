-- ===== src/Lib.antt =====
-- Pink, a network library for servers and clients that speak the Redis protocol, length-prefixed messages or
-- HTTP: the parts that decide, without the system calls.
--
-- A connection thread reads bytes from a socket and gives them to a protocol object. `RedisParser` cuts
-- them into commands and calls back `DealMessage` for each and `Complete` for those of one read;
-- `PbConn` cuts them into messages and queues the replies; `HTTPConn` reads requests and writes responses
-- through the handles of its user. The clients `PbCli` and `RedisCli` send requests and wait for the replies,
-- on the calls of `PinkCli`. `PubSubThread` keeps the
-- tables of subscriptions and owns the connections that are in one. `BGThread` and `ThreadPool` run tasks that
-- other threads schedule.
--
-- Files and code:
--   Redis/Chars, Redis/Args      pink/src/redis_parser.cc: HexDigitToInt32, split2args. The text is a list of
--                                bytes, behind whose end stand zeros.
--   Redis/State, Redis/Parser    pink/include/redis_parser.h, pink/src/redis_parser.cc: RedisParser, a record; its
--                                methods are functions of the same names. The rest of input_buf_ from
--                                cur_pos_ on is the field `input`. A method that throws or fails an assertion is a result of its own.
--   Redis/Serialize              pink/src/redis_cli.cc: redisFormatCommandArgv. An int is its unsigned value of 32 bits.
--   Redis/Request, Redis/Reply   pink/src/redis_cli.cc: RedisCli, Send and Recv with all that Recv calls. The bytes at
--                                rbuf_pos_ are a list whose length is rbuf_offset_; ints are unsigned numbers of 32 bits. Where the code
--                                throws, or takes bytes that have not come, the model stops with a status of its own.
--   Redis/Reply/*                the proofs about these.
--   Redis/Args/Words, Redis/Parser/*, Redis/Serialize/Decimal, Redis/Stream/*   the proofs about these.
--   PubSub, PubSub/Tables        pink/src/pink_pubsub.cc: the tables, Subscribe, UnSubscribe, the moves and the counts. A connection is a
--                                number, with a function to its file descriptor; calls of the epoll object are logged.
--   PubSub/Publish               pink/src/pink_pubsub.cc: ConstructPublishResp, with the reader of Redis/Reply.
--   PubSub/Delivery              pink/src/pink_pubsub.cc: the delivery of a message in ThreadMain, with the reference into a vector
--                                that MoveConnOut erases from.
--   PubSub/Once, PubSub/Kept, PubSub/Counts, PubSub/Removal, PubSub/General   the proofs about these.
--   Pb/Frame, Pb/Conn, Pb/Reply  pink/src/pb_conn.cc: GetRequest, SendReply, WriteResp and what they call.
--   Pb/Framing, Pb/Sending, Pb/Overflow   the proofs about these.
--   Redis/Conn, Redis/Conn/Room  pink/src/redis_conn.cc: GetRequest and TryResizeBuffer of RedisConn, and the proofs about its buffer; Redis/Conn/Setup has its constructor and callbacks.
--   Redis/Conn/Reply             pink/src/redis_conn.cc: SendReply with writev, and WriteResp; an iovec is the list of what is left of
--                                each item. Redis/Conn/Reply/Sending is the proof.
--   Pb/Resize, Pb/Client         pink/src/pb_conn.cc: TryResizeBuffer; pink/src/pb_cli.cc: Send and Recv.
--   Cli                          pink/src/pink_cli.cc: SendRaw and RecvRaw; Cli/Sending and Cli/Receiving are the proofs, the latter
--                                with Pb/Client on top.
--   Http/Fields, Http/Head, Http/Query, Http/Request, Http/Reading   pink/src/http_conn.cc: HTTPRequest. A std::map is a sorted list; rbuf_ up
--                                to rbuf_pos_ is a list of bytes.
--   Http/Response, Http/Response/Codes   pink/src/http_conn.cc: HTTPResponse and SendReply. The buf_len_ bytes at wbuf_pos_ are a list.
--   Http/Head/*, Http/Query/Pieces, Http/Request/Parsed, Http/Reading/*, Http/Response/Filling, Http/Response/Sending   the proofs about these.
--   Workers                      pink/src/worker_thread.cc and pink/src/dispatch_thread.cc: the tables of connections, without
--                                the event loop. A map is a list, and PinkEpoll::Register a log.
--   Workers/Cron, Workers/Rounds   the proofs about these.
--   Tasks                        pink/src/bg_thread.cc: BGThread, and pink/src/thread_pool.cc: TaskQueue. One function for each
--                                critical section of `mu_`.
--   Tasks/Ledger                 any order of critical sections, and a ledger of tasks.
--   Tasks/Effects, Tasks/Kept, Tasks/Drain   the proofs about these.
--   Base                         numbers, lists and tests.
--
-- Outside code is a parameter: `string2l`, `stringmatchlen`, `StringToLower`, `std::stoul`, `read`, `send`, `write`,
-- `realloc`, `easy_writev`, the callbacks and handles, `std::priority_queue`. What a proof relies on is a hypothesis with a
-- name: `ReadsDecimals`, `ReadLaw`, `CountLaw`, `StreamLaw`, `WriteLaw`, `SendLaw`, `WritevLaw`, `FillLaw`, `RecvLaw`, `TopLaw`.
--
-- Bounds and fuel: a `long` is an integer and a length at most what the hypotheses say; `uint32_t` and `size_t` keep
-- their wrap-around where the code can reach it. The loops over commands and bulks of the parser have the
-- length of the input as fuel, since each turn takes a byte; the loop of GetRequest has three turns, since each
-- moves to a later state; the loops of SendReply have the number of items and of bytes; the digits of a number have the number.
-- The loops on sockets have a bound of the bytes and interruptions that are to come as fuel, since each round
-- takes one of them; each theorem about them says that they end.
--
-- Not modelled: PrintCurrentStatus, which prints; Connect and the timeouts of the clients, epoll, sockets and
-- pthread, which are calls of the system; the branches for SSL; not yet, the rest of ThreadMain and Publish of PubSubThread,
-- redisvFormatCommand, the simple HTTP connection, and the event loops of
-- the server, worker, holy, client and backend threads.
pub mod Base
pub mod Cli
pub mod Http
pub mod Pb
pub mod PubSub
pub mod Redis
pub mod Tasks
pub mod Workers
