-- ===== src/Lib.antt =====
-- RobotServer: a C server, built on libevent, for wearable devices and the phones bound to them. It
-- keeps mailboxes and positions in Redis and accounts in MySQL, and its replicas exchange files by
-- UDP multicast.
--
-- The files and the code that they model, from the repository's root:
--   Common      the shared names; Common/Tests the Boolean tests, Common/Lists the list lemmas,
--               Common/Int the integers and `signed char`, Common/Bytes memory as a function from
--               addresses to bytes, Common/Outcome results that are a value or a fault
--   Wire        the constants of ApolloProtocol.h
--   Util        ApolloUtil.c and ApolloUtil.h: Util/Hex for hextostring and STRINGTOHEX, Util/Fields
--               for Separation, Util/Scan for apollo_atoi and apollo_strcmp, Util/Paths for the
--               names of files
--   Log         dbg_printf and the time stamps of ApolloUtil.c
--   Decimal     `%d` of sprintf, and atoi, of the C library
--   Block       read_dat, write_dat, takeDataPacket and takeDataPacketFlag of ApolloUtil.c, and the
--               loop that sends a buffer in packets of 1024 bytes; Block/Frames and Block/Cut are
--               the proofs
--   Syner       ApolloSyner.c: ApolloSynerAction, which multicasts a file, and ApolloSyner, which
--               receives it; Syner/Receive, Syner/Transfer and Syner/Multicast are the proofs
--   Redis       ApolloRedis.c, over a Redis server that is a parameter; Redis/Service says what the
--               program relies on in it, Redis/Keys what the three functions then do
--   Host        what the packet handlers work on: the Redis server and the database (parameters), the
--               disk, the client's connection and block buffer, the started threads
--   Sql         ApolloSqlOperator.c, as built for libzdb, with the database a parameter;
--               the lists that main loads from the tables are Sql/Load, with Sql/Bindings for what they
--               leave in Redis, and Sql/Start for a command that follows
--   Pool        ApolloSqlOperator.c, as built with the program's own pool of connections, where the
--               MySQL client is a parameter; Pool/Take and Pool/Return are the proofs. Pool/Query is the
--               statements and lists of this build, in the type of Pool/Call, with Pool/Supply, Statements,
--               Leak and Lists the proofs
--   Protocol    ApolloProtocol.c: Protocol/Phone for checkPhoneCommand, phoneHeaderPacket and
--               phoneCommandPacket, Protocol/Device for deviceHeartPacket and deviceLocationPacket,
--               Protocol/User for phoneOperatorUserInfo, Protocol/Blocks for the block handlers,
--               Protocol/Parse for apolloParsePacket; the proofs are Protocol/Mailbox, Numbers and
--               Delivery (commands), Account, Upload, Download, Loop and Frame (its
--               bounds), and Arrival, Answers, Passage and Report (packets as they arrive)
--   Lbs         curljson.c: the base stations of a position packet, the request text, the search in
--               the answer; Lbs/Request, Lbs/Bounds and Lbs/Search are the proofs. Lbs/Answer is the
--               handler of the answer and the two threads, with Lbs/Location and
--               Lbs/Position the proofs, and Lbs/Matcher kmp_matcher
--   Ublox       ubloxDownloadApgs of anolclient_china.c; Ublox/Fetch and Ublox/Spread are the
--               proofs
--   WorkQueue   workqueue.c: the job list, and the workers as a step relation; WorkQueue/Locked and
--               WorkQueue/Jobs are the proofs
--   Server      server.c: on_accept, the callbacks and the job of a connection, and, in Server/Run,
--               runServer and killServer; Server/Release, Acquire, Accept, Serve and Start are the
--               proofs; Server/Sessions, Several, Untouched and Interleaved those on several clients at once
--   Sync        SyncDataToRedis.c: the worker that copies users and relationships to Redis; Sync/Quotes
--               and Sync/Rows are the proofs
--   SynerAction ApolloSynerAction.c: the multicast of a file as a program of its own
--   Handlers    DesignPattern/concreteHandle.c: the chain of handlers; Handlers/Chain is the proof
--   Observer    DesignPattern/Observer.c: subjects and observers in a heap; Observer/Lists, Notify,
--               Delete, Actions and Behaviour are the proofs
--
-- The handlers meet in Redis: phoneCommandPacket stores a command under the id of the device that is
-- bound to the phone, deviceHeartPacket reads and deletes it, and stores the state of the device under
-- the id of its user, where phoneHeaderPacket reads it. The bindings of phones and devices come from the
-- database: main loads them, and the worker of SyncDataToRedis.c adds to them. on_accept queues a job for
-- each connection, in which apolloParsePacket runs on the bytes that arrive. The thread of the position
-- service and that of the satellite data are started from a position packet; the latter puts a command
-- into Redis, too, and its file is multicast.
--
-- A C string is the list of its bytes before the terminator, and `char` is signed. An access outside
-- an object, a null pointer that is read and a signed overflow are the outcome `fault`; a copy into
-- an array of known size checks that size. At two places the code always
-- writes past a member of a struct into the next one, and these writes are modelled where they land: the
-- memset of a BlockBuffer's packet goes on into its index (clear_packet), and the zero behind u8Latitude
-- of a LocationInfo into its u8TimeStamp (store_position, on the 49 bytes of the struct); the long that
-- is read there ends one byte behind the struct, and this byte, in the memory that malloc gave, is an
-- argument. The disk is the files that `fopen` can open, with their
-- contents, and the paths at which it can create one. The sockets are the environment: whether
-- `socket` and `bind` succeed, and the datagrams that arrive, are arguments. Loops over a buffer are
-- structural, or run on as many rounds as the buffer has bytes, of which each round uses one at
-- least; the loop of apolloParsePacket runs on as many rounds as its input has bytes. `print_nat` has
-- fuel for 20 digits, more than any integer type of the program needs.
--
-- The loops over the list of observers have fuel, and count as a fault when it is used up, so that a
-- theorem that they return says that the fuel is enough; the fuel that is needed is in the theorem. The
-- loop that waits for a connection of the pool has the answers of each round as an argument, and a call
-- that waits behind them is blocked.
-- What is open or allocated in server.c is written down kind by kind, and a second close or free is a
-- fault. A parameter stands for libevent, MySQL, libcurl, the JSON library and the u-blox client: its
-- answers are arguments.
--
-- Not modelled: ubx.h and the u-blox client of anolclient_china.c (third-party code); the name of
-- the log file; what other threads do to Redis, the disk and the server while a handler or a job runs;
-- and, of the pool's statements, what other threads take from the pool while one waits.
pub mod Common
pub mod Wire
pub mod Ublox
pub mod Util
pub mod Decimal
pub mod Redis
pub mod Block
pub mod Sync
pub mod SynerAction
pub mod Syner
pub mod Host
pub mod Server
pub mod Log
pub mod Observer
pub mod Pool
pub mod Sql
pub mod Protocol
pub mod Lbs
pub mod WorkQueue
pub mod Handlers
