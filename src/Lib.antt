-- ===== src/Lib.antt =====
-- The shell of a TAU node: a daemon that runs a session of libTAU, serves JSON-RPC requests over
-- HTTP and stores what the session reports in an sqlite3 file. This library models the program's own
-- code and proves what its parts do. Paths are from the root of the repository.
--
-- A request comes in through the web server (src/rpc/webui.cpp), which asks its handlers in turn. The
-- one handler (src/handler/tau_handler.cpp) looks up the user (src/rpc/auth.cpp), reads the body, has
-- jsmn split it into tokens, and finds the method and its arguments by the lookups of
-- src/util/json_util.cpp, which write NULs into the text. A method calls the session, runs statements
-- (src/util/db_util.cpp) and appends to the response. The main loop (src/main.cpp) hands the alerts of
-- the session to src/handler/alert_handler.cpp, which runs statements too.
--
-- Fault, Program     how a call ends without returning, and programs that change a state
-- Memory, Text       bytes, pointers and C strings; the number formats of the C library
-- Json               skip_item, find_key, find_key_in_array, find_string, find_int and find_bool of
--                    src/util/json_util.cpp. A jsmntok_t* is the rest of the token array. The proofs
--                    are in Json.Skip, Json.Fields and Json.Within; Json.Flat is an object of
--                    strings and numbers, whose texts the lookups leave as they are
-- Hex                src/util/hex_util.cpp; the record Platform is libTAU's codec and the heap, and
--                    IsLawful what libTAU documents of it
-- Auth               src/rpc/auth.cpp with its groups, Auth.Header for parse_http_auth, Auth.File for
--                    save_accounts and load_accounts; Table is the std::map of accounts.
--                    Auth.Directory is what the operations promise, without hashes and order
-- Base64             src/util/base64.cpp
-- Db                 src/util/db_util.cpp: Friends, Messages, Chains, Queries, CreateSql for sql_process
--                    and Initial for sqlite_db_initial. The state is the list of statements that were run; the record Engine
--                    says what sqlite3 answers to a statement after these
-- Rpc                the handlers of src/handler/tau_handler.cpp, by subject: Service, Friends,
--                    Messages, Communities, Transactions, Queries. Session has their state (the text,
--                    the response, the calls of the session, the database), Args how they take
--                    arguments, Dispatch the table and handle_json_rpc. Args.Entries and
--                    Dispatch.Envelope read the arguments and the parts of a request one
--                    after the other
-- Http               handle_http of src/handler/tau_handler.cpp; Http.Transfer follows a request
--                    through all layers
-- Interleaving       requests and alerts in any order, as a step relation
-- Webui              src/rpc/webui.cpp and include/rpc/webui.hpp
-- Alerts             src/handler/alert_handler.cpp and the switch of src/main.cpp; Alerts.Loop is the
--                    main loop with the signal handlers
-- Startup            main of src/main.cpp: Options, Config, Seed, and Main, which composes them with
--                    the database, the web server and the main loop; Phases is the order of what it
--                    does outside
-- Escape             src/util/escape_json.cpp, which no other file calls
-- Tests              definitions on concrete inputs, and the properties applied to them
--
-- An out-of-range access, a NULL dereference, an uncaught exception or an object passed to a C format
-- is a Fault, which ends the process. Numbers are natural numbers or the integers of Prelude.Int; what
-- the source converts to 32 or 8 bits is converted by to_int32 and to_int8. Two recursions run on
-- fuel. skip_item starts with one more than the number of tokens, of which each call consumes one;
-- load_accounts with one more than the length of the file, of which each line consumes one byte at
-- least. The lookups and the main loop are structural: in the number of keys, and in the rounds.
--
-- The session of libTAU, sqlite3, Mongoose, jsmn, libb64, iconv, hashing and the heap are
-- parameters: what they answer is a function of what was asked. A lock makes an operation one
-- step. In Interleaving a request is one step too, and so is an alert, though the program has no
-- lock around them. What is printed to the log is not modelled. Not modelled are the copies of
-- other libraries: Mongoose (src/rpc/mongoose.c), jsmn (src/rpc/jsmn.c) and libb64
-- (src/util/cdecode.c).
mod Prelude
pub mod Fault
pub mod Memory
pub mod Json
pub mod Text
pub mod Program
pub mod Hex
pub mod Table
pub mod Auth
pub mod Base64
pub mod Db
pub mod Rpc
pub mod Alerts
pub mod Webui
pub mod Http
pub mod Interleaving
pub mod Escape
pub mod Startup
pub mod Tests
