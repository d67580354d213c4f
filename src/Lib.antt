-- ===== src/Lib.antt =====
-- goxdr compiles XDR and RPC descriptions to Go, and has a library for RPC over XDR. This
-- development models the library, the lexer and the symbols of the compiler, the templates of its code
-- for vectors, arrays, optional values, enums and unions, the JSON of the command gorpc,
-- and the package stat.
--
-- The parts and how they interact. Generated code carries a runtime (cmd/goxdr/header.go.in) that
-- marshals values to bytes. The package rpc builds messages with it: a client's `CallSet` gives a
-- call an XID and keeps it until its reply or its cancellation; a server's `RpcSrv` finds the
-- procedure for a call and prepares the reply header; `StreamTransport` sends and receives messages
-- as records on a stream. Calls and messages come from pools (xdr/arena.go, xdr/pool.go). A
-- `Driver` joins these by goroutines and channels. The command gorpc converts XDR values to JSON and back
-- by the traversals of generated code.
--
-- Which file models what. A module's name is that of its file.
--   Prelude            tests, lists and association lists over native numbers
--   Xdr/Fault          panics: an `XdrError` that `safeMarshal` catches, or any other
--   Xdr/Codec          cmd/goxdr/header.go.in: xdrPut32, xdrGet32, xdrReadPad and the rest; a reader
--                      is a function of the unread bytes of a bytes.Buffer
--   Xdr/Heap           the Go heap as allocators use it: addresses are numbers
--   Xdr/Arena          xdr/arena.go: Arena, Get, Recycle, contains
--   Xdr/Pool           xdr/pool.go: Pool, over the choices of sync.Pool
--   Xdr/ObjectPool     the interfaces CallPool and MessagePool as a record of operations and laws;
--                      the client modules take it as a parameter, and the arena and the pool fill it
--   Xdr/Vec            the vectors that gen_vec of cmd/goxdr/goxdr.go emits: SetVecLen, XdrMarshalN and
--                      XdrRecurse, for any element type
--   Xdr/Optional       the optional values that gen_ptr emits, and the arrays that gen_array emits
--   Xdr/Enum           String and Scan of the enums that cmd/goxdr/goxdr.go emits
--   Rpc/Header         rpc/rpc_msg.x and the union accessors that cmd/goxdr/goxdr.go emits
--   Rpc/Header/Wire    the marshalling of the header
--   Rpc/Status         rpc/util.go: SetStat, IsSuccess, GetMsg, Error
--   Rpc/Call           rpc/callpool.go and PendingCall
--   Rpc/CallSet        rpc/util.go: NewCall, Delete, Cancel, CancelAll, GetReply; a method holds the
--                      lock for its whole body, so it is a function from state to state
--   Rpc/Server         rpc/util.go: Register, GetProc
--   Rpc/Message        rpc/msg.go and rpc/msgpool.go
--   Rpc/Transport      rpc/transport.go: Send, Receive, fail; Rpc/Transport/Failing has `fail` as a
--                      step relation of goroutines that interleave
--   Rpc/Driver         rpc/driver.go: doMsg, safeSend and SendCall for one message, run by itself
--   Rpc/Driver/Loops   rpc/driver.go: the goroutines of ReceiveChan, SendChan, NewDriver and doMsgs, the
--                      senders in safeSend and the channels between them, as a step relation
--   Rpc/Driver/Calls   rpc/driver.go: goroutines in SendCall, and those that make their callbacks, as a
--                      step relation
--   Rpc/Context        rpc/driver.go: GetPeer, WithPeer, Detach and mkUnlocker
--   Rpc/Decode         rpc/decode.go
--   Rpc/File           rpc/filerpc.go: ReceiveFile and recvRpcMsg
--   Compiler/Lexer     cmd/goxdr/lex.go: the state and the tests of characters; Scan, Comments and
--                      Tokens below it have its methods
--   Compiler/Symbols   cmd/goxdr/syms.go, capitalize and xdrinline of cmd/goxdr/goxdr.go; below it Bound
--                      has get_bound, Boolean is_bool, and Scope scopeEnumTags
--   Gorpc/Names        cmd/gorpc/jsonxdr.go: HideFieldName, vField, isDigitSandwich
--   Gorpc/Hex          encoding/hex, as far as it is used
--   Gorpc/Values       XDR values and JSON documents
--   Gorpc/ToJson       cmd/gorpc/jsonxdr.go: jsonOut and XdrToJson, with the traversals of cmd/goxdr/goxdr.go
--   Gorpc/FromJson     cmd/gorpc/jsonxdr.go: jsonIn and JsonToXdr, with the same traversals
--   Gorpc/GoJson       cmd/gorpc/jsonxdr.go: marshalGo, aggregateGo and AnyToJson, over Go values as package
--                      reflect shows them
--   Gorpc/Documents    the text of a document, the document of a value of which nothing is hidden, and the
--                      values that are read back
--   Gorpc/Printing     the document that XdrToJson prints of a value, with hidden structs and unions, and
--                      the values that it prints
--   Stat               stat/counter.go and stat/latency.go: Counter, LatencyMeter and fmtDur
-- Below a module stand its laws, in modules named for what they are about; Tests has runs.
--
-- Fuel and bounds. `next_xid` has fuel for one XID more than there are pending calls. `segments` has
-- fuel for one segment more than there are bytes, `receive_loop` for one round more than the bytes on
-- the stream, the loops of the lexer for one round more than the bytes of the input, `get_bound`
-- for one round more than there are symbols, and `receive_file` for one message more than the file has
-- bytes; `is_bool` takes any number of rounds. That each is enough is shown, for the lexer on input
-- whose comments are closed, and for `receive_file` on files that Send wrote. XIDs and versions are
-- numbers modulo 2^32; lengths are `int`s that do not overflow. The hours of `fmtDur` are rounded as exact
-- numbers, which float64 keeps to below 2^11 hours.
--
-- Parameters. The choices of sync.Pool, procedures (`XdrProc`, `XdrSrv`) and the catalog, which are
-- generated code, the clock, and in Rpc/Driver what a select finds ready. A net.Conn is the chunks
-- that its reads return and where a write fails and with which error. For JSON the texts of numbers and enums, %q, and
-- what fmt.Sprint makes of a number that json.Unmarshal read; for the package stat the
-- operations of float64, and which way %.1f rounds a duration at half a tenth of an hour.
--
-- Not modelled: the parsing by json.Unmarshal; a value of a typedef has the name of its base type;
-- the code generator of cmd/goxdr but for what is named above, its grammar, the command line of
-- cmd/gorpc, and what only formats text (StatString, XdrPrint, Local, Remote, ID, log lines).
pub mod Prelude
pub mod Xdr
pub mod Rpc
pub mod Gorpc
pub mod Stat
pub mod Compiler
