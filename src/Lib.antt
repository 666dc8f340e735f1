-- ===== src/Lib.antt =====
-- Verification of the Variables and Streams Server (VSS): a server for variables with dotted names,
-- which clients set, read, delete, lock and observe over a text protocol and over HTTP.
--
-- The parts of the program and their files:
-- * Storage models sources/services/storage: the tree in memory of ramcachedb.go, its dump file and
--   its load. Storage/Tree has the nodes and the descents of scrollTree, Storage the operations of
--   `RamCacheDB` (set, get, get_childs, has_value, delete_value), Storage/Dump the dump, the load and
--   the rounds of the background dumper. Path, Values, Wf, Deletion, Laws, Plain, Replay, RoundTrip,
--   Durability, Depth and Each hold the lemmas and theorems; Each has ForEachChilds, too.
--   Storage/Interface is the contract of istorage.go as a record of operations and laws, which the
--   tree fills; all that follows is a client of that record.
-- * VarHelper models sources/controller/controller_varhelper.go: values, flags and the lock of one
--   variable; VarHelper/Observers the numbered list of its observations. VarHelper/Internal is about
--   the names of internal nodes, VarHelper/Locking about the lock and VarHelper/Deadline about its
--   timeout. In VarHelper/Observers, Keys, Effects and Laws say what a write under one key does to the others, Spec has the operations on
--   plain lists, and Shifting, Refinement, Removal and Runs relate the two. Frames and Apart are about
--   what these changes and those below "internal" leave alone.
-- * ClientHelper models sources/controller/controller_clienthelper.go: what the database holds of a
--   client. ClientHelper/Keys and Paths have the keys and where they lead, Lists the loops over numbered
--   lists, Listed what it means that a list is held, Observing and Runs the variables that a client
--   observes, Clients the list of all clients; Frames and Apart are as for the observations.
-- * Controller models sources/controller/controller.go: SetVar with its checks (Controller,
--   Controller/Names, Controller/Setting), GetVars, DelVar, GetChildsOfVar, LockVar and their kin
--   (Controller/Reading, ReadBack, Parts, Fuel, Hiding, Unlocking), and which observations a change
--   reaches (Controller/Notifying, Reaching). `get_only` is misc.GetOnly. Controller/Clients has the
--   operations on clients (ObserveVar, StopObservingVar, ClientConnected, checkClientLiveTime,
--   deleteClient and the goroutines of a notification), Observing, Telling and Delivery are about them.
-- * Vstp models sources/services/apis/vstp/vstp.go: the lines of a connection (Vstp/Framing), the
--   syntax of messages (Vstp/Parsing), and the maps between ids and connections (Vstp/Clients,
--   Vstp/Sessions, Vstp/Owning). Vstp/Commands and Vstp/Processing have the commands of
--   processReceivedMessage over the controller and the lines that answer them; Answers, Exchange and
--   Waiting are about them.
-- * NamedLock models sources/misc/namedlock.go: the table of locks, and in NamedLock/Steps the goroutines
--   that are in NamedLockRun, which NamedLock/Exclusion is about.
-- * Confs models sources/misc/confs/confs.go, Confs/Sources the sources of sources/misc/confs/sources, and
--   Confs/Settling is about CreateConfig.
-- * Http models sources/services/apis/httpapi/httpapi.go: Http/Tree the tree of JSON values, Http the
--   answers and setJson, Http/Requests the handlers and the websockets. Http/Nesting is about insertNested,
--   Http/Setting about setJson. What encoding/json and strconv do with floating numbers is a parameter;
--   a handler that panics answers nothing.
-- * Logger models sources/misc/logger/logger.go and loggerutils/common.go: the texts that the writers
--   print, Log and the goroutine that passes messages on. Logger/Escaping is about EscapeString,
--   Logger/Queue about the messages. Package time is a parameter, and AnyToString's results are given.
-- * Base has the names that the modules share: tests on numbers, lists, bytes and texts, numbered lists
--   that are read entry by entry (Base/Reads), and decimal numbers as strconv and DynamicVar
--   (sources/misc/dynamicvar.go) read and print them.
--
-- How state and operations correspond. A text is the list of its bytes, and a DynamicVar its text. An
-- operation takes the state and returns the new one with its results; an error is a value. What the
-- program runs in a goroutine is a list of what is started (notifications, messages), and what runs
-- under one lock is one step. The lock of a variable is a flag in the database: Locking runs tries,
-- releases and ordinary writes in any order. A round of Lock finds how long its try and its sleep take and
-- what others do to the database meanwhile.
--
-- Bounds and fuel. A Go int is a number with a sign; a count is read back if it is at most 2^63 - 1,
-- which the theorems on lists of observations assume. Printing a number has fuel for more digits than
-- it has. The descent of GetVars has fuel; the depth of the database and two are enough. The
-- walk to the names above a changed one has the name's length as fuel, as each step shortens it. Lock has a
-- round for each millisecond up to its deadline, as a sleep takes a millisecond at least. White
-- space is that of ASCII; for other bytes strings.TrimSpace may differ.
--
-- The operations on clients take the answers of the APIs (NotifyClient, CheckAlive) and the time from a
-- `World`; the clock stands still within one operation.
--
-- Not modelled: the TCP server, the writers of the logger, and main: input and output. The order
-- of a range over a Go map is left open by Go; a list of children has some order here.
pub mod Base
pub mod Logger
pub mod Storage
pub mod VarHelper
pub mod ClientHelper
pub mod Controller
pub mod Vstp
pub mod NamedLock
pub mod Confs
pub mod Http
