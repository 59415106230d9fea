-- ===== src/Lib.antt =====
-- CoLnk: a bridge that lends a client's file system, network and names to a server.
--
-- The client (cmd/colnk) dials the server (cmd/colnk-server) and keeps one connection, on which the
-- server opens a stream for each request. The server mounts a file system whose operations become file
-- requests, redirects TCP connections into TCP requests and answers names by DNS requests; the client
-- serves all of these under its own policy. This library models both programs from the Go sources.
--
-- What stands where:
-- - Common: Boolean tests, lists, texts, maps, integers, paths, addresses, errors. An error is a value
--   of one data type; code that changes a state and may fail is an `Io`, which keeps the state it
--   leaves.
-- - Protocol (pkg/protocol): messages (Types), frames (Frame: WriteJSON, ReadJSON), payloads (Payload:
--   encodePayload, decodePayload), requests and responses (Message), listing pages (Directory), and what
--   either end accepts of a handshake (Validate). Writers append to a list of bytes and may break;
--   readers consume one.
-- - Config (pkg/client/config.go, pkg/server/config.go, pkg/configvalidate): loading behind the TOML
--   decoder, and every check.
-- - Transport (pkg/transport): the server's end of the handshake (Accept: AcceptWhen) and the client's
--   (Dial), and both ends together (Handshake). A connection is what it still delivers and what was
--   written.
-- - Agent (pkg/agent): blocks of buffered writes (WriteBlock: pendingWriteBlock), the writes of a node
--   (WriteBack: bufferWrite, flushWritesLocked, deferMtime), what a change does to the caches (Changes:
--   invalidateChange, updateChangedAttr), the caches themselves (MetadataCache: metadataCache;
--   ReadBlockCache: readBlockCache), attributes and errors as the kernel sees them (Attributes:
--   pendingAttr, fillAttr, fuseError), link targets (Symlink), the table of nodes (Nodes: remoteFS.node,
--   Forget, renameNodes, removeNodes), the methods that the kernel calls (Files: Attr, Lookup,
--   ReadDirAll, Readlink; Files.Contents: Read, Write, Fsync, Flush; Files.Setattr; Files.Entries:
--   Mkdir, Create, Symlink, Remove, Rename; Files.Served: any of them, in any order), the calls to the
--   other end (Remote: File, ReadDir, OpenTCP, LookupDNS), the commands that set up the transparent
--   proxy (Network: runCommand and the code of firewall_linux.go; Network.Setup: start, stop,
--   SetupNetwork), and the resolver (Dns: ServeDNS). Agent.WriteBack.View is the abstract specification
--   of the buffering: a file is a function from offsets to bytes, and a reader of a node sees the file
--   of the other end under the dirty ranges of the node.
-- - Provider (pkg/provider): remote paths (RemotePath: cleanRemotePath), the file operations
--   (FileService: FileService.execute and Handle, its Names: openRegular, openParent, stat, its
--   Operations: read, write, create, rename and the others), listings (StreamDir: StreamDir), the policy
--   (NetworkPolicy: ParseNetworkPolicy, AllowTCP, AllowIP, AllowDNS), the handlers of network requests
--   (NetworkHandler: handleTCP, handleDNS), and the service around them (Service: NewService,
--   handleStream, handleFile up to its weight).
-- - Server (pkg/server): one session with its resources, and sessions side by side (Session:
--   serveSession, startDNS).
-- - Client (pkg/client/run.go): the sessions of the client one after the other, with their delays.
-- - Tests: runs at concrete inputs, and instances of the theorems.
--
-- How they interact: Agent.WriteBack calls the other end through a function on requests and changes the
-- caches through Agent.Changes; a method of Agent.Files runs it on the part of the file system that one
-- node sees, and calls the other end through the record RemoteCalls, whose functions Agent.Remote models
-- over Protocol.Message; the pages of Provider.StreamDir are what Agent.Remote reads; Server.Session
-- gives Transport.Accept its `admit`; the resolver of Agent.Dns and the handler of
-- Provider.NetworkHandler use one policy, whose text Protocol.Validate has checked.
--
-- Concurrency: code under a lock is one operation. readBlockCache.load releases its lock while the
-- loader runs, so it is two operations that others may separate; Agent.Files.Contents puts them together
-- for one caller, and takes what a caller that joins a flight gets as a parameter. Sessions and proxied
-- connections are step relations over such operations.
--
-- Parameters: encoding/json (Json, of which theorems assume that it passes on values whose texts are
-- valid UTF-8, as it does not for other texts), compress/flate (Flate), the text forms of addresses and
-- networks (Net), the TOML decoder, os.OpenRoot, the resolver of the system, yamux's start of a session,
-- the streams of a connection with what the other end answers, the other end of a call, os.Root with
-- os.File and the calls of the system (Os, of which a theorem assumes only how opening and closing
-- change the number of open files), the batches of a directory, the commands of the system (System, of
-- which theorems assume what a command adds, and what it has deleted where it succeeds; a command may
-- fail for any reason), readings of the clock. One reading stands for all readings of one call of the
-- kernel.
--
-- Numbers: lengths, offsets, times and counters are natural numbers; Go's int and int64 fields that may
-- be negative are integers without wrap-around. The uint64 counters of the caches wrap at 2 ^ 64, a
-- frame's length field at 2 ^ 32. Texts are bytes; ASCII stands for Unicode in ToLower and in trimming;
-- EqualFold is modelled with the two runes beyond ASCII that fold to letters of ASCII, so what relates
-- it to ToLower is about names of ASCII.
--
-- Fuel: the loops that end because a map or a list gets shorter run on fuel: the evictions of both
-- caches on the number of entries, EncodeDirEntryPages on the number of entries and one more, the loop
-- of bufferWrite and the loop of Read on the number of bytes, since each round takes at least one or is
-- the last; ReadDir on the number of bytes that arrive and one more, since each response takes some. The
-- loop of readlink has its ten rounds in the source. The loop of cleanupFirewall has one round for each
-- rule that leads to the chain and one more, and fails without rounds left. renameNodes runs over the
-- paths that the table has at its start. All other loops are structural.
--
-- Not modelled: the FUSE library, mounting and unmounting, yamux sessions and streams, the loop of the
-- listener, deadlines and contexts that end in the middle of a call, the copying of bytes between
-- connections, reading configuration files with their mode and owner, the text of an error in a file
-- response, audit lines, command lines. These are calls of libraries and of the system with little logic
-- between them.
pub mod Common
pub mod Protocol
pub mod Config
pub mod Transport
pub mod Agent
pub mod Provider
pub mod Server
pub mod Client
pub mod Tests
