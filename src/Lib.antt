-- ===== src/Lib.antt =====
-- httpcapture records the HTTP traffic of a phone. A command line program, cli/*.go, starts and stops
-- recording sessions of a proxy (Charles or Proxify), serves an HTTPS control interface to paired
-- phones, and shows what was recorded in a browser. This library models the sessions, the processes
-- of the proxies, the device registry, the control server, the server that hands out a pairing, the
-- capture of bodies, the export of recorded files, the index of recorded traffic with its queries, and
-- the server of the browser with its focus rules and its live events.
--
-- Every operation is a function from a world to a result and a world (Effects). The world holds the
-- files that the program reads back (World): the active session, the metadata of each session
-- directory, the proxy's state file, the device registry and the files of traffic. An environment
-- (`Env` of World) gives what the program does not decide itself: the clock, which system calls fail
-- and how, which processes run, what Charles replies, and the libraries net/url, crypto/sha256 and
-- encoding/json. A write that fails either leaves the file as it was or leaves one that no reader
-- takes. Text is a list of bytes.
--
-- Parts:
--   Prelude    bytes, lists, integers and Boolean tests
--   Errors     the errors as values
--   Effects    runs with errors, and rules on what a run keeps, ensures and refuses
--   Paths      filepath.Join; Numbers: strconv; Flags: the parser of package flag
--   World      the files and the environment
--   Captured   the records of traffic, cli/proxy_proxify.go
--   Processes  the proxy's process, cli/proxy_proxify.go and cli/process_linux.go
--   Session    cli/main.go, cli/record_proxify.go and cli/session_manager.go: the two files of a
--              session (Session), recordStart (Start), recordStop (Stop), the files of traffic
--              (Extract), the Charles client (Charles) and the session manager (Manager); the
--              theorems stand in Session/Frames
--   Machine    the table of processes: the commands that start and stop the proxies (Proxify, Mitm),
--              cli/proxy_proxify.go and cli/proxy_mitm.go, and the proxy of a server (Serve),
--              cli/serve.go and cli/control_server.go; the theorems stand in Signals, Owned, Ended,
--              Stopped, Started and Launched
--   Devices    cli/control_devices.go
--   Control    cli/control_server.go: the handlers (Control), the routes (Serve), the pairing
--              download (Pairing), the arguments of a start (Arguments), and the replay of commands
--              (Replay, Once)
--   Capture    the bodies of the proxy's traffic, cli/proxy_proxify.go: the operations of
--              capturingReadCloser on a sequence of reads and calls of Close
--   Focus      the focus rules, cli/web_focus.go, and their condition, cli/web_index.go
--   Index      the index of recorded traffic, cli/web_incremental.go and cli/web_index.go: a row
--              (Row), the loop over lines (Scan), the cursor (Traffic); the theorems stand in
--              Split, Growth, Agreement, Refresh, Unchanged, Rounds and Records
--   Query      listRequests of cli/web_index.go: the SQL of a page of requests and its arguments, over
--              SQLite as a parameter; Conditions: the conditions in it; Words: the session ids and
--              the words of a search
--   Catalogue  rescan of cli/web_index.go over all session directories: what a directory shows
--              (Catalogue), the turns of the loop and the deletions (Rescan); the theorem stands in
--              Refinement
--   Details    one request, cli/web_index.go: read back from its file (Details), the bodies that are shown
--              (Display) and the pages (Page, with handleBody of cli/web.go); the theorems stand in
--              Readback and Display/Bounds
--   Markup     filterXML of cli/export.go over the tokens of a document: the loop (Markup), a
--              document as a tree and its filter by recursion (Tree), and that they agree (Agreement)
--   Recordings the command `export`, cli/export.go
--   Handout    the server of `pair`, cli/pairing_server.go, whose handlers run at the same time
--   Web        the server of the browser, cli/web.go, cli/web_focus.go and cli/web_index.go: deletion
--              and its helpers (Web), the routes (Routes); the theorems stand in Guards and Trash
--   Live       the live events, cli/web_live.go: the queries (Live) and the ticks of the handler (Handler);
--              the theorems stand in Ends, Delivery and Ticks
--   Lines      readJSONLine of cli/web_index.go
--   Export     incompleteCapturedPayload of cli/web_export.go; Export/Sessions:
--              selectWebExportSessions, less the sorted request ids that it also returns
--   Examples   the theorems at concrete inputs
--
-- A `Host` is a world, a table of processes and the signals that were sent; a `Machine` gives how long
-- a process runs after SIGTERM, whether it may be signalled, and what a started program does. The
-- waits for a process take a bounded number of looks, as many as their pauses fit into five seconds:
-- fifty tenths, and a hundred twentieths. The loop over pages of live events takes a page at most
-- for each id that is new (Live/Ends). All other loops run over lists, so no fuel is needed: the lines
-- of a file, the devices, the requests of a service, the events of a waiting command. Operations run
-- one after the other, as the locks of the source make them; only the handlers of the pairing server
-- (Handout) interleave, and other requests may change the database between the queries of the live
-- events.
--
-- Not modelled: printing, HTTP listeners, certificates, the pairing bundle, the lists of sessions and
-- requests as pages, the archive that a batch export writes, the mobile application and the user
-- interface. Catalogue models a rescan of the session directories; to the routes of the browser (Web)
-- and to the live events it is given by its result.
pub mod Capture
pub mod Captured
pub mod Catalogue
pub mod Conditions
pub mod Control
pub mod Details
pub mod Devices
pub mod Effects
pub mod Errors
pub mod Examples
pub mod Export
pub mod Flags
pub mod Focus
pub mod Handout
pub mod Index
pub mod Lines
pub mod Live
pub mod Machine
pub mod Markup
pub mod Numbers
pub mod Paths
pub mod Prelude
pub mod Processes
pub mod Query
pub mod Recordings
pub mod Session
pub mod Web
pub mod Words
pub mod World
