-- ===== src/Lib.antt =====
-- MouseHero's server turns the events of a phone app into mouse, keyboard and power actions. These
-- modules model its C code and state what makes it correct.
--
-- The parts and how they interact: a connection of the session server gives a client in the client
-- table (server/src/ya_client_manager.c); frames from it, and datagrams of the command server, are
-- parsed to events (server/src/ya_event.c) and dispatched to handlers (server/src/ya_server_handler.c),
-- which check the command index against the client's, and move the mouse through the throttle and the
-- filter (ya_mouse_throttle.c, ya_mouse_filter.c), or drive the input facade (server/src/input).
--
--   Base      Shared names, Boolean tests, lists and integers over the native numbers.
--   Clients   server/src/ya_client_manager.c. The table is a list of 251 chains of nodes; a pointer is an
--             address. ya_client_create is `create`, ya_client_unref `unref`, and so on. Buckets and
--             Invariant: the table's shape; Lookup, Removal, Lifetime: what lookups and references see.
--   Throttle  server/src/ya_mouse_throttle.c. Motion: what goes in and out; Pacing: when.
--   Filter    server/src/ya_mouse_filter.c, over an interface of C's float operations.
--   Wire      server/src/ya_event.c. Framing, Header, Payload and Codec are its functions; Evbuffer and
--             Mpack are the interfaces of libevent's buffers and of the MessagePack library. RoundTrip,
--             Payloads and Survival: what survives the wire; Malformed: what does not.
--   Input     server/src/input/facade.c and, below it, keyboard/handler.c (Modifiers, Keyboard),
--             clipboard.c (Clipboard), mapper.c (Utf8, Keyboard) and server/src/keycode_map.c (KeyMap), in
--             the Linux build. The backend is a device with arbitrary answers and a log here,
--             and Backend is the code below it. Held: which modifiers are released; Restored: the clipboard
--             after a paste.
--   Handlers  server/src/ya_server_handler.c and ya_authorize.c: one function per handler, and Dispatch
--             for process_server_event. Replay, Admission, Grants, Pointer, Safety and Table are
--             about them.
--   Sessions  server/src/ya_server_session.c and udp_readcb of ya_server_command.c: the callbacks, over the
--             interfaces of Wire. Frames: from the bytes to the handler; Table, Closing and Served: the
--             client table, Served over runs of all callbacks; Unguarded: CONTROL datagrams.
--   Errors    server/src/ya_error.c. Stack: the bounded stack; Codes: the messages.
--   Config    server/src/ya_config.c. Lines and Text: what a line says; RoundTrip: save and parse; Lookup:
--             get and set; Bounds: the arrays.
--   Backend   server/src/input/backend/linux_uinput.c: each action as system calls, whose answers are
--             arbitrary. Keys: the key table; Emits, Held, Descriptor and Protocol are about them.
--   Xkb       server/src/input/backend/xkb_mapper.c, over what libxkbcommon says of a keymap. Cache,
--             Characters and Level3: the lookup; Lifetime: what g_xkb holds.
--   Server    server/src/ya_server.c with run_session_server, run_command_server, run_discovery_server
--             and run_http_server. Start: the states; Release: what is given back.
--   Http      server/src/ya_server_http.c. A handler writes tokens of MessagePack. Replies: the answers;
--             PostConfig: the configuration after a POST.
--   Logger    server/src/ya_logger.c. Files: the renames; Lines: the text of a line; Rotation and Window: the
--             log file and its backups as a list of texts.
--   Tests     Instances of the interfaces, and runs.
--
-- There is no fuel: every loop runs over a list. Machine integers wrap where the C types do (`% 2 ^ 32`);
-- where an `int` of the throttle overflows, which is undefined in C, its model is undefined too.
--
-- Not modelled: system calls, logs, locks and sleeps; the macOS and Windows branches; the paths and the
-- queries of the platform in ya_utils.c, the crash dump and run.c; the loop of the discovery
-- server, whose event is dispatched like any other; the MessagePack library, which is vendored; the Rust
-- library and the graphical front end. They do input and output, or are not C.
pub mod Base
pub mod Clients
pub mod Throttle
pub mod Filter
pub mod Wire
pub mod Input
pub mod Config
pub mod Errors
pub mod Backend
pub mod Xkb
pub mod Handlers
pub mod Sessions
pub mod Server
pub mod Http
pub mod Logger
mod Tests
