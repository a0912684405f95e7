-- ===== src/Lib.antt =====
-- A verification library for muxr-core: muxrd, a gRPC server that relays terminal sessions of zellij
-- and herdr, and muxrctl, the terminal program that configures it and pairs phones with it.
--
-- The program's parts, and where they are modelled:
--
--   muxrctl/src/app (Ctl.antt). The application is one function, `update`, from a state and a message
--   to a new state and a list of effects, which the runner carries out and answers by messages.
--     Ctl/Screen, Ctl/Trust, Ctl/State   app/state.rs: `Screen`, `AdvertiseTrust`, `San` and the
--                                        records of the state, with the source's field names
--     Ctl/Message                        app/message.rs and app/action.rs
--     Ctl/Config, Ctl/Panels, Ctl/Tokens app/update.rs: `handle_config_key`, `config_save`,
--                                        `config_reload`; `handle_cert_key`, `handle_server_key`;
--                                        `handle_tokens_key`
--     Ctl/Sans                           `build_sans_from_config`
--     Ctl/Nav, Ctl/Poll, Ctl/Keys        `transition_to`, `on_enter_screen`, `handle_nav_keys`;
--                                        `handle_tick`, `check_overlay_connection`; `handle_key`
--     Ctl/Update                         `update`, and runs of messages
--     Ctl/Pairing                        tui/runner.rs and pairing/payload.rs: the task that answers a
--                                        request for a QR code; proofs in Ctl/Pairing/Answers
--     Ctl/Rules                          the rule by which a fact of all the handlers is proved once
--     Ctl/Permits, Ctl/OverlaySteps,     specifications, said without the code's own tests and updates:
--     Ctl/Candidates, Ctl/Dedup          when an effect may be asked for, the overlay as a state
--                                        machine, and the names of a certificate, each once
--     Ctl/Effects, Ctl/Quit, Ctl/Valid, Ctl/OverlayKeys, Ctl/Overlay, Ctl/Polling, Ctl/Secret,
--     Ctl/Address, Ctl/Names, Ctl/Navigation, Ctl/Typing
--                                        proofs, each named for its subject
--
--   muxrd/src/multiplexer/herdr (Herdr.antt). herdr names panes and tabs by strings and terminals by
--   sockets; the registries give them numbers, the client of its JSON socket uses them for layouts
--   and requests, and the wire module frames what its binary socket carries.
--     Herdr/Registry                     registry.rs: both registries; Herdr/Registry/Table, Panes,
--                                        Resolve and Tabs hold their proofs
--     Herdr/Types, Herdr/Wire            wire.rs: the messages, and the framing; proofs in
--                                        Herdr/Wire/Framing
--     Herdr/Api, Herdr/Control           api.rs and control.rs: the requests, and the client of the
--                                        JSON socket; Herdr/Layout is `query_layout`, with its proofs
--                                        in Herdr/Layout/Ids
--     Herdr/Backend                      backend.rs; what it asks of herdr is in Herdr/Backend/Asks and
--                                        Herdr/Backend/Requests
--
--   muxrd/src/client_count.rs (Clients.antt): `SessionClients` and `ClientGuard`; proofs in
--   Clients/Exact, Clients/Counts and Clients/Total.
--
--   muxrd's own decisions (Server.antt):
--     Server/Backends                    cli.rs, multiplexer/mod.rs and detect.rs: `BackendKind`,
--                                        `BackendSet`, `detect_backends`
--     Server/Routing                     multiplexer/routing.rs, with the guard of ipc.rs; proofs in
--                                        Server/Routing/Resolution
--     Server/Transport, Server/Settings  config.rs: `resolve_cert_source`, `check_h2c_bind_safety`;
--                                        `resolve`, `set_bind_addr`, `ensure_config_file`; proofs in
--                                        Server/Transport/Choice and Server/Settings/Saving
--     Server/Auth                        auth.rs: `check_bearer` and the layer's `call`; proofs in
--                                        Server/Auth/Access
--
--   muxrd/src/relay (Relay.antt): one relay for each attached client. A thread reads the session and
--   feeds the client, a task reads the client and drives the session, and both end together.
--     Mux, Mux/Ops                       multiplexer/types.rs and the operations of mod.rs: what every
--                                        backend speaks
--     Relay/Types                        types.rs: commands, view states and the registries' entries
--     Relay/Reader                       reader.rs: `render_loop`, `drain_queries`,
--                                        `capture_query_log`; proofs in Relay/Reader/Frames, History,
--                                        Answers and Straggler
--     Relay/Inbound, Relay/Inbound/Loop  inbound.rs: the arms of `inbound_loop`, its end, and the
--                                        `ShutdownGuard`; proofs in Relay/Inbound/Rules, ReadOnly,
--                                        Bounds, Replay, Tracked, View and Replies; Replay says
--                                        what a call means for a view without the code's updates
--     Relay/Attach                       mod.rs and helpers.rs: `attach_relay`; proofs on a whole
--                                        relay, from its attach to its end, in Relay/Attach/Life
--   The two meet in the queries that the task hands to the thread: Relay/Inbound/Replies shows how
--   they are handed over, which is what Relay/Reader/Answers supposes of them.
--
--   muxrd/src/grpc (Grpc.antt): the services, which send commands to relays and call backends.
--     Grpc/Control, Grpc/Checks          helpers.rs: `try_route_control`, `reject_if_read_only`, and
--                                        the checks of what a client supplies; proofs in
--                                        Grpc/Control/Targets and Grpc/Control/Prefix
--     Grpc/Requests                      the requests, and what a handler finds and does
--     Grpc/Handlers, Grpc/Spaces,        tab_ops.rs and pane_ops.rs; space_ops.rs; session_ops.rs
--     Grpc/Sessions
--     Grpc/Tokens                        token_ops.rs
--     Grpc/Services                      the services of tabs, panes, spaces and sessions as one
--                                        function; proofs in Grpc/Services/Gate, Passed, Sane and
--                                        LastSpace. Those of tokens stay in Grpc/Tokens
--     Grpc/Layout, Grpc/Listing          layout.rs, and the list of sessions of session_ops.rs; proofs
--                                        in Grpc/Layout/Own and Grpc/Listing/Resolve
--
--   muxrctl saves a bind address by `set_bind_addr`; what its form accepts is in Ctl/Address.
--
--   Rust.antt and what is below it are the parts of Rust's standard library that the source calls:
--   strings and their trimming, `rfind`, `parse::<u16>`, `parse::<IpAddr>`, `to_string` of addresses,
--   UTF-8 and slices of strings by bytes. Common.antt holds what all of it shares.
--
-- A handler that mutates the state is a function from the state to the new state and the effects. A
-- sequence of messages, of polls or of relays is a list, and a theorem about it holds for every list:
-- the tasks of the program run at once, but each message is handled whole, a registry operation holds
-- its lock from start to end, and each operation of a counter is one atomic step.
--
-- Numbers are naturals. The counters that the source lets wrap do so here: `tick_counter` modulo 2^32,
-- `qr_seq` and the client counters modulo 2^64, and a client count is cast to a `u32`; the id of a
-- pane stops at 2^32 - 1 and that of a tab at 2^64 - 1. Cursors are used below the length of a list
-- that is in memory, so `usize` has room for them. No definition needs fuel but the texts of a `u16`
-- and a `u64`, which have at most five and twenty digits: each other recurses on a list, a text or a
-- count. A loop of the relay is a fold over what comes to it, so it ends where that ends.
--
-- What is a parameter: bincode's payload format, as the record `Bincode`, with what decodes to what as
-- a hypothesis of the theorems on frames; the reader, as the bytes that come and how they end; TOML,
-- as the record `Toml`; base64; zellij's token database, as `TokenDb`, and its check of session names;
-- what a probe for a backend finds; which step of input and output fails; and what the facade of the
-- server tells the pairing task. Of the relay and the services: zellij's JSON, what a backend's call
-- returns, which calls a session takes, what comes to a `select!` and in which order, which channels
-- are open, how a wait for a reply ends, the token check of a tick, and the random connection id. Of
-- herdr: what its daemon answers, given how many requests were sent before.
--
-- Not modelled: drawing, the runner's loop and its other tasks, processes, files and sockets of both
-- programs; TLS; the calls of zellij, and the stream that an attach to herdr opens. A log line is not
-- modelled, so a panic in one, as Grpc/Control/Prefix shows for a prefix of an id, does not end a
-- handler of the model. Nor does a panic of the layout query that the task of a relay hands to the
-- blocking pool, which in the source drops the reply's channel: in the model that query returns a layout
-- or an error. Of key events the model keeps the code and the Ctrl key, which is all that the
-- source reads.
pub mod Common
pub mod Rust
pub mod Ctl
pub mod Herdr
pub mod Clients
pub mod Server
pub mod Mux
pub mod Relay
pub mod Grpc
