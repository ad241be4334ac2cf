-- ===== src/Lib.antt =====
-- trolly: market-data and execution streams for Binance and other venues.
--
-- The parts of the program, and the files that model them:
--   * crates/binance-usdm-exec: a user-data payload is read (src/parse.rs, Usdm/Parse.antt), fanned
--     out into updates that are routed to the handlers of their symbols or of the account
--     (src/ingress.rs, Usdm/Ingress.antt), and applied to the handler's own state and to the
--     account book that all handlers share (src/types.rs, account.rs and handler.rs;
--     Usdm/Types.antt, Account.antt and Handler.antt). `route_update` finds the handler, `apply`
--     is the whole of `UsdmExecHandler::apply`, and the shared context goes through each call.
--     src/order.rs, auth.rs and egress.rs turn a strategy's commands into signed orders:
--     Usdm/Order.antt (`build_order_params`, `build_signed_form_params`), Usdm/Client.antt
--     (`place_order`) and Usdm/Egress.antt (`place_order_from_outbound`, the queue and the direct
--     egress). Exec/Http.antt has `parse_https_url` and `parse_http_response`, Exec/Transport.antt
--     the request around them, and Exec/Draining.antt the loop of `run_order_executor`.
--     Usdm/Endpoints.antt and Usdm/ListenKey.antt are src/endpoints.rs and src/listen_key.rs.
--   * crates/binance-spot-exec: the spot stream's events (src/events.rs, Spot/Events.antt), their
--     reading (src/parse.rs, Spot/Parse.antt), the account book with its decimal sums
--     (src/account.rs, Spot/Account.antt and Decimal.antt), and the handlers and their routing
--     (src/handler.rs, ingress.rs and lib.rs, Spot/Handler.antt). Spot orders are Spot/Auth.antt
--     (src/auth.rs), Spot/Order.antt, Client.antt and Transport.antt (src/order.rs) and Spot/Egress.antt
--     (src/egress.rs); URLs are in Spot/Endpoints.antt.
--   * crates/trolly-strategy: events, the traits `Strategy` and `StreamEgress` as records, and
--     the runtime (src/event.rs, egress.rs, strategy.rs, runtime.rs; Strategy/Event.antt,
--     Egress.antt and Runtime.antt).
--   * crates/trolly-stream: `MonitorMultiplexor` over any `EventHandler`, which is a record
--     (src/multiplexor.rs and handler.rs; Stream/Multiplexor.antt).
--   * src/monitor: the sources of `--sources` (mod.rs, Monitor/Source.antt), a live book
--     (order_book.rs and depth_parse.rs, Monitor/Book.antt) and the hub of merged books with the
--     registry that serves them (global_book.rs and src/servers/mod.rs, Monitor/Hub.antt). An
--     `Arc<ArcSwap<_>>` is an index into the hub's cells, so lane and registry share one cell. The
--     shards that tie a source's book to the hub are Monitor/Shard.antt: their books are one list
--     of write handles, a factory is an index into it, and each build and each message is one step.
--     Monitor/Config.antt has `validate` (depth.rs), Monitor/Grouping.antt the grouping of sources
--     by provider, Monitor/Venues the subscriptions (src/providers), and Cli.antt the order command.
--   * crates/trolly-gym: the ring of src/replay.rs (Gym/Ring.antt) and what is pushed on it
--     (Gym/Replay.antt), where `none` is a panic; actions, features and the window (src/action.rs,
--     observation.rs; Gym/Action.antt, Observation.antt); the environment (src/env.rs,
--     Gym/Env.antt); the training loop (src/train/rollout.rs and driver.rs, src/ppo/wolf_ppo.rs and
--     config.rs; Gym/Train/Rollout.antt, Gae.antt, Wolf.antt and Driver.antt); and the matrix games
--     (src/games, Gym/Games.antt).
--   * src/bin/aggregated_depth_tui.rs: tabs and keys (Tui/Tabs.antt), the reading of printed books
--     (Tui/Ladder.antt), and the cumulative and difference curves (Tui/Levels.antt).
-- Prelude.antt and its children hold what these share: maps, strings as code points, results,
-- lists and numbers. Examples.antt and its children apply the theorems to concrete inputs.
--
-- Loops are recursion on the list that they read; the ring's `collect`, `collect_steps` of a
-- rollout and `gae_loop` count their steps down, and `decimal` prints on fuel that is the number
-- itself plus one, which is more than its digits. Ports, update ids, the `i128` of a decimal
-- text, the step counts of the environment and the driver and the prefix hash keep their widths,
-- written out as bounds or as remainders; other numbers of the wire are only compared. A sum of
-- decimal texts past `i128` is a panic, as in a build that checks for overflow, and so is a slice
-- within a character; `none` is that panic from Spot/Decimal.antt up to the hub. The queue of an
-- executor is what it receives until its senders are gone, and each order reads the clock.
--
-- Parameters, for code that is not the repository's: serde_json (`Json`, `EventFormat`,
-- `DepthJson`, `Decoders`), websocket frames (`Frames`), floats (`Floats`, `Arithmetic`,
-- `Numbers`), the crates lob (`Lob`) and left_right (`LeftRight`), HMAC, the clock, the transport and
-- the TLS connection, the regular expression of a price level, the Unicode table of upper-case
-- letters, and the network, the optimizer and the losses of the training loop, which are tensors.
-- The laws they carry are those of their documentation. `LeftRight` says which copy absorbs
-- which operation, and when `sync_with` makes the second one; that both copies keep the same
-- update id is proved of the program's own `absorb_first` and `sync_with`, where `Lob` says that a
-- default book that is extended takes the other book's update id.
--
-- Not modelled: sockets, TLS, tasks and servers, the wait for a command or an event, the drawing
-- of the terminal UI and its snapshots, tensors, and logging. A mutex is taken to be unpoisoned,
-- and a stream's book is not dropped while the hub reads it. Files that no `mod` line of their
-- crate names are left out.
pub mod Prelude
pub mod Strategy
pub mod Exec
pub mod Usdm
pub mod Stream
pub mod Monitor
pub mod Gym
pub mod Tui
pub mod Cli
pub mod Spot
pub mod Examples
