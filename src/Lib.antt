-- ===== src/Lib.antt =====
-- Verification of the Rust parts of SIPI: a IIIF image server whose HTTP shell classifies and parses
-- requests, admits them to two lanes of work, caches access decisions and checks paths.
--
-- The parts, and the files that model them:
-- Iiif: the parser of request paths (src/iiifparser/rust). Iiif/Domain has the enums and the
-- parameters of domain.rs. Iiif/Grammar has the consumers and validators of parse.rs (consume_posint,
-- consume_posfloat, is_valid_region, is_valid_size, is_valid_rotation, is_valid_qualform), and
-- Iiif/Grammar/Forms states the grammar on its own, by printing. Iiif/Params has the parsers of
-- parse.rs (parse_region, parse_size, parse_rotation, parse_quality_format, parse_iiif_params).
-- Iiif/Request has tokenize, build_prefix_strict and parse_request of request.rs; the branches of
-- parse_request are functions of their own (as_image, under_identifier, as_redirect).
-- Admission: the two-lane pool (src/throttling/rust/lib.rs). Admission/Pool has the configuration,
-- the pool and Admission::new; Admission/Classify has classify and record_classification, which read
-- what the parser emits; Admission/Lanes has acquire and the drop of a permit, and
-- Admission/Snapshot the snapshot. A try on a semaphore, a look at a counter and a change of
-- a counter are steps of their own; a timeout, a closed semaphore or a cancelled call is one step, with the release
-- of a permit, the counter and the guard that follow it. A run is any list of steps of any number of requests.
-- Preflight: the cache of access decisions (src/server-rs/src/preflight_cache.rs): make_key, new, get
-- and insert, with the three process-wide counters in the state.
-- Paths: the checks of request paths (src/server-rs/src/path.rs).
-- Info: the documents (src/server-rs/src/info.rs): the pyramid, pyramid_scale_factors and sizes_for;
-- Info/Documents has info.json, Info/Knora knora.json and the sidecar, Info/Auth the authentication service.
-- Http: the header map of a response, an interface. Sink: the response sink (src/server-rs/src/sink.rs), its
-- callbacks, stream_file_region and serve_streaming, with the engine as a program of callbacks.
-- Access: the access decision (iiif_access, file_access and resolve of src/server-rs/src/routes.rs), which asks
-- the hook through the preflight cache. Replies: the header helpers and small responses of routes.rs.
-- Serve: the handler iiif and dispatch_engine of routes.rs. Its checks are Serve.checked, what it does for a
-- request is a value of Action, and Serve/Calls performs it: serve_image, serve_file, serve_info_json,
-- serve_knora_json. Serve/Handler puts them together; Serve/Conveyed says what a response conveys.
-- Config: the overrides of the configuration (src/server-rs/src/config.rs): ServerOverrides, layered_over
-- and the debug output, with f64 as a type; Config.Lua has from_lua_config.
-- Ranges and Docroot: the file server (serve_docroot, serve_static_blocking, parse_byte_range and their
-- helpers of routes.rs); Docroot.Handler has the handler.
-- ConfigFile: the TOML file (src/server-rs/src/config_file.rs): its sections, base, resolve, and
-- compose_script_path; the read of the file and the TOML parser are parameters of load.
-- Routing: the routes of a Lua configuration (read_routes of src/scripting/rust/entry.rs), their entries and
-- their registration in the router (src/server-rs/src/lib.rs).
-- Settings: the reading of a Lua configuration file (read_config of entry.rs), from what its virtual machine
-- holds.
-- Runtime: the compiled chunks of scripts and the modules they require (src/scripting/rust/runtime.rs), one
-- load after another. Limits: the limits of a run (limits.rs), and run of runtime.rs as classify_run.
-- Elua: .elua files (run_elua of entry.rs), as programs of the writer, and which script a route runs, by the
-- extension of its path.
-- Bindings: functions that scripts call (src/scripting/rust/bindings/server.rs): print, the headers and the
-- cookies; Bindings/Requests has require_auth, the uploads and the MIME checks, Bindings/Mimes
-- parse_mimetype, Bindings/Files server.fs, Bindings/Json the conversions between tables and JSON,
-- Bindings/Uuids the UUIDs, Bindings/Tokens tokens and the log, and Bindings/Outbound server.http.
-- Bindings/Images has the writes of src/scripting/rust/bindings/image.rs, and Bindings/Images/Operations its
-- other methods that change an image. Texts are taken as UTF-8; the file system, the decoder of base 64, the
-- library of tokens, the HTTP client, the handles of images, the sniffer of MIME types and the pairs of a Lua
-- table are parameters.
-- Scripts: what Lua scripts write (src/scripting/rust/bindings/mod.rs and entry.rs): the response writer, a
-- script as any program of its calls, Scripts/Hook with run_hook, and Scripts/Route with run_route and
-- run_lua_route_blocking of routes.rs.
-- Uuid: the two forms of UUIDs (src/scripting/rust/bindings/helpers.rs), with 11 rounds for the digits of
-- a half, as 62 ^ 11 is above 2 ^ 64.
-- Common: what they share: Boolean tests, lists and texts over the native numbers, and results.
--
-- A text is the list of its bytes. Machine integers are natural numbers; the counters wrap at 2 ^ 64,
-- and saturating products stop there. The loops of the cache run over the four probes, those of the parser
-- over the text; the loop of the pyramid's levels has fuel for 33 rounds, as a dimension is below 2 ^ 32, and that of an
-- .elua file has one round more than the file has bytes.
--
-- Parameters stand for what is not this code: f32 and f64 with the operations used (Floats, Ratios), the
-- percent decoder, the hash of a cache key, the realpath of the operating system, and tokio's semaphore,
-- of which three laws are assumed (Semaphore in Admission/Pool). A semaphore's queue is not modelled: a
-- parked request may get a permit whenever one is free, so that what is proved holds in any order.
--
-- The C++ engine is the parameter Seam: what a call of it does is a program of callbacks, of any shape. The
-- hooks are functions of the request. In the sink, a client leaves after any number of observations, and the
-- reads of a file answer what a list of rounds says and fail after it. Whether the pool admits a request is a
-- Boolean of the handler, as Admission models the pool itself.
--
-- Not modelled: the reading of a Lua route's body, and the Lua virtual machine with the rest of its
-- bindings (sqlite, the reads of images, the fields of a request), of src/server-rs and src/scripting; observability; the command line; the C++ engine behind the foreign
-- function interface.
pub mod Common
pub mod Iiif
pub mod Preflight
pub mod Paths
pub mod Elua
pub mod Http
pub mod Sink
pub mod Access
pub mod Replies
pub mod Routing
pub mod Runtime
pub mod Serve
pub mod Ranges
pub mod Docroot
pub mod Scripts
pub mod Settings
pub mod Uuid
pub mod Config
pub mod ConfigFile
pub mod Info
pub mod Limits
pub mod Admission
pub mod Bindings
