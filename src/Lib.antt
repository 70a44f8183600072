-- ===== src/Lib.antt =====
-- A model of the MQTT sensor exporter and its correctness theorems.
--
-- The program takes measurements of Zigbee sensors from Tasmota bridges over MQTT, finds the
-- `Device` resource of each sensor in the cluster, applies its corrections, and stores the
-- measurement in the PostgreSQL database that supports the sensor's type. A REST API answers which
-- devices have triggered their alert condition, by averages that it reads from the same databases.
--
-- The parts and their files:
--  - Common: shared names, tests, lists, results, dictionaries, 64-bit integers. A function that
--   reads and changes the outside world is a function from a world `W` to a world and a `Result`.
--  - Float, Kube, Payload: `float64`, the custom resources with the client's read operations, and
--   the `map[string]any` that goes from the telemetry handler to the storage handlers.
--  - Tasmota: internal/tasmota. Types (types.go), Corrections and Names (utils.go), Build and
--   Telemetry (telemetry_handler.go), Dispatcher (dispatcher.go), Fields (the formats and the
--   field access of utils.go), Tags and Decode (how `json.Unmarshal` fills the two message types
--   that the telemetry handler reads, by the tags of their fields). Telemetry calls the database
--   manager's `StoreMeasurement` with the payload that Build makes.
--  - Json: a document of encoding/json. Its scanner, from bytes to a document, is an argument of
--   `unmarshal_message` of Decode. Telemetry has `unmarshal` as an argument; `unmarshal_message` is
--   the function that the program has there.
--  - Database: internal/database. Gorm (tables, and the calls of gorm), Text (utils.go), Store (the
--   four handlers' `StoreMeasurement`: Device finds or creates the device, Chain orders the writes,
--   Rows builds the rows, Handlers puts them together), Queries (the two queries and the deletion
--   of moisture_handler.go and room_handler.go),
--   Driver (the calls of crypto/tls, pgx and database/sql), Dsn and Manager (manager.go), Kind (the
--   switch on the sensor type). The manager's state is the world and the map of connections; its
--   lock makes each method one step. Handles is the manager as a step relation, for the pools that
--   its calls open and close while queries that were given a handle go on without the lock.
--  - Api: internal/api. Text and Duration (`parseDuration`), Filters (`parseAlertFilters`), Handler
--   (`HandleAlerts`, handler.go), Measure and Alerts (alerts_service.go), Server (the routes, with
--   the middleware and the health of handler.go; its child Life has `Start` and `Stop`, server.go).
--  - Mqtt: internal/mqtt. Types (the bridge resource, connections, the paho client's calls),
--   Options (credentials and client options), Topics (subscriptions), Manager (manager.go). A
--   connection stands in a memory and the table holds its address, since the callbacks share it;
--   the order of the callback and the rest of `Connect` is an argument. Its messages go to
--   Tasmota's Dispatcher. Steps is the same manager as a step relation, in which the handlers of
--   paho run between any two steps of a `Connect`, and as often as the client reconnects. A handler
--   runs to its end in one step, with the client that it finds at its start.
--  - Pipeline: the way of a message from the bridge through the dispatcher and the telemetry
--   handler to the rows of the databases.
--  - Alarm: from a stored measurement to an alert. Readings and Kept (the row that the message adds),
--   Measured (the average that the alerts service reads), Laws (storing, then judging), Answer (the
--   whole way, from the bridge's message to the service's answer).
--  - Main: cmd/main.go, the options that the flags give and the order of the setup.
--  - Watcher: internal/watcher. The body that both reconcilers share, over any callback, and the two
--   event predicates.
--  - Examples: the theorems at concrete inputs, on a database in memory.
--
-- Go maps are association lists; the order in which the runtime visits one is an argument, which
-- only has to be a reordering. Names that are cut and mapped rune by rune are lists of code points.
-- `int` wraps at 64 bits. Times and durations are numbers of nanoseconds. No function of the model
-- runs on fuel but the printing of decimal numbers, whose fuel exceeds the number itself.
--
-- What is not in the repository is an argument: gorm, pgx, crypto/tls and database-iot-gorm's
-- migrations are records of functions (`Gorm`, `Driver`, `Averages`, `Paho`), the Kubernetes client
-- is `Cluster`, `float64` is `Float64`, and the scanner of encoding/json, `time.ParseDuration`,
-- `fmt.Sscanf` and the lower case of runes outside ASCII are function arguments. Of encoding/json
-- Tags and Decode write out how a document fills a struct, as its documentation says it. `IsLawful`
-- says what the storage code relies on of a database, `IsQueryable` what the queries do, `IsExact`
-- what IEEE 754 says of small whole numbers, `ReadsWindow` what the time bound of a query means,
-- `IsPooled` which pools the driver's calls open and close, `ReadsRows` which rows an average is of
-- and that the average of one row is its value, `IsShared` that the connections that support a type
-- are at one database.
--
-- Not modelled: logging, the listening itself (`net/http` calls the handler, and its shutdown is an
-- argument), the parsing of the flags, the usage examples (files of comments), the types of
-- messages that no code reads, and the timestamps in the bodies of the API's answers.
pub mod Common
pub mod Float
pub mod Kube
pub mod Payload
pub mod Json
pub mod Tasmota
pub mod Database
pub mod Api
pub mod Mqtt
pub mod Watcher
pub mod Pipeline
pub mod Alarm
pub mod Main
pub mod Examples
