-- ===== src/Lib.antt =====
-- A verification library for webpa-common: the hub that keeps devices connected over websockets, and
-- the helpers that it is built from.
--
-- The program. A device connects, and the manager (device/manager.go) puts it into the registry
-- (device/registry.go) under its canonical id (device/id.go). Two goroutines serve it: the read pump
-- decodes its frames, checks their source, and hands responses to the transactions that wait for
-- them (device/transactions.go); the write pump sends the messages in its queue. Closing a device
-- (device/device.go) cancels its transactions. The device gate (device/devicegate) keeps devices out,
-- and the rehasher (device/rehasher) drops those that hash to another instance, as the accessors
-- (service/accessor.go) tell it. The semaphores, cached values, pools and gates (semaphore, store,
-- xhttp/gate) are used on their own.
--
-- The files.
--   Base: Go's maps as association lists, in any order of `range`; channels of capacity one; calls
--     that end in a value, a panic or a deadlock; lists and tests over the native numbers.
--   Device.Transactions: device/transactions.go, `Transactions` and its methods under their names.
--   Device.Endpoint: device/device.go, `newDevice`, `requestClose`, `Closed`, `CloseReason`.
--   Device.Registry: device/registry.go, `registry` and its methods under their names.
--   Device.Sending: `Send`, `sendRequest` and `awaitResponse` of device/device.go, as steps.
--   Device.Drain: device/drain, `Start`, `Cancel`, `Status` and `jobFinished`; Device.Drain.Batches: the
--     loops `drain` and `disconnect` with `nextBatch`; Device.Drain.Hub: the registry as what they use.
--   Device.Id: device/id.go, with the pattern of `idPattern` as functions on texts.
--   Device.Wrp: the interface of the WRP library, which is another repository.
--   Device.Manager: device/manager.go, `register` for the end of `Connect`, `read_frame` for a round of
--     `readPump`, `pump_close`, `source_is_valid`, `route`.
--   Device.WritePump: `writePump` of device/manager.go, a round for each case of its `select`.
--   Device.Rehasher: device/rehasher/rehasher.go. Device.DeviceGate: device/devicegate/filter.go.
--   Service.Accessor, Service.Updatable, Service.Layered: service/accessor.go.
--   Semaphore: semaphore/semaphore.go and semaphore/closeable.go, each call in atomic steps.
--   Store.Cache: store/cache.go and store/value.go. Store.Pool: store/circularPool.go.
--   Xhttp.Gate: xhttp/gate/gate.go. Event.MultiMap: event/multimap.go.
--   Xhttp.Fanout: xhttp/fanout, `ServeHTTP` with what it calls; Xhttp.Fanout.Requests: its
--     requestResponse.go and endpoints.go. Xhttp.Retry: xhttp/retry.go and
--     xhttp/rewind.go. Secure.KeyCache: secure/key/cache.go. Health: health/stat.go, health/health.go.
--   Service.Monitor: service/monitor, `dispatchEvents` by the cases of its `select`, with the listeners.
--   Capacitor: capacitor/capacitor.go, for functions that are not nil. HttpPool: httppool/client.go.
--   Tests: runs on concrete data.
--
-- Conventions. A device or a channel is an address in a store that is a function. A method under a
-- lock is one step; a call that other goroutines may interleave with is a list of steps, and theorems
-- hold for every sequence of them. `removeIf` of the registry, which lets go of its lock between two
-- devices, is modelled with nobody coming in between. Functions of other repositories are arguments.
-- Times and counts are not bounded by the size of Go's integers, but for the counters of a drain job
-- (32 bits) and the statistics of health (64 bits). Loops run over lists: a drain job over its
-- rounds, of which as many as its count are enough; the retries are counted down.
--
-- Not modelled. Logging, tracing, convey and JSON; the upgrade to a websocket and the HTTP handlers;
-- and the packages that no file above names: among them hash, webhook, the token checks, server and
-- the service discovery clients.
pub mod Base
pub mod Device
pub mod Service
pub mod Semaphore
pub mod Store
pub mod Xhttp
pub mod Event
pub mod Capacitor
pub mod Health
pub mod HttpPool
pub mod Secure
pub mod Tests
