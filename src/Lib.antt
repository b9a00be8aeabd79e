-- ===== src/Lib.antt =====
-- ioBroker.govee-smart drives Govee lights and appliances from ioBroker, over the LAN, over Govee's
-- cloud (a REST API and MQTT) and over BLE frames that the LAN API relays. This library models the
-- parts that decide: over which channel a command goes, what may be called and when, what is retried,
-- what is said in the log, which bytes go to a device, under which id a device lives, and when it
-- counts as reachable or as gone.
--
-- How the parts meet. A write to a datapoint of a device is a command: the command router takes the
-- LAN, the account broker or the cloud for it and confirms what went out; over the cloud it is handed
-- to the retry of writes, of which only the newest one of a datapoint is sent again, and to the rate
-- limiter. A write to a group goes to its members, each by the router. A cloud call is handed to the rate limiter, which runs it, queues it or refuses
-- it; when a call ends, its booking (src/lib/call-booking.ts) says whether it ever reached Govee, and
-- the limiter gives back what it charged if not. The outcome of real calls feeds the outage watch. A
-- failed load of the cloud goes to the retry loop, which arms its one timer for the next load. Every
-- HTTP request waits at the call gate, which keeps the windows of api-limits.json. The frames are
-- built from values that a command carries. A device has its tree from the registry of ids; what the
-- cloud and the LAN say of it decides whether it is reachable, and the lists of the account whether it
-- is evicted. The segment wizard flashes one segment after the other
-- and writes what the user saw as a segment list, which the list parser reads.
--
-- Base: tests, lists over the native numbers and maps with string keys, shared by all files.
-- Text: the texts of JavaScript that the source reads and writes, as character codes. TextMap: a `Map`
--   whose keys are texts.
-- Color: src/lib/color.ts (rgbToHex, hexToRgb, rgbIntToHex). RoundTrip reads back what is written.
-- Device: the part of GoveeDevice of src/lib/types.ts that commands need; SegmentCount is the segment
--   count of src/lib/device-manager/lookups.ts. Command: the commands and the values written.
-- BrokerCommands: src/lib/broker-commands.ts. LanClient: the datagrams that the setters of
--   src/lib/govee-lan-client.ts build.
-- CommandRouter: src/lib/command-router.ts (resolveTransport and what it asks). Batch reads the text of
--   a batch command, Cloud finds the capability and the value for the cloud, Lan takes a command to
--   the LAN, Segments the segment commands, Send is sendCommand. World holds what the router calls:
--   its clients' answers, which are functions, and the actions, which are values; a call that failed may
--   have reached Govee, and is an action of its own. Own says what a command has to send over each
--   channel. Route, Batch/Parsed, Batch/Accepted, Accounted, Fits, Ways, BatchSent and Confirmed hold
--   the proofs.
-- CommandRetry: sendBudgeted of src/lib/command-router.ts, as an interleaving of writes, ends of
--   attempts and pauses. Newest holds its invariant, Thrice counts the attempts of a write.
-- GroupFanout: src/lib/group-fanout.ts; Members is the handler, Noted what one member leaves behind,
--   Confirmed what a confirmation means.
-- DeviceId: src/lib/device-id.ts with mapKey of src/lib/device-key.ts and normalizeDeviceId of
--   src/lib/types.ts. Counted is about the loop that looks for a free id, Free about a new tree,
--   Inverse about the two maps of the registry, Distinct about its whole life.
-- Reachability: isLanDriven and resolveDeviceReachability of src/lib/device-manager/lookups.ts, and
--   applyOnlineCap of src/lib/device-manager/cloud-merge.ts. Proven and Reported hold the proofs.
-- SegmentPush: parseMqttSegmentData of src/lib/device-manager/lookups.ts. Scanned is about the packets
--   that are read, Listed about the segments. SnapshotFrames: segmentCountFromSnapshotFrames of the
--   same file; ColorPackets reads what BleFrame writes.
-- SegmentLearning: processMqttSegmentPacket, mayLowerSegmentCount, reviewDeferredSegmentShrink and
--   adoptSegmentCount of src/lib/device-manager.ts, for one device. Lowered is about one event, Runs
--   about any run of pushes and loads of the masks.
-- Reconciler: src/lib/device-manager/reconciler.ts. Evicted follows a device over many passes.
-- CallBooking: src/lib/call-booking.ts (CallBooking, isNeverSent).
-- RateLimiter: src/lib/rate-limiter.ts. Bucket is TokenBucket; State the types and the fields of
--   RateLimiter; Ledger its private budget checks, spend and refund; Queue is enqueue; Loop has
--   tryExecute, executeTracked, settle, processQueue, the resets, start and stop; Events lists all
--   that can happen to a limiter, as steps. Within, Sorted, Sound, Meter and Tracked hold the
--   invariants. An `execute` closure is the number of its call, and a run is an effect; the call
--   settles in any later event. The texts of errors and log lines are constructors. Tokens are
--   counted in thousandths, so the refill is exact. `sort` is JavaScript's stable sort, written as
--   insertion.
-- CallGate: src/lib/call-gate.ts (CallGate) with the types of src/lib/api-limits.ts. Window says what
--   the loops store under one key, Runs what follows for a run of calls, Wait that `admit` ends.
-- SegmentList: src/lib/segment-list.ts (parseSegmentList), with consolidate and compactIndices of
--   src/lib/segment-wizard.ts, which write such a list. A text is the list of its parts.
-- SegmentWizard: src/lib/segment-wizard.ts (SegmentWizard), with restoreSegmentsGrouped of
--   src/lib/device-baseline.ts and restoresAsColorTemperature of src/lib/color-mode.ts (Restore). Each
--   `await` splits a method into events.
-- TimerMs: the part of src/lib/timing-constants.ts that the others use.
-- CloudRetry: src/lib/cloud-retry.ts (CloudRetryLoop). Its host's `loadFromCloud` starts in one event
--   and ends in a later one, so several loads may be in flight.
-- CloudOutage: src/lib/cloud-outage.ts (CloudOutage, cloudReachable).
-- LogOnce: src/lib/log-once.ts (LogOnce). A JavaScript `Map` is an association list in the order of
--   insertion.
-- BleFrame: src/lib/ble-frame.ts. A packet is the list of its bytes.
-- ReconnectingMqtt: src/lib/reconnecting-mqtt-client.ts (ReconnectingMqttClient), the base of the two
--   MQTT clients.
-- ApplianceFrames: src/lib/appliance-frames.ts (decodeApplianceFrames), on the frames of BleFrame.
-- Tests: runs at concrete inputs.
--
-- Fuel. `pad_zeros` takes the 19 - length rounds that the loop makes; `slice_packets` takes one
-- round for each byte, more than there are slices; `add_range` and `push_range` take the length of the
-- range, which is held to the 56 segments of the protocol; `speed_pages` takes the page count of the
-- data, as the loop does; `scan_mask` takes the 56 bits of a mask; `decimal_digits` takes one round more than the number, which has no more
-- digits; `counted` takes as many rounds as there are held ids, and one. No other function takes
-- fuel.
--
-- Times are milliseconds, as natural numbers; numbers in a command are whole. Lower case is that of
-- ASCII. Not modelled: HTTP, MQTT and UDP, the objects of ioBroker, files, the admin page, and the
-- texts of the log. Of the command router: the map of the last transports, and the timers of the two
-- read-backs; declaredOptionValue of the capability mapper is a parameter. Of the device manager: the
-- merges of the device lists, the status updates but for the segments, the cache and the loader of the
-- libraries.
pub mod Base
pub mod ApplianceFrames
pub mod BleFrame
pub mod BrokerCommands
pub mod CallBooking
pub mod CallGate
pub mod CloudOutage
pub mod CloudRetry
pub mod Color
pub mod Command
pub mod CommandRetry
pub mod CommandRouter
pub mod Device
pub mod DeviceId
pub mod GroupFanout
pub mod LanClient
pub mod LogOnce
pub mod RateLimiter
pub mod Reachability
pub mod Reconciler
pub mod ReconnectingMqtt
pub mod SegmentLearning
pub mod SegmentList
pub mod SegmentPush
pub mod SegmentWizard
pub mod SnapshotFrames
pub mod Text
pub mod TextMap
pub mod TimerMs
pub mod Tests
