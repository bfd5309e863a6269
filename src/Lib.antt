-- ===== src/Lib.antt =====
-- The firmware of a wearable detector (ESP32-S3): what it records, how it is updated, when it sleeps
-- and how it recovers. The development models the services that carry its state; each is a record,
-- each method a function by clauses from the state (and what the call meets) to the new state and
-- result.
--
-- The parts and how they interact:
-- - `HistoryService` (src/Services/HistoryService.h, .cpp) keeps the detections in a ring in RTC
--   memory under a CRC-32, marks them as synced, dates them after a time sync, and backs them up in
--   NVS through a worker task. The sensor task logs into it, the protocol handler reads and marks, the
--   power manager flushes it before sleep.
-- - `OTAManager` (src/Services/OTAManager.h, .cpp) receives a firmware image in chunks over BLE,
--   checks its size and CRC-32, and tests a new firmware on its first boot.
-- - `PowerManager` (src/Services/PowerManager.h, .cpp) is the power state machine with the battery gauge;
--   it asks the other services whether they are busy before it sleeps.
-- - `BootRecoveryTracker` (src/Services/BootRecoveryTracker.cpp) and the boot part of src/main.cpp count
--   boots and crashes and decide on the flasher mode.
-- - `DetectionDeliveryPump` (src/Services/DetectionDeliveryPump.cpp) sends unsynced events to the app, one
--   at a time, from the history.
-- - `ConfigService` (src/Services/ConfigService.h, .cpp, src/Domain/UserConfig.h) keeps the user's settings,
--   gives the sensitivity to the sensor driver and writes the settings to NVS after a delay.
-- - `ProtocolHandler` (src/Services/ProtocolHandler.h, .cpp) frames the messages to and from the app, keeps
--   the table of those that wait for an acknowledgement, sends them again, and hands what arrives to the
--   history, the update manager and the configuration. The pump sends through it, the power manager asks
--   it whether acknowledgements are pending.
-- - `WifiService` (src/Services/WifiService.h, .cpp) holds the credentials and the state of the connection,
--   `TimeService` (src/Services/TimeService.h, .cpp) the state of the clock; src/main.cpp starts the sync
--   when a connection is up, and the time service turns the radio off when its one-shot sync is over.
-- - `DataLoggerService` (src/Services/DataLoggerService.h, .cpp, src/Domain/SampleWindow.h) gathers the
--   sensor's samples in windows that overlap, gives each to the inference task, and in a session also
--   to the logger task, which writes it to the session's file.
-- - src/Domain/DetectionEvent.h and src/Domain/ProtocolDefs.h hold the event, the
--   checksums and the message types.
--
-- Which file models which part (a C++ method `fooBar` is the function `foo_bar`, a member `_fooBar` the
-- field `foo_bar`):
-- - Prelude (Tests, Lists, Words, Xor): native numbers, lists measured by them, words with their
--   wrap-around and bytes, exclusive or.
-- - Platform: the reset reasons and the answers of the platform that one call meets.
-- - Crc, Event: the checksums and the event, with its packed bytes. Crc/Detection shows that one changed
--   byte changes the CRC-16.
-- - History: State (RTCState, the members, the checksum), Scan (the loop of every reader), Readers, Log
--   (logDetection), Sync (markAsSynced, markMultipleAsSynced, applyTimeSync, clear, setBleConnected), Nvs
--   (flushToNvs, restoreFromNvs, fastForwardEventId), Worker (init, the worker's commands). Window is
--   the abstract view, the list of the ring's events; Queries, Append, Edit, Marking, MarkingOne,
--   MarkingMany, Backfill, Recording, Backup and Restart relate the methods to it, and Steps, Trace,
--   Climbs and Numbering are about sequences of calls. Samples and Tests hold the examples.
-- - Ota: State, Handlers (handleStart, handleData, handleCommit, handleAbort, update), Session (a whole
--   update), Lifecycle (sequences of events), SelfTest (performSelfTest, validateBootedFirmware),
--   with its verdict in SelfTest/Verdict.
-- - Power: State, Battery (voltageToPercent, updateBatteryStatus), Machine (transitionTo and the rules
--   around it), Sleep (canSafelyEnterSleep, enterDeepSleep), Control (init, update). Ocv and Gauge are
--   about the battery, Guards and Attempts about deep sleep, Life about the steps of the state, Events,
--   Paired and Calm about sequences of calls.
-- - Recovery: the tracker; Boots (setup and loop of main.cpp), Crashes (performCrashRecoveryCheck),
--   Cycles (turning the device off and on again).
-- - Delivery: the pump; Rate, what it sends and when.
-- - Configuration: State (the settings, the members), Store (writeToNvs, readFromNvs, init), Changes (the
--   setters, the timer, the worker, forceFlush, factoryReset). Consistent and Steps are about sequences
--   of calls, Reload about the next boot.
-- - Protocol: Messages (the types), Frame (buildFrame, parseFrame) with Frame/RoundTrip and
--   Frame/Corruption, State (the table), Sending (sendMessage, the messages of the device,
--   processRetries), World (the services that a message acts on), Handlers, Settings, Acks and Commands
--   (the handlers), Dispatch (dispatchMessage, processReceived). Table and Outcome are about the table,
--   Acked and Delivered about a detection that is acknowledged, Retries about rounds of processRetries,
--   Syncing about a sync request, Extends, Replies, Branches and Answered about the frames that answer,
--   Corrupted about a frame that arrives changed, Replay about old changes of the settings. Samples and
--   Tests hold the examples.
-- - Network: Wifi (WifiService), Clock (TimeService), Steps (the connection callback, and the calls that the
--   firmware makes). Radio and OneShot are about sequences of calls and the end of a sync, Credentials
--   about setCredentials.
-- - Logger: Window (the packed windows), Session (appendSample, startSession, stopSession, processWrite).
--   Windows and Sliding are about the buffer that moves on, Recorded about the samples of a session.
--   Lifetime (init, shutdown, deleteAll, the scan of the session files), with Fresh and BaseNames about
--   the number after a scan, for whole paths and for base names.
--
-- How it is modelled:
-- - A number of the source is a native number, with its wrap-around written out. `millis()` and the
--   uptime are inputs of a call, and so are the answers of the platform and of libraries: whether a mutex
--   is taken in time or a queue takes a message, what a `put` or a read of NVS returns, whether the flash
--   writer takes a chunk, the pins and the ADC. src/Config.h is empty in the repository, so its constants
--   are fields of a configuration record.
-- - A pointer is a Boolean, whether it is set. Where the source calls another part that changes something
--   outside the state, the call is recorded: messages to the storage worker in `accepted`, flash calls in
--   `flash`, sent payloads in `sent`, NVS writes in `calls`, the power manager's calls in `effects`.
-- - The loops over the ring run on fuel, BUFFER_SIZE tests of the condition, and give `none` where it
--   runs out. In a ring within its bounds fewer cells than that lie between tail and head, so it does not
--   run out; the results on the readers and writers say that they end. A ring with an index out of
--   bounds, on which the loop of the source does not end, gives `none`.
-- - Methods run one after another: each holds the mutex while it works on the ring. The two fields that
--   `logDetection` reads after it has given the mutex back are read as they were when it held it.
-- - The flash record of an update holds the writes that took the whole chunk; what a writer keeps of a
--   chunk that it refused is not modelled.
-- - The power manager's floats are an abstract type with the operations that the source uses on it.
-- - A frame is its list of bytes, and `sent` holds, oldest first, those that `sendNotification` took. What
--   one message meets is a record, `Meeting`: its field `send` gives the answers to the first, second and
--   later call of `sendMessage`. An object that `getInstance` returns is a Boolean, whether it is there.
-- - `HelloAckPayload` of ProtocolDefs.h lacks the last fields that `sendHelloAck` sets; here they stand in
--   the order in which it sets them. `handleCalibrate` sends a threshold under a name
--   that the source does not declare; it is taken to be the one that the callback fills.
-- - After a commit that succeeds the device restarts, so nothing more is sent in that call. The waits
--   between two frames of a sync are left out.
-- - A settings record in NVS is a record with its size, and an NVS write is logged with what it wrote. The
--   endless loop of the configuration task is left out, its round is a function.
-- - The Wi-Fi library's calls are recorded, and the mode that it reports is an answer; that it reports what
--   the calls have set, and that it has no disconnect reason 0, are hypotheses of the results that need
--   them. The body of evaluateBootSyncPolicy behind its first return is left out.
-- - The sample buffer is a list of WINDOW_SIZE samples; the manifest and the session files are the lists
--   of what is appended to them, and a window that is written in part is left out. What a window's header
--   takes from the sensor driver and the settings is an input. A file name is its list of character codes,
--   and an `atoi` that leaves the range of `int` is taken modulo 2^16 as it stands. What `File::name()`
--   gives differs between versions of the Arduino core, a whole path before 2.0 and a base name later, so
--   a directory is the list of what it gives; platformio.ini pins a version with base names.
-- - A restore takes over whatever NVS returns, so sequences of calls leave it out, and the result on the
--   backup is about an image that a flush has written.
--
-- Not modelled: the endless loop of the storage task (its yields and commands are), log output and
-- diagnostics, BLE, the flasher's web server,
-- inference and personalization, the hardware drivers, the sensor task of main.cpp, and the tools.
pub mod Prelude
pub mod Crc
pub mod Event
pub mod Platform
pub mod History
pub mod Ota
pub mod Recovery
pub mod Delivery
pub mod Power
pub mod Configuration
pub mod Protocol
pub mod Network
pub mod Logger
