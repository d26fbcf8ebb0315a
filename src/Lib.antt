-- ===== src/Lib.antt =====
-- The segling autopilot: its controller, the C program under controller/ of the repository, and the Go
-- server under interface/, which reads the controller's state and queues commands. The controller runs
-- a fixed schedule of 16 slots of 15 ms (the controller), in which integrations read sensors over
-- I2C (comms), keep their state (the AHRS), publish it in mapped memory (storage) and log
-- (logging). The integrations other than the AHRS are declared and not implemented yet.
--
-- The files, and what each is about:
--   Prelude, Prelude/Tests, Prelude/Lists, Prelude/Int: shared names, Boolean tests, lists, and C's
--     integers: an intN_t is the integer it stands for, signed arithmetic is exact, and a cast
--     to a narrower type wraps.
--   Float: the operations of `float` and `double` that the source uses, as records F32 and F64 that
--     the model takes as parameters, and the facts of IEEE 754 arithmetic (Ieee) that some theorems
--     take as a hypothesis.
--   Math, Math/Angle: controller/src/utils.c. Clamp, Ema and Angle/Laws hold the theorems.
--   Ahrs/State: the types of controller/include/integrations/ahrs.h; the static `g_ahrs` is a value
--     that each function takes and returns, and a pointer that may be NULL is an option.
--   Ahrs/Calibration: controller/src/ahrs_calibration.c. Ahrs: controller/src/ahrs.c. A function of the
--     source is the definition of its name; its branches and loops are helpers beside it. Loops
--     over the three axes are written out as records of three entries.
--   Ahrs/Calls: sequences of calls of ahrs.h from the initial state. Ahrs/Invariant, Overflow,
--     Machine, Imu and Published are about these.
--   Ahrs/Compass: a calibration of the magnetometer from its start to its end (Steps, Session, Extrema,
--     Completion, Progress), and what the calibration makes of a reading (Finish, Accuracy).
--   Comms: controller/include/controller/comms.h. Comms/Sim and Comms/Sim/Access:
--     controller/src/comms_sim.c; Loading, Calls, Frames, Exhaustion and Closing hold theorems on the
--     devices. Comms/Sim/Stream sees a device from outside, as the queue of its frames, and
--     follows the bytes from the disk through the bus. Comms/Sim/Handles accounts for the
--     files that are open.
--   Comms/Hardware: controller/src/comms_hardware.c; Transfers and Registers hold the theorems.
--   Storage: controller/src/storage.c; Commit and Mapped hold the theorems. Logging:
--     controller/src/logging.c; Filter holds the theorems.
--   Controller: controller/src/controller.c; Time, Schedule and Lifecycle hold the theorems.
--     Controller/Reference is an independent description of an epoch, by fixed times, which
--     Equivalence compares with the code and OnTime puts on a machine that keeps time.
--   Main: controller/cmd/main.c, its arguments and its loop, over any world.
--   Board: the program as it is linked for the simulated bus: the controller over logging.c,
--     comms_sim.c and storage.c. Boot, Epoch, Shutdown and Program are about its parts of a run.
--   Server: the Go server beside the controller, interface/. Decode: ahrs_public_v1.go of
--     interface/internal/storage/; Shared: the reads and writes of storage.go there; Files: its
--     Open and Close; Routes: interface/cmd/server/main.go. Layout holds the bytes of the
--     controller's ahrs_public_t, Protocol what the processes that share memory keep to; Reading,
--     Snapshots, Commits, Writer, Torn, Locking, Writing, Commands, Lifetime and Requests hold
--     theorems. Rival is a second server, access by access, on the same commands.bin, Pace its
--     pace, and Rivalry what the two do together.
--   Tests: instances of the parameters, and the theorems at concrete inputs.
--
-- Parameters: the arithmetic of `float` and `double`; stdio (Stdio), the I2C system calls (Bus),
-- the mapping of a file (Mapping); the clock, the sleep and the handlers of the integrations
-- (World), whose state is passed through every call; and storage_deinit, which the source calls
-- and never defines (Services). Of a handler the schedule's theorems ask that it leave the
-- controller's epoch, slot and start time alone (Polite), and the log's that it writes nothing
-- to it (Quiet). Since the build selects the backend, the controller takes the log's line on
-- jitter and the functions of comms.h through World and Services, and Board gives it those of
-- logging.c and comms_sim.c.
--
-- The server shares memory with other processes: before each of its accesses they do what a
-- parameter says (Others), and theorems ask that they keep to the seqlock (Protocol). The system
-- calls of Open and Close are a parameter too (Os). A float64 is its 64 bits. The server's mutex
-- keeps its own calls apart, so one call runs at a time.
--
-- What is documented of these parameters is a record of facts, a hypothesis of the theorems that
-- need it: what whole reads and writes within an open file do after a seek that succeeds
-- (FileLaws), the files of the disk that open and are served without an error (DiskLaws), which files are open (HandleLaws), which descriptors are open
-- (DescriptorLaws), which of these and which maps the server has (OsLaws), a device on the I2C
-- bus that is a bank of registers (RegisterLaws), and a machine whose clock, sleep and
-- integrations keep within bounds of time (Punctual).
--
-- Bounds: no definition needs fuel. The slots of an epoch count down from 16, the addresses of
-- comms_deinit from 256, and the endless loop of `main` is any number of its rounds. The
-- server's loops on the seqlock take at most 2^22 rounds, as in the source, and it errs behind
-- the last.
--
-- Not modelled: the text that vsnprintf formats (its bytes are an argument), the types imu_t and
-- magnetometer_t of ahrs.h that nothing uses, the other integrations, the unit tests, the
-- generator of simulated data, the web interface under interface/web, and of the server its
-- flags, the mux and the upgrade to a websocket.
pub mod Prelude
pub mod Float
pub mod Math
pub mod Ahrs
pub mod Comms
pub mod Storage
pub mod Controller
pub mod Logging
pub mod Main
pub mod Board
pub mod Server
pub mod Tests
