-- ===== src/Lib.antt =====
-- roc-vad, virtual audio devices for macOS that stream to and from the network.
--
-- The driver is a plugin of coreaudiod. It keeps a table of devices. A device takes an index from an
-- allocator and an identifier from a generator, opens a sender or a receiver of roc, and registers an
-- object with the HAL, whose audio callbacks go through a ring buffer. Clients talk to the driver with
-- the messages of rpc/driver_protocol.proto; the command line tool is one of them. What is known of a
-- device is stored as the same messages.
--
-- Files and the source they follow:
--   Ring, Samples     driver/ring_buffer.hpp and .cpp. A sample is a type parameter. Timestamps and
--                     offsets are 64-bit numbers that wrap. `none` is a failed assertion, a division
--                     by zero, an access outside an array or the address of the first element of an
--                     empty one; an array is a list, and the result of a read is what the array of the
--                     caller holds afterwards.
--   Index             driver/index_allocator.hpp and .cpp. A chunk of the bitset is a list of 64 bits,
--                     an index a 32-bit number. The search runs as many rounds as the loop, one more
--                     than there are chunks.
--   EnumMap           common/enum_map.hpp and .cpp, the searches of driver/rpc_serdes.cpp, and
--                     parse_enum of tool/parse.hpp. An enumeration has its named values and `other`.
--   Defs, Message     driver/device_defs.hpp, and the messages of rpc/driver_protocol.proto.
--   Serdes            driver/rpc_serdes.cpp: *_from_rpc and *_to_rpc, with one function for each part
--                     of a device. An `out` parameter is the result.
--   Result, Exec      exceptions as values, of which the class is kept and the text is not; Exec adds
--                     a state, which keeps what was done before the exception.
--   Parse             tool/parse.cpp over texts as lists of bytes, with strtol written out. A
--                     product that overflows int64_t is an outcome of its own.
--   Uid               driver/uid_generator.cpp. The endless loop runs on fuel; it returns as soon as
--                     the random numbers give a fresh identifier.
--   Transceiver       driver/transceiver.hpp, driver/sender.cpp and driver/receiver.cpp. Frames holds the
--                     real-time calls.
--   Device            driver/device.cpp: constructor, destructor, toggle, bind, connect, the order of the
--                     endpoints and the request handler.
--   Handler           driver/request_handler.cpp: what the HAL writes to a sender device and reads from a
--                     receiver device. What is passed to the sender is a result; the gain and the
--                     receiver are parameters.
--   Storage           driver/device_storage.cpp over the storage of the HAL and the bytes of protobuf,
--                     of whatever type.
--   Manager           driver/device_manager.hpp and .cpp. The maps by index and by UID lead to objects
--                     in a heap, which an object leaves with its last entry. A `Key` stands for the
--                     two overloads of an operation. Table is the abstract view, Commands the
--                     sequences of requests, Restart the devices of the storage.
--   Service           driver/driver_service.cpp, whose commands call the manager and reply a status.
--   Driver            driver/driver.cpp, with the implicit destructor of the class of
--                     driver/device_manager.hpp, which destroys the members in the reverse of their
--                     order.
--   Tool              the commands of tool/: Build, AddSender, AddReceiver, Endpoints and Select hold
--                     what each of them sends through the stub. In Tool/Driver the stub is the driver
--                     of Service. Cli is tool/main.cpp and tool/cmd_compound.cpp, Uninstall
--                     tool/cmd_uninstall.cpp.
--   Output            tool/format.hpp, tool/format.cpp and tool/print.cpp. A line is a call of
--                     fmt::println with its arguments; what fmt::format makes of a number is a
--                     parameter.
--   Volume            driver/volume_control.cpp over numbers of any type.
--   Log               driver/log_streamer.cpp and tool/cmd_logcat.cpp. The log thread and the thread that
--                     waits for the client on a condition variable are one schedule of events; the
--                     endless loop of logcat runs on the list of what its attempts meet. Log/Streams is
--                     driver/log_manager.cpp with the calls of stream_logs, any number of them at
--                     once.
--   Prelude           shared names, lists, integers and words.
--
-- Parameters stand for what the repository does not hold: TimeUtil of protobuf (which keeps 64-bit
-- nanoseconds) and its bytes, ROC_SLOT_DEFAULT, the functions of roc (record Roc), libASPL (records
-- Hal and Storage), random numbers, std::round on floating-point numbers, fmt::format of a name and
-- the numbers of roc_interface (record Platform), the stub of the RPC service (record Remote),
-- std::abs, the bytes of a command-line argument, the file system (record Files) and atoi. Logging is left out.
--
-- Not modelled: the set-up of the log, the registration of commands, the layout of
-- the help, and the code that protoc generates.
mod Prelude
pub mod Result
pub mod EnumMap
pub mod Defs
pub mod Message
pub mod Serdes
pub mod Parse
pub mod Exec
pub mod Transceiver
pub mod Uid
pub mod Device
pub mod Storage
pub mod Manager
pub mod Output
pub mod Service
pub mod Driver
pub mod Tool
pub mod Log
pub mod Volume
pub mod Index
pub mod Samples
pub mod Ring
pub mod Handler
