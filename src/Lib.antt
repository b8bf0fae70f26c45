-- ===== src/Lib.antt =====
-- Verification of the radio world of the ESP32-S31 Linux port (radio_firmware/) and of tools of its
-- root file system (rootfs/).
--
-- The radio firmware runs the vendor's Wi-Fi and Bluetooth libraries beside Linux, on a small
-- FreeRTOS-compatible kernel without a scheduler of its own: each task is a Linux kthread, and
-- critical sections, sleeping and waking are calls into the host, the s31_linux_* functions that
-- s31_rtos.h declares.
-- The tools run on Linux: s31-overlay sets up device-tree overlays and keeps their set over a reboot,
-- ble_scan and wifi_scan talk to the kernel's radio subsystems, and esp_simd is a library of vector
-- routines.
--
-- Parts and files:
-- - Base/ holds what the components share: Boolean tests on native numbers (Tests), lists
--   measured by native numbers (Lists), arithmetic of powers of two (Bits), bit masks (Masks) and
--   integers (Int).
-- - Rtos/Ledger.antt: the live heap blocks and synchronisation objects of the host, by address
--   (s31_rtos_malloc and s31_linux_sync_create with what frees them), so that a leak shows.
-- - Rtos/Wait.antt: the loop that every blocking call runs, s31_wait_remaining of
--   s31_rtos_queue.c with it. Wait/Time is on the wrap of the 32-bit tick counter, Wait/Laws the
--   rules by which a property of one look becomes a property of a blocking call.
-- - Rtos/Queue.antt: struct s31_queue of s31_rtos.h and s31_queue_send_locked and
--   s31_queue_take_locked of s31_rtos_queue.c. The ring is a byte memory with copies at computed
--   addresses; Queue/Fifo is the bounded sequence it implements, and Queue/Send and Queue/Take
--   are the refinement. Queue/Create and Queue/Lifetime are the constructors and the deletion,
--   Queue/Calls the blocking and ISR calls.
-- - Rtos/Queue/Sync.antt: the mutex and semaphore calls on the same structure; Rtos/Mutex and
--   Rtos/Semaphore are what they implement.
-- - Rtos/Event.antt: the event groups of s31_rtos_event.c.
-- - Rtos/Task.antt: the control block of a task and its life, s31_rtos_core.c; Task/Critical is on
--   nested critical sections, Task/Locals on thread-local storage and deletion, Task/Destructors on
--   the destructors of the one at the other.
-- - Rtos/Notify.antt: the task notifications of s31_rtos_core.c. Notify/Waiting is on the waiting
--   calls among other contexts, Notify/Delivery on what a notification brings.
-- - Timer.antt: the esp_timer shim, s31_linux_timer.c, with its list of timers. Timer/Alarm is on
--   the next alarm, Timer/Dispatch on the loop of a tick, Timer/Handles on the calls for one timer.
-- - Locks.antt: the table from libc locks to mutexes, s31_linux_locks.c; Locks/Table is on its
--   search.
--   Locks/Calls.antt has the calls on the locks, over the mutexes of Rtos/Queue/Sync: Calls/Owners is
--   on what lock each libc lock is, Calls/Refine on taking and releasing, Calls/Lifetime on closing.
-- - Copy.antt: the payload's memcpy and memset, s31_memcpy.c; Copy/Words relates its words to bytes.
-- - Rtos/Returns.antt: all the blocking calls together, on that they return.
-- - Text.antt: the C string functions that the tools use, on lists of bytes; Text/Lines is on texts
--   made of lines.
-- - Overlay.antt: the recorded set of overlays of s31_overlay.c (update_config) and its persistent
--   file (write_persist, read_persist). Overlay/Update is on replacing a line, Overlay/Persist on
--   writing and reading back; Overlay/Routes is patch_route, over libfdt as an interface, and
--   Overlay/Commands the commands apply, remove and restore, over the overlay driver as another.
-- - Ble.antt: ble_scan.c, its commands, the reading of advertisements and the scan. Ble/Names is on
--   the name in an advertisement, Ble/Devices on what a scan remembers and prints.
-- - Simd.antt: esp_simd.c, the calls that use vector routines if the thread can be moved to their
--   hart, and of s31_xespv_memops.S the routines that compare and add bytes, over a vector unit whose
--   documented behaviour is a condition; Simd/Bytes is on loops over bytes, Simd/Vector on the routines
--   and on the two calls.
-- - Netlink.antt: find_attr of wifi_scan.c; Netlink/Attributes is on what it finds and reads.
--   Netlink/Build builds messages, with Netlink/Found on what is found in them; Netlink/Scan receives
--   the answers and prints an access point, with Netlink/Foreign on messages of others and Netlink/Ssid
--   on the loop that looks for the name.
-- - Connect.antt: the SHA-1 of wifi_connect.c, its HMAC and the key derived from a passphrase;
--   Connect/Chunks is on messages that come in pieces.
-- - Radio/ is radio_stack.c, the glue between Linux and the vendor's drivers. Radio/Driver: the driver's
--   calls and the log of what happens; Radio/Config: the configuration of a connection, with its key in
--   Config/Digits; Radio/Station: the start of the station, the tasks that Linux runs and STA_START.
--   Station/Events has the other events and their dispatch, Station/Reach the steps of a station and
--   the accounts of its requests, Station/Accounts, Submit, Requests and Reached the parts of what
--   they keep, Station/Failed a start that fails and Station/Scans the results of a scan.
--   Radio/Capture: the samples and the counters of what the driver transmits, with Capture/Samples
--   on what a sample says, Capture/Window on the counters, and Capture/Keys for the keys and the
--   link layer; Radio/Frames: frames in both directions; Radio/Init: the bring-up, with Init/Order
--   on its order and its reports.
-- - Tests/ runs the definitions on concrete inputs.
--
-- Correspondence. A function keeps its C name without its prefix (s31_queue_send_locked is
-- send_locked); a struct is a record with the same fields; a pointer into the ring's storage is an
-- address of a memory ℕ → ℕ of bytes; uint32_t arithmetic writes its wrap out as % 2 ^ 32. What
-- runs under one lock of an object, or in one critical section, is one step, since that excludes
-- every other context. What the other contexts do between two such steps of a waiting call is an
-- explicit list of rounds: each gives the change to the world while the caller sleeps, what the
-- host's wait returned and the tick count read after it; `between` is what they do in a pass of a
-- notification call that does not sleep. A history of calls by several tasks and
-- ISRs is a list too, so a theorem over all lists covers every interleaving of these steps.
--
-- A text is the list of its bytes before the NUL, a buffer of bytes a function from the index, and
-- errno and the exit status of a command are values. The lines of strtok_r and fgets are lists that
-- the loops run over.
--
-- Bounds and fuel. The dispatch loop of the timers counts down from the source's own 64, and the
-- searches for a name in an advertisement, for an attribute in a message and for an SSID in the
-- information elements from the number of bytes, since each pass moves on by one at least; so does
-- the loop of sha1_update. A blocking loop recurses on the list of rounds, or of what recv
-- delivers: it ends with the answer still open when the list does, and the theorems on returning give the lists on which an answer is sure.
--
-- The host (kthreads, wait queues, the timer, the heap) is not code of the firmware: its calls
-- are parameters or rounds, and the theorems hold for every behaviour of it that their hypotheses
-- admit. The vendor's driver is a function from the log of all that has happened to the return code of
-- a call; what other contexts do while esp_wifi_start waits is a function on the station.
-- Not modelled: the calls that only pass on to the host (delay, suspend, priorities); in the calls that
-- wait for a libc lock what others do to the table meanwhile; of radio_firmware/radio_stack.c the
-- dumps, which nothing calls, the calls that only pass on and what other contexts do in calls of the
-- driver but esp_wifi_start; of s31_overlay.c the commands that only print and the bodies of load_blob
-- and write_current, which are calls of the system; of ble_scan.c the socket and the clock; of
-- wifi_scan.c and wifi_connect.c the sockets, the requests' headers, the connect request and main; the
-- other vector routines of s31_xespv_memops.S; the other programs under rootfs; and register access, the boot
-- loader and the build, which are I/O or glue.
pub mod Base
pub mod Text
pub mod Rtos
pub mod Timer
pub mod Locks
pub mod Copy
pub mod Overlay
pub mod Ble
pub mod Simd
pub mod Netlink
pub mod Connect
pub mod Radio
pub mod Tests
