-- ===== src/Lib.antt =====
-- ESP-NOW Harness: the firmware of a benchmark node, firmware/main/ of the repository. Two nodes
-- exchange ESP-NOW packets while a controller on a host configures them over a serial line, starts
-- and stops a run, and reads a report of what was sent, received and lost.
--
-- The program's parts. control.c parses requests and moves the node through its states; radio.c owns
-- the Wi-Fi driver and the transmit window; generator.c sends the packets of a run; receiver.c takes
-- the callbacks' events from a queue, decodes the packets and answers pings; metrics.c counts, and
-- writes the report; protocol.c is the header of a packet; harness.h has the shared types.
--
-- The files:
--   Common      the library names passed on, tests on numbers, lists, options, bits of words, C text,
--               machine integers (u8, u16, u32 and u64 are `% 2 ^ w`);
--   Harness     firmware/main/harness.h: the states, roles, modes, limits and harness_config_t;
--   Protocol    firmware/main/protocol.c: bench_encode and bench_decode by bytes; Room, Layout,
--               RoundTrip;
--   Metrics     firmware/main/metrics.c: the records and the counters of sending; Rx is metrics_rx;
--               Stream is sequence_observe, with Window (the bits), History (what was received) and
--               Tracking (the two together); Distribution is distribution_add, with Summary and
--               Quantile (the sort and the nearest rank); Report is the whole numbers of
--               metrics_json and Rates its doubles, with Guarded and Mean; Tree is the JSON that
--               both are put in; Events has the calls of a run as a data type, and Streams, Totals,
--               Samples and Loss say what the metrics are after any sequence of them;
--   Runtime     the globals g_config, g_state, g_metrics and the static variables of radio.c,
--               generator.c and receiver.c that other parts read, the state monad, and the calls of
--               FreeRTOS and ESP-IDF as a record `Platform`; Alone is one such platform; Frame says
--               that code keeps to a relation that its calls keep to;
--   Radio       firmware/main/radio.c: make_rate_config, sending, and radio_wait_idle; Configure is
--               radio_configure over the driver's calls, Callbacks is tx_callback and rx_callback;
--               Slots, Window, Fence, Peers and Arrivals are about the transmit window, what waiting
--               for it shows, the loop that removes the peers, and the frames that arrive;
--               Interleaving is the use of the slots by senders, driver and callback as a step relation,
--               and Completed waits among such steps;
--   Generator   firmware/main/generator.c: send_one and generator_start; Task is wait_deadline and
--               generator_task, Stop is generator_wait_stopped; Accounts, Numbering, Schedule,
--               Mixture, Ends, Due and Rate are about what they count, number and send, when they end
--               and how fast they send; Bytes, Carried and Accepted about the packets that the
--               driver gets;
--   Receiver    firmware/main/receiver.c: one event of receiver_task, with the echo; Queue is the
--               posts of the callbacks and receiver_flush; Tallies and Fence;
--   Control     firmware/main/control.c: Json (the items of a request), Fields, Config and Parse
--               (parse_config), Ranges, Sizes and Accepted (what it accepts), Rates (with the radio's
--               table), Dispatch (dispatch and its handlers), Response (the JSON of its replies), Calm
--               (the laws of what the dispatcher calls), Step, Handlers, Commands and Transitions (the
--               state machine), Valid (the configuration of a live node), Session (control_run);
--   Firmware    the dispatcher with the functions that it calls in radio.c, receiver.c and generator.c:
--               Interface (they keep the laws of Calm), Settled and Fenced (what a successful stop or
--               result comes after);
--   Output      the calls of cJSON that make a tree of JSON; Object is what a reader finds in it;
--   Host        what the controller reads from the nodes: host/src/output.rs (stream_tx_counters and the
--               counts of save) and Envelope, with host/src/device.rs (which answer a request gets);
--               Counters, Aggregates, Unique, Lost and Answers put it together with the firmware's output;
--               Scenario is the traffic in host/src/scenario.rs, and Accepts gives it to parse_traffic;
--   Startup     firmware/main/app_main.c with radio_init and receiver_start; Ready.
--
-- How state corresponds. A struct is a record with the source's field names; a function that changes
-- a global takes the old value and returns the new one, or runs in the state monad of Runtime where
-- it calls the system. Other tasks run inside the calls of the system: such a call acts on the whole
-- state, and a theorem names what it assumes of it. Preemption between two such calls is not
-- modelled, so a race between two plain reads and writes of a global is outside the model.
--
-- Bounds. Every counter wraps as the source's type does, but for rssi_sum, which is any whole
-- number; the long double sum_sq is rounded to the 113 bits of the target's. The loops over the
-- bytes of a header, the sixteen streams, the samples of the reservoir and the slots of the window
-- are structural. The loops that wait for other parts run on fuel, and a theorem gives the fuel
-- that is enough: one more than the driver's peers for remove_peers, the microseconds until the
-- deadline for wait_deadline, those of the run for the loops of generator_task, and the time until
-- the timeout for generator_wait_stopped. A property of code that has fuel which says nothing of
-- the amount holds for any. The host reads whole numbers below 10 ^ 15, which cJSON prints without
-- an exponent: no count of fewer than 6 * 10 ^ 13 events passes that on sixteen streams, and no run
-- that the node accepts is longer than a day.
--
-- Not modelled. Floating point as such: the operations on the doubles of the report are a record
-- `Doubles`, and a theorem names what it assumes of their rounding; the rank `ceil(q * n)`, which is
-- computed in doubles, is a parameter, assumed to grow with q where a theorem says so. The double of a
-- JSON number is an exact binary fraction, and its test for whole quarters is exact on the range that
-- it is applied to. How cJSON prints a tree, and its failure where memory is short. The endless loops
-- of control_run and receiver_task are any number of their rounds. Of the host's program under host/,
-- which is Rust, only what Host names is modelled. cJSON, serde, sscanf, FreeRTOS and ESP-IDF are
-- parameters.
pub mod Common
pub mod Harness
pub mod Output
pub mod Host
pub mod Protocol
pub mod Runtime
pub mod Radio
pub mod Generator
pub mod Receiver
pub mod Control
pub mod Firmware
pub mod Startup
pub mod Metrics
