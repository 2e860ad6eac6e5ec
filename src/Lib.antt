-- ===== src/Lib.antt =====
-- dynvar-sync shows the values of decompiler variables while a debugger stops in a program. A broker
-- (broker/) passes JSON lines between a WinDbg client and an IDA client. The IDA plugin (ida_plugin/)
-- maps the program counter, reads arguments at function entries, and recovers other local variables
-- where an analysis proves where they are.
--
-- Parts and files:
--   Base, Value, Numbers: what the sources use of Python: lists, dictionaries in insertion order,
--     unbounded integers, the values of JSON, `int(s, 0)`, hexadecimal texts, `bytes.fromhex`.
--   Broker (broker/protocol.py, broker/sessions.py, broker/dayvar_broker.py): Protocol decodes and
--     checks a message; Sessions is the registry of the clients by role; Routing is `handle_message`,
--     `route_message` and the replies; Reader is `handle_client`, which cuts a stream into lines;
--     World is the broker with any number of connections, where one step is one line of one
--     connection, its end or a new connection, in any order.
--   AddressMapping (ida_plugin/address_mapping.py): runtime addresses against those of the database.
--   Registers (ida_plugin/v_variable_recovery.py): the registers and the values cut out of them.
--   Cfg (ida_plugin/v_variable_recovery.py): the three searches of a control flow graph. Walk is the
--     worklist loop that they share, Backward the executions before a point; Reaching is
--     `_find_reaching_definitions`, Future `_find_future_uses`, Storage
--     `_validate_register_storage_cfg`, Cycle `_graph_has_cycle`.
--   Analysis (ida_plugin/v_variable_recovery.py): `analyze_v_variable_candidates`. Microcode reads the
--     blocks of Hex-Rays, Points finds the current point and the facts about one variable, Native and
--     Graph read native instructions and blocks, Variables asks for registers and stack slots, Candidate
--     is `_analyze_one_lvar`, which runs the searches of Cfg, Claims is
--     `_reject_duplicate_storage_claims`, and Whole puts them together.
--   Recovery (ida_plugin/v_variable_recovery.py): the class `VVariableRecovery`.
--   Core (ida_plugin/dynvar_core.py): the class `DayVarCore`. Contexts says which program counter its
--     requests and rows are for.
--   Hexrays (ida_plugin/hexrays_variables.py): Names are the names and classes of variables, Arguments
--     is `_detect_arguments`.
--   View (ida_plugin/live_variables_view.py): the filters, the labels and `LiveVariablesView`.
--   Selection (ida_plugin/dayvar_plugin.py): which variables are analysed at a program counter,
--     `select_recovery_candidate_indexes` and `AnalysisSelectionCache`.
--   Controller (ida_plugin/dayvar_plugin.py): the class `DayVarController`, which owns a Core, a
--     Recovery, a View and a Selection. Handlers is `_handle_message` and what it calls, Reachable its
--     life: messages of the broker, connecting, disconnecting and changing the filter, in any order.
--   Client (ida_plugin/protocol_client.py): the class `ProtocolClient`, whose thread is a list of
--     rounds.
-- Files named Examples hold runs on small inputs, where each theorem's hypotheses hold.
--
-- An object is a record, and a method is a function to the new record. A dictionary is a list of items;
-- where the order of a Python set does not matter to the result, a list stands for it. Objects that are
-- shared and changed (sessions, records of variables) are found by their key in the record that owns
-- them.
--
-- Fuel: the worklist loop runs on `suc (budget * suc degree + 1)` rounds, where `degree` is the largest
-- number of neighbours of a block: each round takes a point from the stack, at most `budget` points are
-- visited, and each puts at most `degree` points there. `_graph_has_cycle` runs on one round more than
-- there are nodes, since a node is ready once. The lists of instructions have the caps of the code
-- (100000, and 4096 for a stack slot), which are their fuel; the loop over argument indexes has one
-- round more than there are places. The digits of a number n need at most n + 1 rounds.
--
-- Parameters: the record `Runtime` (UTF-8, `json.loads`, `json.dumps`, `repr`, `str`) for the broker and
-- the client; `repr` and `str` for the plugin; for the analysis the record `Ida`, the answers of IDA and
-- Hex-Rays at one address, with the decoder of instructions as a function; for the recovery the analysis
-- as a function from a function, an address and variables to evidence; for the controller the record
-- `Environment`, which has these, the image base and the enumeration of variables, and which may be
-- another one at each message. Texts of numbers are ASCII.
--
-- Not modelled: log lines and debug lines; sockets and threads apart from the order of their steps; the
-- visitors of IDA (the enumeration of variables, the reading of a prototype, and the facts of the ctree,
-- which ida_plugin/v_variable_recovery.py only uses to reject); the forms, hooks and summaries of
-- ida_plugin/dayvar_plugin.py and the chooser of ida_plugin/live_variables_view.py; the C code of
-- windbg_ext/.
pub mod AddressMapping
pub mod Analysis
pub mod Base
pub mod Broker
pub mod Cfg
pub mod Client
pub mod Controller
pub mod Core
pub mod Hexrays
pub mod Numbers
pub mod Recovery
pub mod Registers
pub mod Selection
pub mod Value
pub mod View
