-- ===== src/Lib.antt =====
-- EVA ICS v4. The node core: items and their states, the inventory, the action manager and the
-- handlers of the core; and services: the Modbus controller, the ACL service, the logic manager, the
-- expiration service and that of one-time passwords.
--
-- A node keeps an inventory of items: units, sensors, lvars and macros. Services send raw events and
-- calls over a bus; the core changes the states of items accordingly, stores them and announces
-- them. Replication services bring the items of other nodes, which stand in the inventory under
-- their source. Calls of actions go through the action manager, which follows each action until it
-- has finished and keeps a history. A sequence launches actions one after another or in batches.
--
-- Of the services beside the core, the Modbus controller writes and reads registers of devices, with
-- retries and verification, and the ACL service stores access control lists and combines those of a
-- user to the one that other services check. The logic manager takes the states that the core
-- announces: its rules run macros, its cycles run them at an interval, its openers turn an action on a
-- unit into a sequence of actions on ports, and its parsers take a state apart into states of other
-- items. The expiration service watches the states of items and announces an error for those that
-- are not updated in time. The service of one-time passwords checks a second factor at a login.
--
-- Which file models what:
--   Common            what the core takes from eva_common, regex and submap, and the numbers of f64:
--                     types, operations and laws that are parameters of everything else
--   Items.State       eva/src/items.rs: ItemState, Logic and the methods that change a state
--   Items.Data        eva/src/items.rs: ItemData, ItemSource, ItemConfigData, check_item_data,
--                     from_repl_item, db_state, state_and_info
--   Items.Filter      eva/src/items.rs: NodeFilter, Filter
--   Items.Tree        eva/src/items.rs: ItemTree, get_item_rec, append_item_rec, remove_item_rec,
--                     get_item_by_mask_rec
--   Items.ItemMap     eva/src/items.rs: ItemMap, a tree for each kind
--   Items.Inventory   eva/src/items.rs: Inventory, the index by source, and the operations that
--                     make items and sources
--   Actions           eva/src/actmgr.rs: Action, Filter, Manager
--   Core              eva/src/core.rs: lvar_op, destroy_source, lock_source, AutoCreate
--   Core.Event        eva/src/core.rs: process_raw_state up to process_modified, calc_delta
--   Core.Event.React  eva/src/core.rs: process_raw_state, process_modified, update_state_from_raw and
--                     its bulk, auto_create_item_from_raw
--   Core.Deploy       eva/src/core.rs: deploy_local_items
--   Core.Replicated   eva/src/core.rs: update_state_from_repl, for events that carry a state
--   Core.Remote       eva/src/core.rs: process_remote_inventory
--   Seq               eva/src/seq.rs: batches and sequences of actions, execute, terminate
--   Modbus.Types      svc/controller-modbus/src/types.rs: types of values, registers, offsets
--   Modbus.Block      svc/controller-modbus/src/modbus.rs: parse_block_value, the words of a number
--   Modbus.Client     svc/controller-modbus/src/modbus.rs: set, get, bus_set, bus_get, set_reg
--   Modbus.Config     svc/controller-modbus/src/common.rs: ActionMap::init, PullReg::init
--   Acls              svc/aaa-acl/src/main.rs: access control lists and their combination
--   Acls.Service      svc/aaa-acl/src/main.rs: acl.deploy, acl.undeploy, acl.destroy, acl.get_config,
--                     acl.export, acl.format
--   Logic             svc/controller-lm/src/rule.rs: Rule::process, process_chillout; src/main.rs:
--                     process_state; src/common.rs: what is sent to a macro
--   Logic.Cycle       svc/controller-lm/src/cycle.rs: start, stop, reset, Cycle::run
--   Logic.Opener      svc/controller-lm/src/opener.rs: Plan::generate
--   Logic.Opener.Acting
--                     svc/controller-lm/src/opener.rs: execute, ActiveOpeners, handle_action
--   Logic.Parsers     svc/controller-lm/src/parser.rs: ParserEngine, process_item_maps
--   Expiration        svc/svc-expiration/src/main.rs: watchers, checker, handle_frame
--   Otp               svc/aaa-otp/src/main.rs: otp.check, otp.destroy, otp.list
--   Examples          the theorems at concrete inputs
--   Base              names of the libraries, equality, dictionaries, integers, lists, text
--
-- How the code is read:
--   * A HashMap is an association list (Base.Dict); the order of iteration is that of the list.
--   * An item is an `Arc`. Its mutex with the state, its flag `enabled` and the flags of a source
--     stand in a heap (Items.Inventory.World), at the address that the `Arc` holds.
--   * A method that takes `&mut self` returns the new value next to its result. Error kinds are kept,
--     their messages are not. Logging is left out.
--   * The clock, fresh UUIDs and the answers of the bus are arguments.
--   * An OID path is split at '/' as str::split does. Trees and chunks are walked by structural
--     recursion, so no fuel is needed there.
--   * Two loops of the services need not end: the one that catches up with the clock (Expiration) and
--     the recursion of Plan::generate (Logic.Opener). They run on fuel: more rounds than the clock is
--     ahead are enough for the first, since each round takes a positive step; two calls within one
--     another for the second, since a move to a limit needs none and one from it at most one move.
--   * usize counters are natural numbers; the i64 of lvars has its bounds written out. The
--     arithmetic of f64 is a parameter without laws.
--   * A StatusCodes gives the codes of action statuses, in the order on which the code relies. A
--     trigger is the number of times that it was fired.
--
-- What a launch does to the world of a sequence, and the limit of its time, are a Seq.Runtime, a
-- parameter: tasks of a batch run in an order that the code does not choose.
--
-- The values of eva_common and the bits of eva_sdk are a Modbus.Types.Sdk; the device with the
-- transport is a Modbus.Client.Link. The additions of u16 wrap, as they do in a release build.
--
-- The registry, the bus and the Unicode table for the ACL service are an Acls.Service.Surroundings.
--
-- Conditions, numbers and the packing of macro parameters are a Logic.Sdk. The hash set of the rules
-- that subscribe to a path is a list in any order. A cycle, an instance of the expiration service and
-- a chill-out are followed over rows of steps. The start and the stop of a cycle load the status and
-- store it in two steps, with what the load has seen in between; one start at a time is assumed. The
-- test and the store at the end of a cycle's loop are one step, since what comes between them leaves
-- the same states. A call of otp.check or otp.destroy changes the table in one step and writes to the
-- registry in another; calls of one login are assumed to come one at a time. The check of the
-- expiration service takes its tests and marks together. The topics of eva_common are an Expiration.Bus; the registry and libreauth an Otp.Surroundings.
--
-- What the parameters must satisfy: an equality of OIDs that decides equality, and OIDs that their
-- kind and full id determine. The theorems on ranges and conditions assume that none tells equal
-- values apart, and the one on the registry of secrets that it holds what was set last.
--
-- Not modelled: serialization, logging, the SQL database, processes, the bus itself, start-up, and
-- the other services under svc/, the jobs of the logic manager and the handlers of core.rs that
-- are not named above. The lock of the state processor orders the handlers, which are atomic steps
-- here; where a handler locks it while its caller holds it, the result is that it waits (the Turn of
-- Core.Event.React). Announcements are taken to succeed.
pub mod Base
pub mod Common
pub mod Items
pub mod Actions
pub mod Core
pub mod Seq
pub mod Modbus
pub mod Acls
pub mod Logic
pub mod Expiration
pub mod Otp
pub mod Examples
