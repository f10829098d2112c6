-- ===== src/Lib.antt =====
-- flon: an interpreter of flows. A flow is a tree (a JSON array of a head, attributes, a line number
-- and children); an execution of it is a set of nodes, one for each part of the tree that runs, and
-- a list of messages between them.
--
-- The parts, and the files of this library that model them:
--   src/fl_ids.c: node ids, like 0_1_1f-3: a path of hexadecimal digits and a counter. Ids has the
--     operations under their names in C, less `flon_`; Ids/Paths and Ids/Next their laws. The
--     parse of an id (fabr_parse_all with the grammar of the file) is the parameter `Grammar`.
--   src/lib/djan.c: JSON values. Json has the type of values and the single accesses that the other
--     parts make; parsing and printing are not modelled.
--   src/fl_tree.c: what a tree is. Json has is_tree, Json/Trees what it accepts.
--   src/fl_exe_nodes.c, and the state of src/fl_executor.c: State has the records Node, Msg and Exec
--     for the C code's JSON objects of a node, a message and an execution, with one field for each
--     key the code reads, and the queue of messages; State/Store the laws of the store of nodes,
--     State/Tree the search for the tree and the parent of a node.
--   src/fl_exe_instructions.c, src/n/: the instructions. Inst has their type (the state, the node
--     and the message go in; an answer, the state and the message come out), Inst/Seq sequence,
--     concurrence and cand, Inst/Branch and, or, if, unless, elsif, ife, unlesse, else, noop, stall
--     and val, Inst/Cancel what is done to children, bastards and timers, Inst/Compare and
--     Inst/Arith the comparisons and the four operations, Inst/Vars the variables and set,
--     Inst/Table the table and flon_call_instruction. Inst/Extends is about what all of them do to
--     the messages.
--   src/fl_executor.c: Executor takes messages off the list and hands them to the nodes:
--     handle_execute, handle_return, the two loops and flon_execut. Executor/Numbers and
--     Executor/Lives state what it does to messages and nodes, Executor/Names which files it takes.
--   src/fl_dispatcher.c: Timers has the index of the timers and what flon_trigger fires, Dispatch
--     what becomes of each file in var/spool/dis/: flon_dispatch, schedule, dispatch, receive_task.
--   src/fl_lis_auth.c: Auth has domains, rights and the check of a password.
--   src/n/fl_rewrite.c: Rewrite turns a tree as it was parsed into one that an instruction can run.
--     Rewrite/Built has what it builds trees with, Rewrite/Heads the passes that look at the head
--     (if, unless and their post forms, set, a text for a head), Rewrite/Operators the operators
--     among the attributes, Rewrite/Passes the order of the passes and flon_rewrite_tree.
--
-- Flows has a small language of flows, sequences of sequences, noops and vals, with the trees that
-- stand for them and their meaning as a function on payloads; Flows/Refined sets the executor, the
-- instructions and the rewriting of trees against it. Flows/Turns to Flows/Runs follow a flow
-- through the executor, message by message, in a state that has any nodes before it.
--
-- An execution is one process; the order of its messages is the only order there is, so a step is
-- a function from a state to a state. Where children answer in any order, the theorems take the
-- order of the answers as a list.
--
-- Parameters: `Grammar` (the parse of a node id), `Others` (the instructions and the printing of
-- values that are not modelled), `Rewriter` (flon_rewrite_tree, as the executor calls it),
-- `Tools` and `Expander` (what rewriting asks of the instruction table and of the JSON library),
-- `scan` (what each look at the directory var/spool/exe/ finds), in Timers and Dispatch the
-- content of the files and the success of each step on files, in State which files of orders are
-- locked, in Inst/Vars the paths into values and the files of variables (`Paths`), and in Auth
-- the parsed files and the password check.
--
-- Fuel: node_tree and the loops of the executor. For node_tree, fuel above a rank that falls at
-- every step up changes nothing. flon_trigger takes one more than it has timers. rewrite_tree
-- calls itself on each tree it has made, with two more than the tree has attributes. A flow takes
-- as many messages as Flows.steps says, and two. The search for variables takes one for each node
-- on the way up. The loops of the executor answer `none` when the fuel runs out, for a flow may
-- run for ever. Ids are read as 64 bit words and kept below 2 ^ 32 where a theorem adds to them.
--
-- Not modelled: the expansion of texts (dol_lookup and expand, in src/fl_exe_instructions.c), the
-- instructions that use it or the copy of a tree (call, define, map, task), trace, log and wait,
-- the printing of executions (src/fl_scope.c), the listener, the tasker, files, processes and the
-- clock. The comparisons, the four operations and set have a model, but stand outside the table of
-- Inst/Table: the executor takes them from `Others`. Of set the first step, which expands its
-- attribute in place, is left out. So is an order whose file cannot be opened (flon_lock_write then
-- closes a null pointer), and a dispatcher that takes such a file away while a node still writes it.
pub mod Base
pub mod Auth
pub mod Ids
pub mod Json
pub mod State
pub mod Inst
pub mod Rewrite
pub mod Executor
pub mod Flows
pub mod Timers
pub mod Dispatch
