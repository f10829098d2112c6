-- ===== src/State.antt =====
-- The state of src/fl_executor.c: the execution with its nodes and counters, the list of messages
-- to handle, and what the executor writes to the disk. A key that a JSON object may lack is an
-- `Option`. The time stamps of a node (`ctime`, `mtime`), which no other code here reads, are left
-- out.
pub mod Store
pub mod Tree
mod Tests
use flon.Base.{
  ℕ, zero, suc, ◌+◌, Bool, true, false, ◌||◌, Option, none, some, List, [], ◌∷◌, ◌++◌, ◌==◌,
  if◌then◌else◌,
}
use flon.Base.Text.{Text, codes, text_eq}
use flon.Ids.{text_or}
use flon.Json.{Value, Fields, obj, end, get, put}

-- The `parent` of a node: absent, null, or a node id.
pub data Parent : Type 0 where
  absent : Parent
  null_parent : Parent
  parent_nid : Text → Parent

-- An entry of the `timers` of a node: an `at` or a `cron`, with its marks.
pub record Timer : Type 0 where
  pub is_cron : Bool
  pub ts : Text
  pub cancelled : Bool
  pub triggered : Bool

-- The `map` of a node that runs that instruction. A null callname is absent.
pub record MapState : Type 0 where
  pub values : Value
  pub callname : Option Value
  pub rets : List Value
  pub index : Option ℕ

pub record Node : Type 0 where
  pub nid : Text
  pub parent : Parent
  pub inst : Option Text
  pub tree : Option Value
  pub vars : Option Fields
  pub children : Option (List Text)
  pub bastards : Option (List Text)
  pub rets : Option (List Value)
  pub errors : Option (List Value)
  pub status : Option Text
  pub timers : Option (List Timer)
  pub wars : Option Fields
  pub map : Option MapState
  pub task : Option Value

pub record Msg : Type 0 where
  pub point : Option Text
  pub n : Option ℕ
  pub nid : Option Text
  pub parent : Option Text
  pub from : Option Text
  pub tree : Option Value
  pub payload : Option Value
  pub vars : Option Value
  pub error : Option Value
  pub trigger : Option (Text × Text)
  pub fname : Option Text

-- `fdja_object_malloc()` for a message
abbrev pub empty_msg : Msg
empty_msg = record {
  point = none;
  n = none;
  nid = none;
  parent = none;
  from = none;
  tree = none;
  payload = none;
  vars = none;
  error = none;
  trigger = none;
  fname = none;
}

-- An unschedule order, as `flon_schedule_msg` writes one to var/spool/dis/.
pub record Order : Type 0 where
  pub type : Text
  pub ts : Text
  pub nid : Text

-- A file var/spool/dis/sch_<exid>-<nid>.json: an order, or nothing, as the file is emptied before it
-- is locked, and stays so where the lock is not to be had.
pub data SchFile : Type 0 where
  order : Order → SchFile
  emptied : SchFile

pub record Exec : Type 0 where
  pub nodes : List (Text × Node)
  pub msg_counter : ℕ
  pub counter : ℕ
  pub msgs : List Msg
  -- none in a transient execution
  pub msg_log : Option (List Msg)
  -- the files sch_ of the nodes, and whether another process holds the lock on one
  pub orders : List (Text × SchFile)
  pub locked : Text → Bool
  -- the files moved out of var/spool/exe/, and why
  pub processed : List Text
  pub rejected : List (Text × Text)

-- The nodes of an execution, by id.
unfoldable pub find_in : Text → List (Text × Node) → Option Node
find_in k [] = none
find_in k ((j, v) ∷ l) = let rest = find_in k l in if text_eq j k then some v else rest

unfoldable pub set_in : Text → Node → List (Text × Node) → List (Text × Node)
set_in k v [] = (k, v) ∷ []
set_in k v ((j, w) ∷ l) =
    let rest = set_in k v l in if text_eq j k then (k, v) ∷ l else (j, w) ∷ rest

unfoldable pub update_in : Text → (Node → Node) → List (Text × Node) → List (Text × Node)
update_in k f [] = []
update_in k f ((j, w) ∷ l) =
    let rest = update_in k f l in if text_eq j k then (j, f w) ∷ l else (j, w) ∷ rest

unfoldable pub remove_in : Text → List (Text × Node) → List (Text × Node)
remove_in k [] = []
remove_in k ((j, w) ∷ l) = let rest = remove_in k l in if text_eq j k then l else (j, w) ∷ rest

-- flon_node(nid), of src/fl_exe_nodes.c
unfoldable pub find_node : Exec → Text → Option Node
find_node s nid = find_in nid s.nodes

abbrev pub set_node : Text → Node → Exec → Exec
set_node nid v s = record s { nodes = set_in nid v s.nodes }

abbrev pub update_node : Text → (Node → Node) → Exec → Exec
update_node nid f s = record s { nodes = update_in nid f s.nodes }

abbrev pub remove_node : Text → Exec → Exec
remove_node nid s = record s { nodes = remove_in nid s.nodes }

-- `*type == c`
abbrev pub starts_with_byte : ℕ → Text → Bool
starts_with_byte c [] = false
starts_with_byte c (x ∷ t) = x == c

abbrev pub empty_payload : Option Value → Option Value
empty_payload none = some (obj end)
empty_payload (some v) = some v

-- The object that `flon_queue_msg` makes of `m`. A null `from_nid` is written as an empty text.
unfoldable pub stamp : Text → Text → Option Text → ℕ → Msg → Msg
stamp type nid from_nid n m =
    let is_execute = starts_with_byte b'e' type in
    record m {
      point = some type;
      n = some n;
      nid = some nid;
      parent = if is_execute then some (text_or from_nid []) else m.parent;
      from = if is_execute then m.from else some (text_or from_nid []);
      payload =
          if is_execute || starts_with_byte b'r' type then empty_payload m.payload else m.payload;
    }

-- flon_queue_msg(type, nid, from_nid, m), with n_next()
unfoldable pub queue_msg : Text → Text → Option Text → Msg → Exec → Exec
unfolding stamp
queue_msg type nid from_nid m s =
    let n = s.msg_counter + 1 in
    record s { msg_counter = n; msgs = s.msgs ++ stamp type nid from_nid n m ∷ [] }

-- do_log(msg)
abbrev pub do_log : Msg → Exec → Exec
do_log m s = elim s.msg_log [ none ↦ s | some l ↦ record s { msg_log = some (l ++ m ∷ []) } ]

-- A file is written anew.
unfoldable pub write_file : Text → SchFile → List (Text × SchFile) → List (Text × SchFile)
write_file k f [] = (k, f) ∷ []
write_file k f ((j, e) ∷ l) =
    let rest = write_file k f l in if text_eq j k then (k, f) ∷ l else (j, e) ∷ rest

-- flon_unschedule_msg(type, ts, nid): nothing in a transient execution. Each node has one file, which
-- an order overwrites; the dispatcher, which takes such files away, stands still meanwhile. Where the file cannot be opened, flon_lock_write closes a null pointer; that
-- is left out.
unfoldable pub unschedule_msg : Text → Text → Text → Exec → Exec
unfolding write_file
unschedule_msg type ts nid s = elim s.msg_log [
  | none ↦ s
  | some l ↦ record s {
    orders =
        write_file nid
          (if s.locked nid then emptied else order (record { type = type; ts = ts; nid = nid }))
          s.orders;
    msg_log = some (l ++ record empty_msg { point = some (codes "unschedule") } ∷ []);
  }
]

-- flon_move_to_processed and flon_move_to_rejected, on a file of var/spool/exe/
abbrev pub move_to_processed : Option Text → Exec → Exec
move_to_processed none s = s
move_to_processed (some fname) s = record s { processed = s.processed ++ fname ∷ [] }

abbrev pub move_to_rejected : Option Text → Text → Exec → Exec
move_to_rejected fname reason s = record s {
  rejected = s.rejected ++ (text_or fname (codes "(null)"), reason) ∷ [];
}

-- `payload.ret` of a message: an entry of the payload, where that is an object.
abbrev pub payload_get : Text → Option Value → Option Value
payload_get k (some (obj fs)) = get k fs
payload_get k _ = none

abbrev pub payload_put : Text → Value → Option Value → Option Value
payload_put k v (some (obj fs)) = some (obj (put k v fs))
payload_put k v p = p

abbrev pub ret : Msg → Option Value
ret m = payload_get (codes "ret") m.payload

abbrev pub set_ret : Value → Msg → Msg
set_ret v m = record m { payload = payload_put (codes "ret") v m.payload }

-- create_node(msg, nid, parent_nid, tree). The variables of a message are an object.
abbrev pub vars_of : Option Value → Bool → Option Fields
vars_of (some (obj fs)) is_root = some fs
vars_of _ is_root = if is_root then some end else none

unfoldable pub new_node : Msg → Text → Option Text → Value → Node
new_node m nid parent_of tree =
    let is_root = text_eq nid (codes "0") in
    record {
      nid = nid;
      parent = elim parent_of [ none ↦ null_parent | some p ↦ parent_nid p ];
      inst = none;
      tree = if is_root then some tree else none;
      vars = vars_of m.vars is_root;
      children = none;
      bastards = none;
      rets = none;
      errors = none;
      status = none;
      timers = none;
      wars = none;
      map = none;
      task = none;
    }

abbrev pub create_node : Msg → Text → Option Text → Value → Exec → Exec
create_node m nid parent_of tree s = set_node nid (new_node m nid parent_of tree) s
