-- ===== src/Backup/Gather.antt =====
-- tsync/backup.go: the worker phase of `RunBackup` and the gathering of its results. The workers
-- are a schedule: each turn takes one of the entries that are left, and the caller's cancellations
-- stand where they arrive. So every entry is taken once, in any order. The results are gathered in
-- that order.
use t_sync_sdk_go.Base.{
  ℕ, zero, suc, Bool, Option, none, some, List, [], ◌∷◌, bytes_eq, if◌then◌else◌, eqb, contains,
}
use t_sync_sdk_go.Base.Bytes.{Bytes, split, slash, trim_slash}
use t_sync_sdk_go.Base.Dict
use t_sync_sdk_go.Base.Dict.{Dict}
use t_sync_sdk_go.Errors.{GoError, sentinel, plain, wrap, both, incomplete_run, Result, ok, err}
use t_sync_sdk_go.Metadata.{FileLeaf, FileRecord, Storage}
use t_sync_sdk_go.Tree.{DirNode, new_dir, add_dir, add_file}
use t_sync_sdk_go.Backup.Options.{is_set}
use t_sync_sdk_go.Backup.Part.{SourceEntry, Zip, Writers, first_error}
use t_sync_sdk_go.Backup.Upload.{
  Pass, Outcome, folder, stored, stopped, Meanwhile, undisturbed, RunState, process, cancel,
}

-- What happens in the worker phase, in turn.
pub data Event : Type 0 where
  take_entry : SourceEntry → Meanwhile → Event
  caller_cancels : GoError → Event

-- A turn of the schedule: the entry in place `n` of those that are left is taken, and what happens
-- meanwhile; or the caller cancels.
pub data Turn : Type 0 where
  takes : ℕ → Meanwhile → Turn
  cancels : GoError → Turn

-- The element in place `n`, or the last one, and the others.
unfoldable pub pick {ℓ} : {A : Type ℓ} → ℕ → A → List A → A × List A
pick zero e es = (e, es)
pick (suc n) e [] = (e, [])
pick (suc n) e (f ∷ es) = let (x, rest) = pick n f es in (x, e ∷ rest)

-- The entries that no turn has named.
unfoldable pub left_over : List SourceEntry → List Event
left_over [] = []
left_over (e ∷ es) = take_entry e undisturbed ∷ left_over es

-- What happens to the entries of a task channel on a schedule: the channel gives each of them once,
-- and those that no turn names come last.
unfoldable pub events_of : List Turn → List SourceEntry → List Event
unfolding pick left_over
events_of [] es = left_over es
events_of (cancels e ∷ turns) es = caller_cancels e ∷ events_of turns es
events_of (takes n m ∷ turns) [] = events_of turns []
events_of (takes n m ∷ turns) (e ∷ es) =
    let (x, rest) = pick n e es in take_entry x m ∷ events_of turns rest

module _ (S : Storage) (W : Writers S) (zip : Zip) (pass : Pass) where
  -- The workers on a schedule: the outcomes, in its order.
  unfoldable pub work : List Event → RunState S W zip pass → RunState S W zip pass × List Outcome
  work [] st = (st, [])
  work (caller_cancels e ∷ events) st = work events (cancel S W zip pass e st)
  work (take_entry entry m ∷ events) st =
      let (st', outcome) = process S W zip pass entry m st in
      let (st'', outcomes) = work events st' in (st'', outcome ∷ outcomes)

-- The results gathered from the channel.
pub record Gathered : Type 0 where
  pub path_to_file_key : Dict Bytes Bytes
  pub files_pool : Dict Bytes FileRecord
  pub dir_paths : List Bytes
  pub first_err : Option GoError
  pub done_count : ℕ

abbrev pub nothing_gathered : Gathered
nothing_gathered = record {
  path_to_file_key = [];
  files_pool = [];
  dir_paths = [];
  first_err = none;
  done_count = 0;
}

-- One round of the loop over the results.
unfoldable pub gather_one : Outcome → Gathered → Gathered
gather_one (stopped path e) g = record g {
  first_err = elim g.first_err [ some x ↦ some x | none ↦ some e ];
}
gather_one (folder path) g = elim g.first_err [
  | some x ↦ g
  | none ↦ record g {
    dir_paths =
        (let d = trim_slash path in
          if contains g.dir_paths d then g.dir_paths else d ∷ g.dir_paths);
    done_count = suc g.done_count;
  }
]
gather_one (stored path key rec) g = elim g.first_err [
  | some x ↦ g
  | none ↦ record g {
    path_to_file_key = Dict.insert path key g.path_to_file_key;
    files_pool = Dict.insert key rec g.files_pool;
    done_count = suc g.done_count;
  }
]

unfoldable pub gather : List Outcome → Gathered → Gathered
gather [] g = g
gather (o ∷ os) g = gather os (gather_one o g)

-- `runError`: whether the caller has cancelled, the cause of the run context, the first error.
unfoldable pub run_error : Bool → Option GoError → Option GoError → ℕ → ℕ → Option GoError
run_error parent_done cause first_err done total = elim (first_error cause first_err) [
  | some c ↦ if parent_done then some (both (sentinel incomplete_run) c) else some c
  | none ↦ if eqb done total then none else some (wrap (sentinel incomplete_run))
]

-- The folders, then the files of the new tree.
unfoldable pub add_dirs : List Bytes → DirNode → DirNode
add_dirs [] root = root
add_dirs (d ∷ ds) root = add_dirs ds (if is_set d then add_dir (split slash d) root else root)

abbrev pub leaf_of : FileRecord → FileLeaf
leaf_of rec = record { crc32 = rec.crc32; uncompressed_size = rec.uncompressed_size }

-- A key without a record, where Go would panic, is an error.
unfoldable pub add_files : Dict Bytes Bytes → Dict Bytes FileRecord → DirNode → Result DirNode
add_files [] pool root = ok root
add_files ((p, key) ∷ paths) pool root = elim (Dict.lookup key pool) [
  | none ↦ err plain
  | some rec ↦ elim (add_file (split slash p) (leaf_of rec) root) [
    | err e ↦ err e
    | ok root' ↦ add_files paths pool root'
  ]
]

unfoldable pub make_root : Gathered → Result DirNode
make_root g = add_files g.path_to_file_key g.files_pool (add_dirs g.dir_paths new_dir)
