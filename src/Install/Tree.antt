-- ===== src/Install/Tree.antt =====
-- src/install.c, `remove_tree`: the stale work directory is emptied bottom-up. A directory has its
-- owner's permissions and its entries; a symbolic link is an entry like a file.
pub mod Postorder
pub mod Willing
use hacman.Base.{
  Bool, true, false, not, ◌&&◌, ◌||◌, Option, none, some, List, [], ◌∷◌, ◌++◌, if◌then◌else◌, Bytes,
  codes,
}

mutual
  pub data Node : Type 0 where
    file : Bytes → Node
    link : Bytes → Node
    dir : Bool → Bool → Bool → Entries → Node

  -- `.` and `..`, which the loop skips, are left out.
  pub data Entries : Type 0 where
    end : Entries
    entry : Bytes → Node → Entries → Entries

-- The calls that change something, with their paths.
pub data Call : Type 0 where
  chmods : Bytes → Call
  unlinks : Bytes → Call
  rmdirs : Bytes → Call

-- The answers, for each path: `true` is success. `reads` is `readdir` for an entry, `ends` is
-- `readdir` at the end.
pub record Kernel : Type 0 where
  pub lstat : Bytes → Bool
  pub chmod : Bytes → Bool
  pub opendir : Bytes → Bool
  pub reads : Bytes → Bool
  pub malloc : Bytes → Bool
  pub ends : Bytes → Bool
  pub closedir : Bytes → Bool
  pub rmdir : Bytes → Bool
  pub unlink : Bytes → Bool

-- The calls so far, what is left, and whether 0 is returned.
pub record Removal : Type 0 where
  pub calls : List Call
  pub left : Option Node
  pub ok : Bool

pub record Emptying : Type 0 where
  pub calls : List Call
  pub left : Entries
  pub ok : Bool

abbrev pub fails : List Call → Node → Removal
fails calls node = record { calls = calls; left = some node; ok = false }

abbrev pub child_path : Bytes → Bytes → Bytes
child_path path name = path ++ (b'/' ∷ name)

-- `unlink(path)`
unfoldable pub unlink_node : Kernel → Bytes → Node → Removal
unlink_node k path node =
    if k.unlink path
    then record { calls = unlinks path ∷ []; left = none; ok = true }
    else fails [] node

-- `rmdir(path)`, which the kernel refuses for a directory with entries.
unfoldable pub rmdir_node : Kernel → Bytes → List Call → Entries → Removal
rmdir_node k path calls end =
    if k.rmdir path
    then record { calls = calls ++ rmdirs path ∷ []; left = none; ok = true }
    else fails calls (dir true true true end)
rmdir_node k path calls es = fails calls (dir true true true es)

-- From the end of the loop on; the owner has all permissions by now.
unfoldable pub close_dir : Kernel → Bytes → List Call → Emptying → Removal
close_dir k path calls e =
    if e.ok && k.ends path && k.closedir path
    then rmdir_node k path (calls ++ e.calls) e.left
    else fails (calls ++ e.calls) (dir true true true e.left)

-- A directory, with the result of the loop over its entries.
unfoldable pub remove_dir : Kernel → Bytes → Bool → Bool → Bool → Entries → Emptying → Removal
remove_dir k path r w x es emptied =
    let all = r && w && x in
    let calls = if all then [] else chmods path ∷ [] in
    if not all && not (k.chmod path)
    then fails [] (dir r w x es)
    else if not (k.opendir path)
    then fails calls (dir true true true es)
    else close_dir k path calls emptied

abbrev pub rest_of : Node → Option Node → Node
rest_of node none = node
rest_of node (some n) = n

-- One round of the loop, with the results of the call for the entry and of the further rounds.
unfoldable pub remove_entry :
    Kernel → Bytes → Bytes → Node → Entries → Removal → Emptying → Emptying
remove_entry k path name node more this rest =
    let child = child_path path name in
    if not (k.reads child) || not (k.malloc child)
    then record { calls = []; left = entry name node more; ok = false }
    else if not this.ok
    then record { calls = this.calls; left = entry name (rest_of node this.left) more; ok = false }
    else record { calls = this.calls ++ rest.calls; left = rest.left; ok = rest.ok }

unfoldable mutual
  -- `remove_tree` of a path that exists.
  pub remove_tree : Kernel → Bytes → Node → Removal
  remove_tree k path (file text) =
      if k.lstat path then unlink_node k path (file text) else fails [] (file text)
  remove_tree k path (link target) =
      if k.lstat path then unlink_node k path (link target) else fails [] (link target)
  remove_tree k path (dir r w x es) =
      let emptied = remove_entries k path es in
      if k.lstat path then remove_dir k path r w x es emptied else fails [] (dir r w x es)

  -- The loop over `readdir`.
  pub remove_entries : Kernel → Bytes → Entries → Emptying
  remove_entries k path end = record { calls = []; left = end; ok = true }
  remove_entries k path (entry name node more) =
      let this = remove_tree k (child_path path name) node in
      let rest = remove_entries k path more in remove_entry k path name node more this rest

-- `hm_workdir_reset`: a path that does not exist needs nothing.
unfoldable pub workdir_reset : Kernel → Bytes → Option Node → Removal
workdir_reset k path none = record { calls = []; left = none; ok = true }
workdir_reset k path (some node) = remove_tree k path node
