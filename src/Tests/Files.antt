-- ===== src/Tests/Files.antt =====
-- The file operations of src/cache.c, src/install.c and tools/stamp.c at concrete inputs.
use hacman.Tests.Records.{sample}
use hacman.Cache.Record.RoundTrip.{IsRecordable}
use hacman.Cache.Record.{Cache}
use hacman.Cache.Load.{interrupted, got}
use hacman.Cache.Save.{
  Files, put, SaveCalls, save, tmp_path, mkdir_p, cache_parent, dirs_from, last_slash,
}
use hacman.Cache.Save.Atomic.{save-load, LoadsOldOrNew}
use hacman.Cache.Save.Outcome.{save-Kept, last_state, Kept}
use hacman.Cache.Lock.{
  stat_path, parse_stat, after_last, parent_field, LockCalls, lock, parent_pid, busy, opened,
}
use hacman.Cache.Lock.Refuses.{lock-NeverWaits, NeverWaits}
use hacman.Install.Tree.{
  remove_dir, close_dir, remove_entry, unlink_node, rmdir_node, Node, link, dir, entry, end,
  remove_tree,
}
use hacman.Install.Tree.Postorder.{remove_tree-postorder, postorder}
use hacman.Install.Tree.Willing.{willing}
use hacman.Util.Buffer.{append_str, append_long}
use hacman.Util.Number.{decimal}
use hacman.Util.Text.{c_str}
use hacman.Install.Files.{
  mkdir_p as install_mkdir_p, workdir_ensure, make_dirs, write_files, write_embedded_file,
  parent_path, fill_file, FileCalls, materialize_files,
}
use hacman.Install.Files.Written.{materialize_files-HasText, HasText}
use hacman.Project.{Project, zeroed}
use hacman.Base.{
  ℕ, true, false, Option, none, some, [], ◌∷◌, ◌≡◌, ◌≢◌, refl, ap, arith, length, All, Bytes,
  bytes_eq, codes, pos, success, failure, if◌then◌else◌,
}

-- Saving a record.
abbrev placed : Cache
placed = record sample { path = codes "/c/cmd-1" }

abbrev no_files : Files
no_files q = none

abbrev save_calls : SaveCalls
save_calls = record {
  opens = true;
  writes = got 20 ∷ interrupted ∷ [];
  renames = true;
  unlinks = true;
}

made_parents : mkdir_p (codes "/a/b") ≡ codes "/a" ∷ codes "/a/b" ∷ []
unfolding mkdir_p dirs_from
made_parents = refl

parent_of_record : cache_parent placed ≡ codes "/c"
unfolding cache_parent last_slash
parent_of_record = refl

placed-IsRecordable : IsRecordable placed
placed-IsRecordable = ground arith

save-load_example : All (LoadsOldOrNew placed no_files) (save save_calls 77 placed no_files).states
save-load_example =
    save-load save_calls 77 placed no_files (omega arith) (omega arith) placed-IsRecordable

not_record : codes "/c" ≢ placed.path
not_record e = omega (arith, ap (λ (s : Bytes). length s) e)

tmp_length : length (tmp_path placed 77) ≡ 15
unfolding tmp_path append_str append_long decimal
tmp_length = refl

not_tmp : codes "/c" ≢ tmp_path placed 77
not_tmp e = omega (arith, ap (λ (s : Bytes). length s) e, tmp_length)

save-Kept_example :
    Kept placed
      (tmp_path placed 77)
      no_files
      (codes "/c")
      (save save_calls 77 placed no_files).rc
      (last_state no_files (save save_calls 77 placed no_files).states)
save-Kept_example =
    save-Kept save_calls 77 placed no_files (codes "/c") (omega arith) (omega arith) not_record
      not_tmp

-- A lock that the grandparent holds.
abbrev proc : Bytes → Option Bytes
proc path = if bytes_eq path (codes "/proc/40/stat") then some (codes "40 (a) b) S 30 1") else none

abbrev lock_calls : LockCalls
lock_calls = record {
  first_open = opened;
  second_open = false;
  set_lock = busy;
  probe = some 30;
  ppid = pos 40;
  proc = proc;
  waits = [];
}

parent_of_40 : parent_pid proc 40 ≡ pos 30
unfolding parent_pid bytes_eq stat_path append_str append_long parse_stat after_last c_str
    parent_field
parent_of_40 = refl

lock-NeverWaits_example :
    NeverWaits (lock lock_calls placed).0 × ((lock lock_calls placed).1 ≡ failure)
lock-NeverWaits_example =
    lock-NeverWaits lock_calls placed 30 1 refl refl (omega arith) (omega arith) parent_of_40

-- Removing a tree.
abbrev tree : Node
tree =
    dir true false true
      (entry (codes "a") (link (codes "/")) (entry (codes "b") (dir true true true end) end))

tree_removed : (remove_tree willing (codes "/w") tree).ok ≡ true
unfolding remove_tree remove_dir close_dir remove_entry unlink_node rmdir_node
tree_removed = refl

remove_tree-postorder_example :
    ((remove_tree willing (codes "/w") tree).left ≡ none)
    × ((remove_tree willing (codes "/w") tree).calls ≡ postorder (codes "/w") tree)
remove_tree-postorder_example = remove_tree-postorder willing (codes "/w") tree tree_removed

-- Embedded files.
abbrev file_calls : ℕ → FileCalls
file_calls i = record {
  made = λ d. true;
  opens = true;
  fdopens = true;
  writes = true;
  closes = true;
  renames = true;
  unlinks = true;
}

abbrev two_files : Project
two_files = record zeroed {
  files =
      record { path = codes "a"; content = codes "x"; content_indent = 0; line = 1 }
      ∷ record { path = codes "d/b"; content = codes "y"; content_indent = 0; line = 2 }
      ∷ [];
}

two_files_written :
    (materialize_files file_calls (λ d. true) true 7 two_files (codes "/w") no_files).1 ≡ success
unfolding materialize_files workdir_ensure install_mkdir_p make_dirs dirs_from write_files
    write_embedded_file parent_path last_slash decimal fill_file put bytes_eq
two_files_written = refl

paths_differ : codes "d/b" ≢ codes "a"
paths_differ e = omega (arith, ap (λ (s : Bytes). length s) e)

materialize_files-HasText_example :
    All
      (HasText
        (codes "/w")
        (materialize_files file_calls (λ d. true) true 7 two_files (codes "/w") no_files).0)
      two_files.files
materialize_files-HasText_example =
    materialize_files-HasText file_calls (λ d. true) true 7 two_files (codes "/w") no_files
      ((paths_differ, tt), (tt, tt)) two_files_written
