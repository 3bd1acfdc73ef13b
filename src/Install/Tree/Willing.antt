-- ===== src/Install/Tree/Willing.antt =====
-- src/install.c: `remove_tree` when no call of it fails.
use hacman.Install.Tree.Postorder.{remove_entries-IsEmptied, remove_tree-IsRemoved}
use hacman.Install.Tree.{
  Node, Entries, file, link, dir, end, entry, Kernel, Emptying, unlink_node, rmdir_node, close_dir,
  remove_dir, remove_entry, child_path, remove_tree, remove_entries, workdir_reset, Call,
}
use hacman.Base.{Bool, true, ◌&&◌, Option, none, some, List, Bytes, ◌≡◌, refl, Bool-cases, inl, inr}

-- A kernel that refuses nothing.
abbrev pub willing : Kernel
willing = record {
  lstat = λ p. true;
  chmod = λ p. true;
  opendir = λ p. true;
  reads = λ p. true;
  malloc = λ p. true;
  ends = λ p. true;
  closedir = λ p. true;
  rmdir = λ p. true;
  unlink = λ p. true;
}

close_dir_ok :
    (path : Bytes) (calls : List Call) (e : Emptying)
    → e.ok ≡ true
    → e.left ≡ end
    → (close_dir willing path calls e).ok ≡ true
unfolding close_dir rmdir_node
close_dir_ok path calls e h l = rw (h, l, rmdir_node) refl

remove_dir_ok :
    (path : Bytes) (r w x : Bool) (es : Entries) (e : Emptying)
    → e.ok ≡ true
    → e.left ≡ end
    → (remove_dir willing path r w x es e).ok ≡ true
unfolding remove_dir
remove_dir_ok path r w x es e h l = elim (Bool-cases (r && w && x)) [
  | inl all ↦ rw all (close_dir_ok path _ e h l)
  | inr part ↦ rw part (close_dir_ok path _ e h l)
]

mutual
  unfolding remove_tree unlink_node remove_entry

  remove_tree_ok : (path : Bytes) (node : Node) → (remove_tree willing path node).ok ≡ true
  remove_tree_ok path (file text) = refl
  remove_tree_ok path (link target) = refl
  remove_tree_ok path (dir r w x es) =
      let all = remove_entries_ok path es in
      remove_dir_ok path r w x es (remove_entries willing path es) all
        (remove_entries-IsEmptied willing path es all).0

  remove_entries_ok : (path : Bytes) (es : Entries) → (remove_entries willing path es).ok ≡ true
  remove_entries_ok path end = refl
  remove_entries_ok path (entry name node more) =
      rw (remove_tree_ok (child_path path name) node) (remove_entries_ok path more)

-- Where no call fails, the work directory is gone after `hm_workdir_reset`, whatever it held:
-- deep or empty directories, read-only ones, or a link in its place.
pub workdir_reset_gone :
    (path : Bytes) (node : Option Node)
    → ((workdir_reset willing path node).ok ≡ true)
      × ((workdir_reset willing path node).left ≡ none)
unfolding workdir_reset
workdir_reset_gone path none = (refl, refl)
workdir_reset_gone path (some node) =
    let ok = remove_tree_ok path node in (ok, (remove_tree-IsRemoved willing path node ok).0)
