-- ===== src/Install/Tree/Postorder.antt =====
-- src/install.c: the order of the calls of `remove_tree`.
use hacman.Install.Tree.{
  Node, Entries, file, link, dir, end, entry, Call, chmods, unlinks, rmdirs, Kernel, Removal,
  Emptying, fails, child_path, unlink_node, rmdir_node, close_dir, remove_dir, remove_entry,
  remove_tree, remove_entries,
}
use hacman.Base.{
  Bool, true, false, not, ◌&&◌, ◌||◌, none, List, [], ◌∷◌, ◌++◌, if◌then◌else◌, Bytes, Bool-cases,
  ◌≡◌, refl, ap, ◌∙◌, arith, inl, inr, append_assoc,
}

abbrev pub permit : Bool → Bytes → List Call
permit true path = []
permit false path = chmods path ∷ []

-- Every entry before its directory, each with its own call: a link is unlinked like a file, and a
-- directory that its owner cannot change is first made writable.
unfoldable mutual
  pub postorder : Bytes → Node → List Call
  postorder path (file text) = unlinks path ∷ []
  postorder path (link target) = unlinks path ∷ []
  postorder path (dir r w x es) =
      permit (r && w && x) path ++ (postorder_entries path es ++ rmdirs path ∷ [])

  pub postorder_entries : Bytes → Entries → List Call
  postorder_entries path end = []
  postorder_entries path (entry name node more) =
      postorder (child_path path name) node ++ postorder_entries path more

-- The whole subtree was removed, in this order.
abbrev pub IsRemoved : List Call → Removal → Type 0
IsRemoved calls r = (r.left ≡ none) × (r.calls ≡ calls)

abbrev pub IsEmptied : List Call → Emptying → Type 0
IsEmptied calls e = (e.left ≡ end) × (e.calls ≡ calls)

unlink_node-IsRemoved :
    (k : Kernel) (path : Bytes) (node : Node)
    → (unlink_node k path node).ok ≡ true
    → IsRemoved (unlinks path ∷ []) (unlink_node k path node)
unfolding unlink_node
unlink_node-IsRemoved k path node h = elim (Bool-cases (k.unlink path)) [
  | inl e ↦ rw e (refl, refl)
  | inr e ↦ absurd (ground arith)
]

rmdir_node-IsRemoved :
    (k : Kernel) (path : Bytes) (calls : List Call) (es : Entries)
    → (rmdir_node k path calls es).ok ≡ true
    → es ≡ end
    → IsRemoved (calls ++ rmdirs path ∷ []) (rmdir_node k path calls es)
unfolding rmdir_node
rmdir_node-IsRemoved k path calls end h e = elim (Bool-cases (k.rmdir path)) [
  | inl e ↦ rw e (refl, refl)
  | inr e ↦ absurd (ground arith)
]
rmdir_node-IsRemoved k path calls (entry name node more) h e = absurd (ground arith)

close_dir-IsRemoved :
    (k : Kernel) (path : Bytes) (pre calls : List Call) (e : Emptying)
    → (e.ok ≡ true → IsEmptied calls e)
    → (close_dir k path pre e).ok ≡ true
    → IsRemoved (pre ++ (calls ++ rmdirs path ∷ [])) (close_dir k path pre e)
unfolding close_dir
close_dir-IsRemoved k path pre calls e empty h =
    elim (Bool-cases (e.ok && k.ends path && k.closedir path)) [
      | inr fault ↦ absurd (ground arith)
      | inl fine ↦
          let (gone, same) = empty (ground arith) in
          let done : (rmdir_node k path (pre ++ e.calls) e.left).ok ≡ true = ground arith in
          let (left, all) = rmdir_node-IsRemoved k path (pre ++ e.calls) e.left done gone in
          rw fine (
            left,
            all
                ∙ append_assoc pre e.calls (rmdirs path ∷ [])
                ∙ ap (λ c. pre ++ (c ++ rmdirs path ∷ [])) same,
          )
    ]

remove_dir-IsRemoved :
    (k : Kernel) (path : Bytes) (r w x : Bool) (es : Entries) (calls : List Call) (e : Emptying)
    → (e.ok ≡ true → IsEmptied calls e)
    → (remove_dir k path r w x es e).ok ≡ true
    → IsRemoved
        (permit (r && w && x) path ++ (calls ++ rmdirs path ∷ []))
        (remove_dir k path r w x es e)
unfolding remove_dir
remove_dir-IsRemoved k path r w x es calls e empty h = elim (Bool-cases (r && w && x)) [
  | inl all ↦ elim (Bool-cases (k.opendir path)) [
    | inl o ↦
        let done : (close_dir k path [] e).ok ≡ true = ground arith in
        rw (all, o) (close_dir-IsRemoved k path [] calls e empty done)
    | inr o ↦ absurd (ground arith)
  ]
  | inr some_missing ↦ elim (Bool-cases (k.chmod path)) [
    | inl c ↦ elim (Bool-cases (k.opendir path)) [
      | inl o ↦
          let done : (close_dir k path (chmods path ∷ []) e).ok ≡ true = ground arith in
          rw (some_missing, c, o) (close_dir-IsRemoved k path (chmods path ∷ []) calls e empty done)
      | inr o ↦ absurd (ground arith)
    ]
    | inr c ↦ absurd (ground arith)
  ]
]

remove_entry-IsEmptied :
    (k : Kernel) (path name : Bytes) (node : Node) (more : Entries) (this : Removal)
    (rest : Emptying) (here behind : List Call)
    → (this.ok ≡ true → IsRemoved here this)
    → (rest.ok ≡ true → IsEmptied behind rest)
    → (remove_entry k path name node more this rest).ok ≡ true
    → IsEmptied (here ++ behind) (remove_entry k path name node more this rest)
unfolding remove_entry
remove_entry-IsEmptied k path name node more this rest here behind one others h =
    let child = child_path path name in
    elim (Bool-cases (not (k.reads child) || not (k.malloc child))) [
      | inl fault ↦ absurd (ground arith)
      | inr fine ↦ elim (Bool-cases this.ok) [
        | inr fault ↦ absurd (ground arith)
        | inl good ↦
            let (left, calls) = one good in
            let (empty, behind_calls) = others (ground arith) in
            rw (fine, good)
              (empty, ap (λ c. c ++ rest.calls) calls ∙ ap (λ c. here ++ c) behind_calls)
      ]
    ]

inspected_lem :
    (b : Bool) (calls : List Call) (node : Node) (r : Removal)
    → (r.ok ≡ true → IsRemoved calls r)
    → (if b then r else fails [] node).ok ≡ true
    → IsRemoved calls (if b then r else fails [] node)
inspected_lem true calls node r f h = f h
inspected_lem false calls node r f h = absurd (ground arith)

mutual
  unfolding remove_tree postorder

  pub remove_tree-IsRemoved :
      (k : Kernel) (path : Bytes) (node : Node)
      → (remove_tree k path node).ok ≡ true
      → IsRemoved (postorder path node) (remove_tree k path node)
  remove_tree-IsRemoved k path (file text) h =
      inspected_lem (k.lstat path) _ (file text) (unlink_node k path (file text))
        (unlink_node-IsRemoved k path (file text)) h
  remove_tree-IsRemoved k path (link target) h =
      inspected_lem (k.lstat path) _ (link target) (unlink_node k path (link target))
        (unlink_node-IsRemoved k path (link target)) h
  remove_tree-IsRemoved k path (dir r w x es) h =
      let emptied = remove_entries k path es in
      inspected_lem (k.lstat path) _ (dir r w x es) (remove_dir k path r w x es emptied)
        (remove_dir-IsRemoved k path r w x es (postorder_entries path es) emptied
          (remove_entries-IsEmptied k path es))
        h

  pub remove_entries-IsEmptied :
      (k : Kernel) (path : Bytes) (es : Entries)
      → (remove_entries k path es).ok ≡ true
      → IsEmptied (postorder_entries path es) (remove_entries k path es)
  remove_entries-IsEmptied k path end h = (refl, refl)
  remove_entries-IsEmptied k path (entry name node more) h =
      remove_entry-IsEmptied k path name node more (remove_tree k (child_path path name) node)
        (remove_entries k path more) (postorder (child_path path name) node)
        (postorder_entries path more) (remove_tree-IsRemoved k (child_path path name) node)
        (remove_entries-IsEmptied k path more) h

-- When `remove_tree` returns 0, the tree is gone, and the calls were: every entry before its
-- directory, each once, links unlinked and never followed, and nothing outside the tree.
pub remove_tree-postorder :
    (k : Kernel) (path : Bytes) (node : Node)
    → (remove_tree k path node).ok ≡ true
    → ((remove_tree k path node).left ≡ none)
      × ((remove_tree k path node).calls ≡ postorder path node)
remove_tree-postorder = remove_tree-IsRemoved
