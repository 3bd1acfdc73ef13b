-- ===== src/Stamp.antt =====
-- tools/stamp.c: the build step that writes the digest of a binary into its slot, and the check of
-- it. The numbers of <elf.h> and the hash of vendor/xxhash are parameters.
pub mod Slot
pub mod Fields
pub mod Search
pub mod Checked
use hacman.Cache.Save.{Files, put}
use hacman.Stamp.Slot.{Elf, Bits, wr64, rd, find_slot, slot_size}
use hacman.Base.{
  ℕ, ◌+◌, Bool, true, false, not, ◌&&◌, ◌||◌, Option, none, some, List, [], ◌∷◌, ◌++◌, ltb, ◌==◌,
  if◌then◌else◌, take, drop, length, get_or, Bytes, bytes_eq, codes,
}

-- The answers of the calls in `save`, `true` for success. When `fclose` is reached, the file holds
-- what was written; a failure of `fwrite` is counted with `fclose`.
pub record SaveAnswers : Type 0 where
  pub memory : Bool
  pub create : Bool
  pub close : Bool
  pub chmod : Bool
  pub rename : Bool
  pub remove : Bool

-- `save`: the file system at the end and whether it returns 0; a file that is not closed well may
-- hold anything, here nothing.
unfoldable pub save : SaveAnswers → Bytes → Bytes → Files → Files × Bool
save a bytes path files =
    let tmp = path ++ codes ".tmp" in
    let text = if a.close then bytes else [] in
    let gone = if a.remove then put tmp none files else put tmp (some text) files in
    if not a.memory || not a.create
    then (files, false)
    else if a.close && a.chmod && a.rename
    then (put path (some bytes) (put tmp none files), true)
    else (gone, false)

-- `load` of a file that can be opened, sized and read.
abbrev pub load : Files → Bytes → Option Bytes
load files path = files path

-- The loop that looks for a byte of the slot that is not 0.
unfoldable pub all_zero : Bytes → Bool
all_zero [] = true
all_zero (c ∷ s) = c == 0 && all_zero s

-- The bytes of a stamped file.
unfoldable pub stamped : Elf → (Bytes → ℕ) → Bytes → Option Bytes
stamped elf hash bytes = elim (find_slot elf bytes) [
  | none ↦ none
  | some (bits, slot) ↦
      if all_zero (take slot_size (drop slot bytes))
      then some (wr64 bits bytes slot (hash bytes))
      else none
]

-- `stamp`: the exit code; `stat` is the answer of that call.
unfoldable pub stamp : Elf → (Bytes → ℕ) → Bool → SaveAnswers → Bytes → Bytes → Files → Files × ℕ
stamp elf hash stat a source target files = elim (load files source) [
  | none ↦ (files, 1)
  | some bytes ↦ elim (stamped elf hash bytes) [
    | none ↦ (files, 1)
    | some out ↦
        let saved = save a out target files in
        if stat then (saved.0, if saved.1 then 0 else 1) else (files, 1)
  ]
]

-- `check`: the digest that it prints.
unfoldable pub check : Elf → (Bytes → ℕ) → Bytes → Option ℕ
check elf hash bytes = elim (find_slot elf bytes) [
  | none ↦ none
  | some (bits, slot) ↦
      let stored = rd bits bytes slot slot_size in
      let actual = hash (wr64 bits bytes slot 0) in if stored == actual then some stored else none
]
