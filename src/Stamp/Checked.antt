-- ===== src/Stamp/Checked.antt =====
-- tools/stamp.c: `check` on a file that was stamped.
use hacman.Stamp.Fields.{rd-wr64, wr64-wr64, wr64-zero}
use hacman.Stamp.Search.{find_slot_inside}
use hacman.Stamp.{all_zero, stamped, check}
use hacman.Stamp.Slot.{Elf, Bits, rd, wr64, find_slot, slot_size}
use mathlib.Core.Option.{some-injective}
use hacman.Base.{
  ℕ, ◌^◌, ◌<◌, true, none, some, ◌==◌, take, drop, Bytes, ◌≡◌, refl, sym, ap, ◌∙◌, inl, inr,
  Bool-cases, Option-cases, ==_iff,
}

-- What is known of a file that was stamped.
stamped_inv :
    (elf : Elf) (hash : Bytes → ℕ) (b out : Bytes)
    → stamped elf hash b ≡ some out
    → (bits : Bits) × (slot : ℕ) × (find_slot elf b ≡ some (bits, slot))
      × (all_zero (take slot_size (drop slot b)) ≡ true)
      × (out ≡ wr64 bits b slot (hash b))
unfolding stamped
stamped_inv elf hash b out h = elim (Option-cases (find_slot elf b)) [
  | inl e ↦
      let eq : stamped elf hash b ≡ none = rw (e, stamped) refl in
      let no : none ≡ some out = sym eq ∙ h in absurd cc
  | inr ((bits, slot), e) ↦ elim (Bool-cases (all_zero (take slot_size (drop slot b)))) [
    | inl z ↦
        let eq : stamped elf hash b ≡ some (wr64 bits b slot (hash b)) = rw (e, stamped, z) refl in
        (bits, slot, e, z, sym (some-injective (wr64 bits b slot (hash b)) out (sym eq ∙ h)))
    | inr z ↦
        let eq : stamped elf hash b ≡ none = rw (e, stamped, z) refl in
        let no : none ≡ some out = sym eq ∙ h in absurd cc
  ]
]

-- A file that `hm-stamp` has stamped passes `hm-stamp --check`, which prints the digest of the file
-- as it was linked: for every hash of 64 bits, when writing the slot has not changed where the
-- section headers say the slot is.
pub check-stamped :
    (elf : Elf) (hash : Bytes → ℕ) (b out : Bytes)
    → ((s : Bytes) → hash s < 2 ^ 64)
    → stamped elf hash b ≡ some out
    → find_slot elf out ≡ find_slot elf b
    → check elf hash out ≡ some (hash b)
unfolding check
check-stamped elf hash b out h64 h same =
    let (bits, slot, found, clear, written) = stamped_inv elf hash b out h in
    let inside = find_slot_inside elf b bits slot found in
    let stored : rd bits out slot slot_size ≡ hash b =
      ap (λ o. rd bits o slot slot_size) written ∙ rd-wr64 bits b slot (hash b) inside (h64 b) in
    let cleared : wr64 bits out slot 0 ≡ b =
      ap (λ o. wr64 bits o slot 0) written
      ∙ wr64-wr64 bits b slot (hash b) 0 inside
      ∙ wr64-zero bits b slot inside clear in
    let equal : (hash b == hash b) ≡ true = (==_iff (hash b) (hash b)).1 refl in
    rw (same ∙ found, check, stored, cleared, equal) refl
