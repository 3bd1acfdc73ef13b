-- ===== src/Stamp/Search.antt =====
-- tools/stamp.c: where the slot lies that the search finds.
use hacman.Stamp.Slot.{
  Elf, Layout, Bits, Table, Section, other, malformed, slot_at, field, find_slot, slot_size,
  identified, tables, section, sections, layout_of, exactly_one,
}
use mathlib.Core.Option.{some-injective}
use hacman.Base.{
  ℕ, zero, suc, ◌+◌, ◌-◌, ◌||◌, not, ◌*◌, subst, ◌≤◌, ◌<◌, Bool, true, false, Option, none, some,
  ltb, ◌==◌, if◌then◌else◌, length, Bytes, ◌≡◌, refl, sym, ap, ◌∙◌, arith, inl, inr, Bool-cases,
  Option-cases, ==_iff,
}

-- The search finds a slot that lies in the file.
verdict :
    (x y : Bool) (o off : ℕ)
    → (if x then other else if y then malformed else slot_at o) ≡ slot_at off
    → (y ≡ false) × (o ≡ off)
verdict true y o off h = absurd cc
verdict false true o off h = absurd cc
verdict false false o off h = (refl, cc)

slot_tests : (p q r s : Bool) → (p || q || r || s) ≡ false → (r ≡ false) × (s ≡ false)
slot_tests p q r s h = ground arith

inside_lem : (n off : ℕ) → ltb n off ≡ false → ltb (n - off) slot_size ≡ false → off + 8 ≤ n
inside_lem n off a b = ground arith

-- The step of the loop for what it finds.
next : (ℕ → Section) → ℕ → ℕ → ℕ → ℕ → Section → Option (ℕ × ℕ)
next at left i slot found other = sections at left (i + 1) slot found
next at left i slot found malformed = none
next at left i slot found (slot_at off) = sections at left (i + 1) off (found + 1)

section-slot_at :
    (elf : Elf) (l : Layout) (bits : Bits) (b : Bytes) (t : Table) (i off : ℕ)
    → section elf l bits b t i ≡ slot_at off
    → off + 8 ≤ length b
unfolding section
section-slot_at elf l bits b t i off h =
    let base = t.shoff + i * t.shentsize in
    let (fine, e) = verdict _ _ _ off h in
    let inside =
      slot_tests (not (field bits b base l.sh_type == elf.sht_progbits))
        (not (field bits b base l.sh_size == slot_size)) _ _ fine in
    subst (λ o. o + 8 ≤ length b) e (inside_lem (length b) _ inside.0 inside.1)

sections_inside :
    (at : ℕ → Section) (n : ℕ)
    → ((i off : ℕ) → at i ≡ slot_at off → off + 8 ≤ n)
    → (left i slot found : ℕ) {last count : ℕ} → (0 < found → slot + 8 ≤ n)
    → sections at left i slot found ≡ some (last, count)
    → 0 < count
    → last + 8 ≤ n
unfolding sections next
sections_inside at n inside zero i slot found {last} {count} ok e h =
    let pair : (slot, found) ≡ (last, count) = some-injective (slot, found) (last, count) e in
    let same : slot ≡ last = ap (λ (q : ℕ × ℕ). q.0) pair in
    let counted : found ≡ count = ap (λ (q : ℕ × ℕ). q.1) pair in
    subst (λ o. o + 8 ≤ n) same (ok (omega (arith, counted)))
sections_inside at n inside (suc left) i slot found {last} {count} ok e h =
    (elim (at i) as (λ s. at i ≡ s → last + 8 ≤ n) [
      | other ↦ λ x.
          sections_inside at n inside left (i + 1) slot found ok
            (sym (ap (next at left i slot found) x) ∙ e) h
      | malformed ↦ λ x.
          let no : none ≡ some (last, count) = sym (ap (next at left i slot found) x) ∙ e in
          absurd cc
      | slot_at off ↦ λ x.
          sections_inside at n inside left (i + 1) off (found + 1) (λ p. inside i off x)
            (sym (ap (next at left i slot found) x) ∙ e) h
    ])
      refl

exactly_one_lem :
    (f bits : Bits) (last count slot : ℕ)
    → exactly_one f (some (last, count)) ≡ some (bits, slot)
    → (count ≡ 1) × (last ≡ slot)
exactly_one_lem f bits last count slot h = elim (Bool-cases (count == 1)) [
  | inl e ↦
      let eq : some (f, last) ≡ some (bits, slot) =
        sym (ap (λ (b : Bool). if b then some (f, last) else none) e) ∙ h in
      ((==_iff count 1).0 e, ap (λ (q : Bits × ℕ). q.1) (some-injective (f, last) (bits, slot) eq))
  | inr e ↦
      let no : none ≡ some (bits, slot) =
        sym (ap (λ (b : Bool). if b then some (f, last) else none) e) ∙ h in
      absurd cc
]

pub find_slot_inside :
    (elf : Elf) (b : Bytes) (bits : Bits) (slot : ℕ)
    → find_slot elf b ≡ some (bits, slot)
    → slot + 8 ≤ length b
unfolding find_slot
find_slot_inside elf b bits slot h = elim (Option-cases (identified elf b)) [
  | inl none_e ↦ absurd (ground arith)
  | inr (found, e) ↦ elim (Option-cases (tables (layout_of elf found) found b)) [
    | inl none_e ↦ absurd (ground arith)
    | inr (t, te) ↦
        let at = section elf (layout_of elf found) found b t in
        elim (Option-cases (sections at t.shnum 0 0 0)) [
          | inl none_e ↦ absurd (ground arith)
          | inr ((last, count), re) ↦
              let eq : find_slot elf b ≡ exactly_one found (some (last, count)) =
                rw (e, find_slot, te, re) refl in
              let (one, same) = exactly_one_lem found bits last count slot (sym eq ∙ h) in
              subst (λ o. o + 8 ≤ length b) same
                (sections_inside at (length b) (section-slot_at elf (layout_of elf found) found b t)
                  t.shnum 0 0 0 (λ p. absurd (omega arith)) re (omega (arith, one)))
        ]
  ]
]
