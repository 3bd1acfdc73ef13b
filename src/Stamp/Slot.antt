-- ===== src/Stamp/Slot.antt =====
-- tools/stamp.c: fields in the byte order of a file, and the search for the slot in the section
-- headers of an ELF file.
use hacman.Base.{
  ℕ, zero, suc, ◌+◌, ◌-◌, ◌*◌, ◌/◌, Bool, true, false, not, ◌&&◌, ◌||◌, Option, none, some, [], ◌∷◌,
  ◌++◌, ltb, ◌==◌, if◌then◌else◌, take, drop, length, get_or, Bytes, bytes_eq, codes, places,
  value_from, reverse,
}

-- `offsetof` and `sizeof` of a header's field.
pub record Field : Type 0 where
  pub offset : ℕ
  pub size : ℕ

-- The headers of one ELF class.
pub record Layout : Type 0 where
  pub ehdr : ℕ
  pub shdr : ℕ
  pub e_shoff : Field
  pub e_shentsize : Field
  pub e_shnum : Field
  pub e_shstrndx : Field
  pub sh_name : Field
  pub sh_type : Field
  pub sh_offset : Field
  pub sh_size : Field

-- What <elf.h> defines.
pub record Elf : Type 0 where
  pub ei_nident : ℕ
  pub elfmag : Bytes
  pub ei_class : ℕ
  pub ei_data : ℕ
  pub elfclass32 : ℕ
  pub elfclass64 : ℕ
  pub elfdata2lsb : ℕ
  pub elfdata2msb : ℕ
  pub sht_progbits : ℕ
  pub layout32 : Layout
  pub layout64 : Layout

-- `is64` and `msb` of an `elf_file`.
pub record Bits : Type 0 where
  pub is64 : Bool
  pub msb : Bool

-- Bytes in the file's order, from bytes with the most significant one first, and back.
abbrev pub in_order : Bool → Bytes → Bytes
in_order true s = s
in_order false s = reverse s

-- `rd`
unfoldable pub rd : Bits → Bytes → ℕ → ℕ → ℕ
rd bits bytes off n = value_from 256 0 (in_order bits.msb (take n (drop off bytes)))

-- `wr64`
unfoldable pub wr64 : Bits → Bytes → ℕ → ℕ → Bytes
wr64 bits bytes off v =
    take off bytes ++ (in_order bits.msb (places 256 8 v) ++ drop (off + 8) bytes)

abbrev pub section_name : Bytes
section_name = codes ".hm_selfhash"

abbrev pub slot_size : ℕ
slot_size = 8

-- The name with its NUL.
abbrev pub name_bytes : Bytes
name_bytes = section_name ++ 0 ∷ []

-- `is64` and `msb` of the file's identification.
abbrev pub bits_of : Elf → Bytes → Bits
bits_of elf bytes = record {
  is64 = get_or bytes elf.ei_class 0 == elf.elfclass64;
  msb = get_or bytes elf.ei_data 0 == elf.elfdata2msb;
}

abbrev pub layout_of : Elf → Bits → Layout
layout_of elf bits = if bits.is64 then elf.layout64 else elf.layout32

-- The tests of the identification.
unfoldable pub identified : Elf → Bytes → Option Bits
identified elf bytes =
    let bits = bits_of elf bytes in
    if ltb (length bytes) elf.ei_nident
      || not (bytes_eq (take (length elf.elfmag) bytes) elf.elfmag)
    then none
    else if not bits.is64 && not (get_or bytes elf.ei_class 0 == elf.elfclass32)
        || not bits.msb && not (get_or bytes elf.ei_data 0 == elf.elfdata2lsb)
        || ltb (length bytes) (layout_of elf bits).ehdr
    then none
    else some bits

-- `EHDR(field)` and `SHDR(base, field)`
abbrev pub field : Bits → Bytes → ℕ → Field → ℕ
field bits bytes base f = rd bits bytes (base + f.offset) f.size

-- The section table and the names: what the search reads from the header.
pub record Table : Type 0 where
  pub shoff : ℕ
  pub shentsize : ℕ
  pub shnum : ℕ
  pub str_off : ℕ
  pub str_size : ℕ

-- The tests of the tables.
unfoldable pub tables : Layout → Bits → Bytes → Option Table
tables l bits bytes =
    let shoff = field bits bytes 0 l.e_shoff in
    let shentsize = field bits bytes 0 l.e_shentsize in
    let shnum = field bits bytes 0 l.e_shnum in
    let shstrndx = field bits bytes 0 l.e_shstrndx in
    let names = shoff + shstrndx * shentsize in
    let str_off = field bits bytes names l.sh_offset in
    let str_size = field bits bytes names l.sh_size in
    if not (shentsize == l.shdr)
      || shnum == 0
      || not (ltb shstrndx shnum)
      || ltb (length bytes) shoff
      || ltb ((length bytes - shoff) / shentsize) shnum
    then none
    else if ltb (length bytes) str_off || ltb (length bytes - str_off) str_size
    then none
    else some (record {
      shoff = shoff;
      shentsize = shentsize;
      shnum = shnum;
      str_off = str_off;
      str_size = str_size;
    })

pub data Section : Type 0 where
  other : Section
  malformed : Section
  slot_at : ℕ → Section

-- The body of the loop over the sections.
unfoldable pub section : Elf → Layout → Bits → Bytes → Table → ℕ → Section
section elf l bits bytes t i =
    let base = t.shoff + i * t.shentsize in
    let name = field bits bytes base l.sh_name in
    let off = field bits bytes base l.sh_offset in
    let size = field bits bytes base l.sh_size in
    let size_of_name = length name_bytes in
    if not (ltb name t.str_size)
      || ltb (t.str_size - name) size_of_name
      || not (bytes_eq (take size_of_name (drop (t.str_off + name) bytes)) name_bytes)
    then other
    else if not (field bits bytes base l.sh_type == elf.sht_progbits)
        || not (size == slot_size)
        || ltb (length bytes) off
        || ltb (length bytes - off) slot_size
    then malformed
    else slot_at off

-- The loop, with the sections that are left, and `*slot` and `found`.
unfoldable pub sections : (ℕ → Section) → ℕ → ℕ → ℕ → ℕ → Option (ℕ × ℕ)
sections at zero i slot found = some (slot, found)
sections at (suc left) i slot found = elim (at i) [
  | other ↦ sections at left (i + 1) slot found
  | malformed ↦ none
  | slot_at off ↦ sections at left (i + 1) off (found + 1)
]

-- `found != 1`
abbrev pub exactly_one : Bits → Option (ℕ × ℕ) → Option (Bits × ℕ)
exactly_one bits none = none
exactly_one bits (some (slot, found)) = if found == 1 then some (bits, slot) else none

-- `find_slot`
unfoldable pub find_slot : Elf → Bytes → Option (Bits × ℕ)
find_slot elf bytes = elim (identified elf bytes) [
  | none ↦ none
  | some bits ↦
      let l = layout_of elf bits in
      elim (tables l bits bytes) [
        | none ↦ none
        | some t ↦ exactly_one bits (sections (section elf l bits bytes t) t.shnum 0 0 0)
      ]
]
