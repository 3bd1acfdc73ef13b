-- ===== src/Tests/Stamping.antt =====
-- tools/stamp.c at a small ELF file of 32 bits: a header, two section headers, the names and the
-- slot. The numbers are those of <elf.h>.
use hacman.Stamp.{all_zero, stamped, check}
use hacman.Stamp.Slot.{
  Elf, Layout, Field, rd, wr64, find_slot, identified, tables, section, sections,
}
use hacman.Stamp.Checked.{check-stamped}
use hacman.Base.{
  ℕ, zero, suc, some, [], ◌∷◌, ◌++◌, ◌≡◌, refl, arith, Bytes, bytes_eq, codes, places, value_from,
}

abbrev at : ℕ → ℕ → Field
at offset size = record { offset = offset; size = size }

abbrev layout32 : Layout
layout32 = record {
  ehdr = 52;
  shdr = 40;
  e_shoff = at 32 4;
  e_shentsize = at 46 2;
  e_shnum = at 48 2;
  e_shstrndx = at 50 2;
  sh_name = at 0 4;
  sh_type = at 4 4;
  sh_offset = at 16 4;
  sh_size = at 20 4;
}

abbrev layout64 : Layout
layout64 = record {
  ehdr = 64;
  shdr = 64;
  e_shoff = at 40 8;
  e_shentsize = at 58 2;
  e_shnum = at 60 2;
  e_shstrndx = at 62 2;
  sh_name = at 0 4;
  sh_type = at 4 4;
  sh_offset = at 24 8;
  sh_size = at 32 8;
}

abbrev elf : Elf
elf = record {
  ei_nident = 16;
  elfmag = 127 ∷ codes "ELF";
  ei_class = 4;
  ei_data = 5;
  elfclass32 = 1;
  elfclass64 = 2;
  elfdata2lsb = 1;
  elfdata2msb = 2;
  sht_progbits = 1;
  layout32 = layout32;
  layout64 = layout64;
}

abbrev zeros : ℕ → Bytes
zeros zero = []
zeros (suc n) = 0 ∷ zeros n

abbrev half : ℕ → Bytes
half n = n ∷ 0 ∷ []

abbrev word : ℕ → Bytes
word n = n ∷ 0 ∷ 0 ∷ 0 ∷ []

abbrev header : Bytes
header =
    127
    ∷ (codes "ELF"
        ++ (1 ∷ 1 ∷ (zeros 26 ++ (word 52 ++ (zeros 10 ++ (half 40 ++ (half 2 ++ half 0)))))))

abbrev section_header : ℕ → ℕ → ℕ → ℕ → Bytes
section_header name type offset size =
    word name ++ (word type ++ (zeros 8 ++ (word offset ++ (word size ++ zeros 16))))

-- The program with these bytes in its slot.
abbrev program : Bytes → Bytes
program slot =
    header
    ++ (section_header 0 3 132 14
        ++ (section_header 1 1 146 8 ++ (0 ∷ (codes ".hm_selfhash" ++ 0 ∷ slot))))

abbrev five : Bytes → ℕ
five s = 5

program_stamped : stamped elf five (program (zeros 8)) ≡ some (program (5 ∷ zeros 7))
unfolding stamped find_slot identified bytes_eq tables rd value_from sections section all_zero wr64
    places
program_stamped = refl

same_slot : find_slot elf (program (5 ∷ zeros 7)) ≡ find_slot elf (program (zeros 8))
unfolding find_slot identified bytes_eq tables rd value_from sections section
same_slot = refl

check-stamped_example : check elf five (program (5 ∷ zeros 7)) ≡ some 5
check-stamped_example =
    check-stamped elf five (program (zeros 8)) (program (5 ∷ zeros 7)) (λ s. omega arith)
      program_stamped same_slot
