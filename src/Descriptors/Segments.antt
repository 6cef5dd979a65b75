-- ===== src/Descriptors/Segments.antt =====
-- setup_gdt of arch/x86_64/src/gdt.c, and the selectors that syscall_initialize of
-- arch/x86_64/src/syscall.c takes from its entries.
use raccoon_exok.Common.{
  ℕ, ◌+◌, ◌*◌, ◌-◌, ◌/◌, ◌%◌, ◌^◌, ◌<◌, ◌≡◌, refl, bit_or, some, ◌==◌, if◌then◌else◌, write, arith,
}
use raccoon_exok.Common.Run.{Run, ok, halted, ◌>>=◌}
use raccoon_exok.Common.Word.{◌<<◌}
use raccoon_exok.Memory.{Memory, StrAt}
use raccoon_exok.Registers.{CpuRegs, struct_cpu_regs_interface_set, struct_cpu_regs_interface_get}
use raccoon_exok.Registers.Lookup.{Texts, IsRegs, text, get-set}
use raccoon_exok.Descriptors.Gdt.{GdtEntry, create_gdt_entry, descriptor, access_of, granularity_of}

abbrev pub gdt_segment : ℕ
gdt_segment = 0b00010000

abbrev pub gdt_present : ℕ
gdt_present = 0b10000000

abbrev pub gdt_user : ℕ
gdt_user = 0b01100000

abbrev pub gdt_executable : ℕ
gdt_executable = 0b00001000

abbrev pub gdt_readwrite : ℕ
gdt_readwrite = 0b00000010

abbrev pub gdt_long_mode_granularity : ℕ
gdt_long_mode_granularity = 0b0010

abbrev pub gdt_kernel_code : ℕ
gdt_kernel_code = 1

abbrev pub gdt_kernel_data : ℕ
gdt_kernel_data = 2

abbrev pub gdt_user_data : ℕ
gdt_user_data = 4

abbrev pub gdt_user_code : ℕ
gdt_user_code = 5

abbrev pub quick_entry : (flags granularity : ℕ) → GdtEntry
quick_entry flags granularity = create_gdt_entry 0 0 granularity flags

-- `gdt` and `gdt_d`.
pub record Gdt : Type 0 where
  pub entries : ℕ → GdtEntry
  pub size : ℕ
  pub offset : ℕ

-- The six entries.
unfoldable pub setup_entries : (ℕ → GdtEntry) → ℕ → GdtEntry
unfolding create_gdt_entry
setup_entries entries =
    let with0 = write entries 0 (create_gdt_entry 0 0 0 0) in
    let kernel = bit_or (bit_or gdt_present gdt_segment) gdt_readwrite in
    let with1 =
      write with0 gdt_kernel_code
        (quick_entry (bit_or kernel gdt_executable) gdt_long_mode_granularity) in
    let with2 = write with1 gdt_kernel_data (quick_entry kernel 0) in
    let with3 = write with2 3 (create_gdt_entry 0 0 0 0) in
    let with4 = write with3 gdt_user_data (quick_entry (bit_or kernel gdt_user) 0) in
    write with4 gdt_user_code
      (quick_entry (bit_or (bit_or kernel gdt_executable) gdt_user) gdt_long_mode_granularity)

-- The memory, the names of the registers, the fuel of a comparison, and the addresses of "gdtr",
-- `gdt` and `gdt_d`; `sizeof(gdt_t)` is 48. `load_gdt` is assembly.
module _ (mem : Memory) (idtr gdtr cr3 rflags fuel id gdt_address gdt_d : ℕ) where
  unfoldable pub setup_gdt : Gdt → CpuRegs → Run (Gdt × CpuRegs)
  setup_gdt gdt regs = do
    (set, regs) ← struct_cpu_regs_interface_set mem idtr gdtr cr3 rflags fuel id gdt_d 0 regs
    if set == 0
        then halted
        else ok (
          record { entries = setup_entries gdt.entries; size = 48 - 1; offset = gdt_address },
          regs,
        )

abbrev pub msr_efer : ℕ
msr_efer = 0xC0000080

abbrev pub msr_star : ℕ
msr_star = 0xC0000081

abbrev pub msr_lstar : ℕ
msr_lstar = 0xC0000082

abbrev pub msr_syscall_flag_mask : ℕ
msr_syscall_flag_mask = 0xC0000084

-- The model-specific registers; `asm_read_msr` and `asm_write_msr` read and write one of them.
unfoldable pub syscall_initialize : (syscall_stub : ℕ) → (ℕ → ℕ) → ℕ → ℕ
syscall_initialize syscall_stub msr =
    let enabled = write msr msr_efer (bit_or (msr msr_efer) 1) in
    let selected = write enabled msr_star (
      bit_or ((gdt_kernel_code * 8) << 32)
        (bit_or ((gdt_user_data - 1) * 8) gdt_user_code << 48)) in
    write (write selected msr_lstar syscall_stub) msr_syscall_flag_mask 0

-- The selectors that the processor takes from STAR: for `syscall` that of the code from the bits 32 to
-- 47, and 8 more for the stack; for `sysret` to 64-bit code 16 more than the bits 48 to 63, and 8
-- more for the stack.
abbrev pub syscall_code : ℕ → ℕ
syscall_code star = star / 2 ^ 32 % 2 ^ 16

abbrev pub syscall_stack : ℕ → ℕ
syscall_stack star = star / 2 ^ 32 % 2 ^ 16 + 8

abbrev pub sysret_code : ℕ → ℕ
sysret_code star = star / 2 ^ 48 + 16

abbrev pub sysret_stack : ℕ → ℕ
sysret_stack star = star / 2 ^ 48 + 8

-- The parts of a selector: the index, and the table indicator, 1 for the local descriptor table.
abbrev pub index_of : ℕ → ℕ
index_of selector = selector / 8

abbrev pub table_indicator : ℕ → ℕ
table_indicator selector = selector / 4 % 2

-- What the selectors of `star` name, by their indices, among the entries.
abbrev pub Selected : (ℕ → GdtEntry) → (star : ℕ) → Type 0
Selected entries star =
    let at : ℕ → ℕ = λ selector. descriptor (entries (index_of selector)) in
    (access_of (at (syscall_code star)) ≡ 0b10011010)
    × (granularity_of (at (syscall_code star)) ≡ 0b0010)
    × (access_of (at (syscall_stack star)) ≡ 0b10010010)
    × (access_of (at (sysret_code star)) ≡ 0b11111010)
    × (granularity_of (at (sysret_code star)) ≡ 0b0010)
    × (access_of (at (sysret_stack star)) ≡ 0b11110010)
    × (table_indicator (syscall_code star) ≡ 0)
    × (table_indicator (syscall_stack star) ≡ 0)
    × (table_indicator (sysret_code star) ≡ 1)
    × (table_indicator (sysret_stack star) ≡ 1)

setup_entries-Selected :
    (entries : ℕ → GdtEntry) (syscall_stub : ℕ) (msr : ℕ → ℕ)
    → Selected (setup_entries entries) (syscall_initialize syscall_stub msr msr_star)
unfolding setup_entries create_gdt_entry syscall_initialize
setup_entries-Selected entries syscall_stub msr =
    (refl, refl, refl, refl, refl, refl, refl, refl, refl, refl)

-- From a table of registers that is well formed, `setup_gdt` does not panic and records the address
-- of the descriptor for core 0, where it is read back under "gdtr". After `syscall_initialize` the
-- indices of the selectors of `syscall` are those of the code of the kernel, 64 bits wide, and of
-- its data, and the indices of the selectors of `sysret` those of the code of user programs, 64 bits
-- wide, and of their data; but the selectors of `sysret` have the table indicator set, which names
-- the local descriptor table in place of this one.
pub setup_gdt-Selected :
    (mem : Memory) (idtr gdtr cr3 rflags fuel id gdt_address gdt_d syscall_stub : ℕ) (msr : ℕ → ℕ)
    (gdt : Gdt) (regs : CpuRegs)
    → Texts idtr gdtr cr3 rflags mem
    → StrAt mem id (text 1)
    → 6 < fuel
    → IsRegs idtr gdtr cr3 rflags regs
    → (gdt' : Gdt) × (regs' : CpuRegs) × (setup_gdt mem idtr gdtr cr3 rflags fuel id gdt_address
          gdt_d gdt regs
        ≡ ok (gdt', regs'))
      × IsRegs idtr gdtr cr3 rflags regs'
      × (struct_cpu_regs_interface_get mem idtr gdtr cr3 rflags fuel id 0 regs'
          ≡ ok (some gdt_d, regs'))
      × Selected gdt'.entries (syscall_initialize syscall_stub msr msr_star)
unfolding setup_gdt
setup_gdt-Selected mem idtr gdtr cr3 rflags fuel id gdt_address gdt_d syscall_stub msr gdt regs
      texts at enough isregs =
    let (regs', sets, isregs', gets) =
      get-set mem idtr gdtr cr3 rflags fuel regs id id gdt_d 0 0 1 1 texts enough isregs
        (omega arith) (omega arith) (omega arith) (omega arith) at at in
    (
      record { entries = setup_entries gdt.entries; size = 47; offset = gdt_address },
      regs',
      ground (arith, sets),
      isregs',
      gets,
      setup_entries-Selected gdt.entries syscall_stub msr,
    )
