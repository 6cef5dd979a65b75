-- ===== src/Vmm/Map/Write.antt =====
-- A write to the last entry on a path maps the addresses of its page.
use raccoon_exok.Common.{
  ℕ, ◌+◌, ◌*◌, ◌/◌, ◌%◌, ◌^◌, ◌<◌, ◌≡◌, ◌≢◌, ap, ◌∙◌, Option, none, some, ◌==◌, arith, bit_or,
  false, write,
}
use raccoon_exok.Common.Run.{ok, fault}
use raccoon_exok.Common.Bits.Fields.{bit_or_high, bit_or-one}
use raccoon_exok.Pmm.{physical_to_stivale}
use raccoon_exok.Vmm.Address.{split}
use raccoon_exok.Vmm.Paging.{Vm, physical, present, next_table, and_then, translate, write_entry}
use raccoon_exok.Vmm.Window.{walk-page, translate-window, entry_l1}
use raccoon_exok.Vmm.Tables.{OnPath, root}

-- The word at physical address `p` set to `value`.
abbrev pub stored : Vm → (p value : ℕ) → Vm
stored vm p value = record vm {
  pmm = record vm.pmm { words = write vm.pmm.words (physical_to_stivale p) value };
}

stivale_differ :
    (p q : ℕ)
    → p < 2 ^ 64
    → q < 2 ^ 64
    → p ≢ q
    → (physical_to_stivale p == physical_to_stivale q) ≡ false
unfolding physical_to_stivale
stivale_differ p q h g ne = ground arith

physical-stored : (vm : Vm) (p value : ℕ) → physical (stored vm p value) p ≡ value
physical-stored vm p value = ground arith

physical-stored_ne :
    (vm : Vm) (p q value : ℕ)
    → p < 2 ^ 64
    → q < 2 ^ 64
    → p ≢ q
    → physical (stored vm p value) q ≡ physical vm q
physical-stored_ne vm p q value h g ne = ground (arith, stivale_differ p q h g ne)

next_table-lt : (e t : ℕ) → next_table e ≡ some t → t < 2 ^ 52
unfolding next_table
next_table-lt e t h = ground arith

-- The entry for a page at a page-aligned address below `2 ^ 52`, with any flags of 12 bits.
pub present-bit_or :
    (frame flags : ℕ)
    → frame % 4096 ≡ 0
    → frame < 2 ^ 52
    → flags < 4096
    → present (bit_or (bit_or frame flags) 1) ≡ some frame
present-bit_or frame flags aligned small few =
    ap (λ (x : ℕ). present (bit_or x 1)) joined ∙ ap present marked ∙ ground arith
  where
    whole : frame ≡ frame / 4096 * 2 ^ 12
    whole = omega arith

    joined : bit_or frame flags ≡ frame + flags
    joined =
        ap (λ (x : ℕ). bit_or x flags) whole ∙ bit_or_high 12 (frame / 4096) flags few ∙ omega arith

    marked : bit_or (frame + flags) 1 ≡ (frame + flags) / 2 * 2 + 1
    marked = bit_or-one (frame + flags)

module _ (vm : Vm) (addr t3 t2 t1 : ℕ) where
  abbrev slot : ℕ
  slot = t1 + (split addr).plm1 * 8

  -- The entry of the page is none of the entries that lead to it.
  abbrev pub Separate : Type 0
  Separate =
      (slot ≢ root vm + (split addr).plm4 * 8)
      × (slot ≢ t3 + (split addr).plm3 * 8)
      × (slot ≢ t2 + (split addr).plm2 * 8)

  module _ (value frame : ℕ)
      (tables : OnPath vm (split addr).plm4 (split addr).plm3 (split addr).plm2 t3 t2 t1) where
    pub write_entry-stored :
        write_entry vm
          (entry_l1 (split addr).plm4 (split addr).plm3 (split addr).plm2 (split addr).plm1)
          value
        ≡ ok (stored vm slot value)
    unfolding write_entry
    write_entry-stored =
        let (w4, w3, w2, w1) =
          translate-window (physical vm) vm.cr3 tables.recursive (split addr).plm4 (split addr).plm3
            (split addr).plm2 (split addr).plm1 t3 t2 t1 tables.l4_lt tables.l3_lt tables.l2_lt
            (omega arith) tables.at_l4 tables.at_l3 tables.at_l2 in
        ap (λ (o : Option ℕ). elim o [ none ↦ fault | some p ↦ ok (stored vm p value) ]) w1

    pub translate-stored :
        Separate
        → present value ≡ some frame
        → translate (physical (stored vm slot value)) vm.cr3 addr ≡ some (frame + addr % 4096)
    unfolding translate
    translate-stored (apart4, apart3, apart2) e =
        let b3 = next_table-lt (physical vm (root vm + (split addr).plm4 * 8)) t3 tables.at_l4 in
        let b2 = next_table-lt (physical vm (t3 + (split addr).plm3 * 8)) t2 tables.at_l3 in
        let b1 = next_table-lt (physical vm (t2 + (split addr).plm2 * 8)) t1 tables.at_l2 in
        let same : (q : ℕ)
            → q < 2 ^ 64
            → slot ≢ q
            → next_table (physical (stored vm slot value) q) ≡ next_table (physical vm q) =
          λ q h ne. ap next_table (physical-stored_ne vm slot q value (omega (arith, b1)) h ne) in
        walk-page (physical (stored vm slot value)) (root vm) t3 t2 t1 (split addr)
          (same (root vm + (split addr).plm4 * 8) (omega arith) apart4 ∙ tables.at_l4)
          (same (t3 + (split addr).plm3 * 8) (omega (arith, b3)) apart3 ∙ tables.at_l3)
          (same (t2 + (split addr).plm2 * 8) (omega (arith, b2)) apart2 ∙ tables.at_l2)
        ∙ ap (λ (x : ℕ). and_then (present x) (λ page. some (page + (split addr).plm0)))
            (physical-stored vm slot value)
        ∙ ap (λ o. and_then o (λ page. some (page + (split addr).plm0))) e
