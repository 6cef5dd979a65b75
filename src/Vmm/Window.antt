-- ===== src/Vmm/Window.antt =====
-- The window on the page tables that entry 50 of the table of level 4, which points to that table
-- itself, opens: the addresses that arch/x86_64/src/vmm.c crafts are the entries of the tables.
use raccoon_exok.Common.{ℕ, ◌+◌, ◌*◌, ◌<◌, ◌≡◌, refl, ap, ◌∙◌, some, arith}
use raccoon_exok.Vmm.Address.{AddressOffset64, craft_addr, fields, split-craft_addr}
use raccoon_exok.Vmm.Paging.{
  frame_base, table_at, page_at, present-next_table, and_then, walk, translate,
}

-- `RECURSIVE_MAPPING_ENTRY`
abbrev pub recursive_mapping_entry : ℕ
recursive_mapping_entry = 50

-- The crafted address of an entry of each of the four levels of tables.
abbrev pub entry_l4 : ℕ → ℕ
entry_l4 l4 =
    craft_addr recursive_mapping_entry recursive_mapping_entry recursive_mapping_entry
      recursive_mapping_entry (l4 * 8)

abbrev pub entry_l3 : ℕ → ℕ → ℕ
entry_l3 l4 l3 =
    craft_addr recursive_mapping_entry recursive_mapping_entry recursive_mapping_entry l4 (l3 * 8)

abbrev pub entry_l2 : ℕ → ℕ → ℕ → ℕ
entry_l2 l4 l3 l2 = craft_addr recursive_mapping_entry recursive_mapping_entry l4 l3 (l2 * 8)

abbrev pub entry_l1 : ℕ → ℕ → ℕ → ℕ → ℕ
entry_l1 l4 l3 l2 l1 = craft_addr recursive_mapping_entry l4 l3 l2 (l1 * 8)

-- With its tables at `t3`, `t2` and `t1`, the entry of the last table decides on an address.
pub walk-page :
    (memory : ℕ → ℕ) (r t3 t2 t1 : ℕ) (o : AddressOffset64)
    → table_at memory r o.plm4 ≡ some t3
    → table_at memory t3 o.plm3 ≡ some t2
    → table_at memory t2 o.plm2 ≡ some t1
    → walk memory r o ≡ and_then (page_at memory t1 o.plm1) (λ page. some (page + o.plm0))
walk-page memory r t3 t2 t1 o e3 e2 e1 = simp (e3, e2, e1) refl

module _ (memory : ℕ → ℕ) (cr3 : ℕ) where
  abbrev pub IsRecursive : Type 0
  IsRecursive = table_at memory (frame_base cr3) recursive_mapping_entry ≡ some (frame_base cr3)

  translate-craft_addr :
      (a b c d e : ℕ)
      → a < 512
      → b < 512
      → c < 512
      → d < 512
      → e < 4096
      → translate memory cr3 (craft_addr a b c d e)
        ≡ walk memory (frame_base cr3) (fields a b c d e)
  unfolding translate
  translate-craft_addr a b c d e ha hb hc hd he =
      ap (walk memory (frame_base cr3)) (split-craft_addr a b c d e ha hb hc hd he)

  module _ (recursive : IsRecursive) where
    pub translate-entry_l4 :
        (l4 : ℕ) → l4 < 512 → translate memory cr3 (entry_l4 l4) ≡ some (frame_base cr3 + l4 * 8)
    translate-entry_l4 l4 h =
        translate-craft_addr 50 50 50 50 (l4 * 8) (omega arith) (omega arith) (omega arith)
          (omega arith) (omega arith)
        ∙ simp
            (
              recursive,
              present-next_table (memory (frame_base cr3 + 50 * 8)) (frame_base cr3) recursive,
            )
            refl

    module _ (l4 l3 l2 l1 t3 t2 t1 : ℕ) (h4 : l4 < 512) (h3 : l3 < 512) (h2 : l2 < 512)
        (h1 : l1 < 512) where
      -- With the entry 50 of the table of level 4 pointing to that table, and the tables of the
      -- path given by indices below 512 at `t3`, `t2` and `t1`, the four addresses that the code
      -- crafts for the path are mapped to the entries of these tables.
      pub translate-window :
          table_at memory (frame_base cr3) l4 ≡ some t3
          → table_at memory t3 l3 ≡ some t2
          → table_at memory t2 l2 ≡ some t1
          → (translate memory cr3 (entry_l4 l4) ≡ some (frame_base cr3 + l4 * 8))
            × (translate memory cr3 (entry_l3 l4 l3) ≡ some (t3 + l3 * 8))
            × (translate memory cr3 (entry_l2 l4 l3 l2) ≡ some (t2 + l2 * 8))
            × (translate memory cr3 (entry_l1 l4 l3 l2 l1) ≡ some (t1 + l1 * 8))
      translate-window e3 e2 e1 = (
        translate-entry_l4 l4 h4,
        translate-craft_addr 50 50 50 l4 (l3 * 8) (omega arith) (omega arith) (omega arith) h4
              (omega arith)
            ∙ simp (recursive, present-next_table (memory (frame_base cr3 + l4 * 8)) t3 e3) refl,
        translate-craft_addr 50 50 l4 l3 (l2 * 8) (omega arith) (omega arith) h4 h3 (omega arith)
            ∙ simp (recursive, e3, present-next_table (memory (t3 + l3 * 8)) t2 e2) refl,
        translate-craft_addr 50 l4 l3 l2 (l1 * 8) (omega arith) h4 h3 h2 (omega arith)
            ∙ simp (recursive, e3, e2, present-next_table (memory (t2 + l2 * 8)) t1 e1) refl,
      )
