-- ===== src/Vmm/Unmap/Directory.antt =====
-- The directory that `create_page_directory` of arch/x86_64/src/vmm.c makes.
use raccoon_exok.Common.{
  ℕ, zero, suc, ◌+◌, ◌*◌, ◌/◌, ◌%◌, ◌^◌, ◌≤◌, ◌<◌, ◌≡◌, ◌≢◌, refl, ap, sym, ◌∙◌, some, ◌==◌, arith,
  Bool-cases, inl, inr, bit_or, false, write,
}
use raccoon_exok.Common.Run.{ok}
use raccoon_exok.Common.Word.{add64}
use raccoon_exok.Common.Bits.Fields.{bit_or_high, bit_or-one}
use raccoon_exok.Common.Bits.Step.{bit_or_step}
use raccoon_exok.Pmm.{Pmm, get_frame, physical_to_stivale}
use raccoon_exok.Vmm.Paging.{Vm, physical, frame_base, next_table}
use raccoon_exok.Vmm.Window.{IsRecursive}
use raccoon_exok.Vmm.Unmap.{copy_directory, direct_map, create_page_directory}

same_slot :
    (new_pd j k : ℕ) → j < 512 → k < 512 → (add64 new_pd (j * 8) == add64 new_pd (k * 8)) ≡ (j == k)
same_slot new_pd j k h g = ground arith

module _ (new_pd old_pd : ℕ)
    (apart : (j k : ℕ)
      → j < 512
      → k < 512
      → (add64 new_pd (j * 8) == add64 old_pd (k * 8)) ≡ false) where
  copy_directory-keeps :
      (rounds i k : ℕ) (words : ℕ → ℕ)
      → i + rounds ≤ 512
      → k < i
      → copy_directory rounds i new_pd old_pd words (add64 new_pd (k * 8))
        ≡ words (add64 new_pd (k * 8))
  unfolding copy_directory
  copy_directory-keeps zero i k words h g = refl
  copy_directory-keeps (suc rounds) i k words h g = ground (
    arith,
    copy_directory-keeps rounds (i + 1) k
        (write words (add64 new_pd (i * 8)) (words (add64 old_pd (i * 8)))) (omega arith)
        (omega arith),
    same_slot new_pd i k (omega arith) (omega arith),
  )

  copy_directory-copies :
      (rounds i k : ℕ) (words : ℕ → ℕ)
      → i + rounds ≤ 512
      → i ≤ k
      → k < i + rounds
      → copy_directory rounds i new_pd old_pd words (add64 new_pd (k * 8))
        ≡ words (add64 old_pd (k * 8))
  unfolding copy_directory
  copy_directory-copies zero i k words h g l = absurd (omega arith)
  copy_directory-copies (suc rounds) i k words h g l = elim (Bool-cases (i == k)) [
    | inl now ↦
        let same : words (add64 old_pd (i * 8)) ≡ words (add64 old_pd (k * 8)) =
          ap (λ (q : ℕ). words (add64 old_pd (q * 8))) (ground arith) in
        ground (
          arith,
          same,
          copy_directory-keeps rounds (i + 1) k (copied i) (omega arith) (ground arith),
          same_slot new_pd i k (omega arith) (omega arith),
        )
    | inr later ↦ ground (
      arith,
      copy_directory-copies rounds (i + 1) k (copied i) (omega arith) (ground arith) (omega arith),
      apart i k (omega arith) (omega arith),
    )
  ]
    where
      copied : ℕ → ℕ → ℕ
      copied j = write words (add64 new_pd (j * 8)) (words (add64 old_pd (j * 8)))

physical_to_stivale-lt : (p : ℕ) → physical_to_stivale p < 2 ^ 64
unfolding physical_to_stivale
physical_to_stivale-lt p = omega arith

first_slot : (a k : ℕ) → a < 2 ^ 64 → 0 < k → k < 512 → (a == add64 a (k * 8)) ≡ false
first_slot a k lt pos h = ground arith

stivale_entry :
    (frame k : ℕ) → physical_to_stivale (frame + k * 8) ≡ add64 (physical_to_stivale frame) (k * 8)
unfolding physical_to_stivale
stivale_entry frame k = omega arith

own_entry :
    (frame : ℕ)
    → frame % 4096 ≡ 0
    → frame < 2 ^ 52
    → next_table (bit_or (bit_or frame 3) 4) ≡ some frame
unfolding next_table
own_entry frame aligned small =
    ap (λ (x : ℕ). next_table (bit_or x 4)) joined ∙ ap next_table marked ∙ ground arith
  where
    whole : frame ≡ frame / 4096 * 2 ^ 12
    whole = omega arith

    joined : bit_or frame 3 ≡ frame + 3
    joined =
        ap (λ (x : ℕ). bit_or x 3) whole
        ∙ bit_or_high 12 (frame / 4096) 3 (omega arith)
        ∙ omega arith

    marked : bit_or (frame + 3) 4 ≡ frame + 7
    marked = omega (
      arith,
      bit_or_step (frame + 3) 4,
      bit_or_step ((frame + 3) / 2) 2,
      bit_or-one ((frame + 3) / 2 / 2),
    )

IsRecursive-entry :
    (memory : ℕ → ℕ) (frame e : ℕ)
    → frame % 4096 ≡ 0
    → frame < 2 ^ 52
    → memory (frame + 50 * 8) ≡ e
    → next_table e ≡ some frame
    → IsRecursive memory frame
IsRecursive-entry memory frame e aligned small at points =
    let base : frame_base frame ≡ frame = omega arith in
    ap (λ (b : ℕ). next_table (memory (b + 50 * 8))) base
    ∙ ap next_table at
    ∙ points
    ∙ ap some (sym base)

direct_map-low :
    (frame : ℕ) → frame + 4096 ≤ 2 ^ 31 → direct_map frame ≡ ok (physical_to_stivale frame)
unfolding direct_map
direct_map-low frame low = ground arith

-- Two different pages of the first 2 GiB have no word in common.
pages_apart :
    (p q j k : ℕ)
    → p % 4096 ≡ 0
    → q % 4096 ≡ 0
    → p + 4096 ≤ 2 ^ 31
    → q + 4096 ≤ 2 ^ 31
    → p ≢ q
    → j < 512
    → k < 512
    → (add64 (physical_to_stivale p) (j * 8) == add64 (physical_to_stivale q) (k * 8)) ≡ false
unfolding physical_to_stivale
pages_apart p q j k aligned aligned' low low' ne h g = ground arith

-- When `get_frame` gives a page-aligned frame, the loader's directory is in another page-aligned
-- frame, and both are within the first 2 GiB, which the loader maps at `0xffffffff80000000`,
-- `create_page_directory` succeeds and returns the new frame as a directory whose entry 50 points to
-- itself, so that it opens the window on its own tables, whose entry 0 is empty, and whose other
-- entries are those of the loader's directory.
pub create_page_directory-IsRecursive :
    (vm : Vm) (frame loader : ℕ) (pmm : Pmm)
    → get_frame vm.pmm ≡ ok (frame, pmm)
    → vm.limine_page_directory_addr ≡ physical_to_stivale loader
    → frame % 4096 ≡ 0
    → loader % 4096 ≡ 0
    → frame + 4096 ≤ 2 ^ 31
    → loader + 4096 ≤ 2 ^ 31
    → frame ≢ loader
    → (vm' : Vm) × (create_page_directory vm ≡ ok (frame, vm'))
      × IsRecursive (physical vm') frame
      × (physical vm' frame ≡ 0)
      × ((k : ℕ)
          → 0 < k
          → k < 512
          → k ≢ 50
          → physical vm' (frame + k * 8) ≡ pmm.words (physical_to_stivale (loader + k * 8)))
unfolding create_page_directory
create_page_directory-IsRecursive vm frame loader pmm got old aligned aligned' low low' ne =
    let new_pd = physical_to_stivale frame in
    let words = copy_directory 512 0 new_pd vm.limine_page_directory_addr pmm.words in
    let marked = write words (add64 new_pd (50 * 8)) (bit_or (bit_or frame 3) 4) in
    let vm' = record vm { pmm = record pmm { words = write marked new_pd 0 } } in
    (
      vm',
      ground (arith, got, direct_map-low frame low),
      IsRecursive-entry (physical vm') frame (bit_or (bit_or frame 3) 4) aligned (omega arith)
          (ap vm'.pmm.words (stivale_entry frame 50) ∙ ground (arith, not_first 50))
          (own_entry frame aligned (omega arith)),
      ground arith,
      λ k pos h other.
          ap vm'.pmm.words (stivale_entry frame k)
          ∙ ground (
            arith,
            not_first k,
            same_slot new_pd 50 k (omega arith) h,
            copy_directory-copies new_pd vm.limine_page_directory_addr apart 512 0 k pmm.words
                (omega arith) (omega arith) (omega arith),
          )
          ∙ ap (λ (d : ℕ). pmm.words (add64 d (k * 8))) old
          ∙ ap pmm.words (sym (stivale_entry loader k)),
    )
  where
    apart :
        (j k : ℕ)
        → j < 512
        → k < 512
        → (add64 (physical_to_stivale frame) (j * 8) == add64 vm.limine_page_directory_addr (k * 8))
          ≡ false
    apart j k h g =
        ap (λ (d : ℕ). add64 (physical_to_stivale frame) (j * 8) == add64 d (k * 8)) old
        ∙ pages_apart frame loader j k aligned aligned' low low' ne h g

    not_first :
        (k : ℕ)
        → 0 < k
        → k < 512
        → (physical_to_stivale frame == add64 (physical_to_stivale frame) (k * 8)) ≡ false
    not_first k pos h =
        first_slot (physical_to_stivale frame) k (physical_to_stivale-lt frame) pos h
