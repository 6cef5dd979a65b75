-- ===== src/Bootload/Multiboot/Count.antt =====
-- The count of the memory blocks in arch/x86_64/bootload/convert.c.
use raccoon_exok.Common.{ℕ, zero, suc, ◌+◌, ◌*◌, ◌/◌, ◌^◌, ◌≤◌, ◌<◌, ◌≡◌, refl, ap, ◌∙◌, arith}
use raccoon_exok.Common.Run.{Run, ok, ◌>>=◌}
use raccoon_exok.Bootload.Multiboot.{
  MultibootInfo, MmapTag, GrubInfo, count_loop, get_nb_entries, get_memmap, get_modules,
  get_framebuffer, convert,
}

count_loop-counts :
    (n fuel i count len : ℕ)
    → n < fuel
    → len < 2 ^ 32
    → i < 2 ^ 33
    → count + n < 2 ^ 32
    → i + 24 * n < len + 24
    → len ≤ i + 24 * n
    → count_loop fuel i count len ≡ ok (count + n)
unfolding count_loop
count_loop-counts n zero i count len enough small low few high cover = absurd (omega arith)
count_loop-counts zero (suc fuel) i count len enough small low few high cover = ground arith
count_loop-counts (suc n) (suc fuel) i count len enough small low few high cover = ground (
  arith,
  count_loop-counts n fuel (i + 24) (count + 1) len (omega arith) small (omega arith) (omega arith)
      (omega arith) (omega arith),
)

abbrev tag_of : ℕ → MmapTag
tag_of entries = record { identifier = 0x2187f79e8612de07; entries = entries }

abbrev built : MultibootInfo → MmapTag → GrubInfo
built src mmap_tag = record {
  modules = get_modules src;
  mmap_tag = mmap_tag;
  framebuffer = get_framebuffer src;
}

-- `convert` ends, with more rounds of fuel than there are blocks, for a map below `2 ^ 32` bytes: the
-- memory map's tag has as many entries as blocks of 24 bytes are needed for the map, a last one that
-- is not whole among them, and the tag of the modules has their number.
pub convert-counts :
    (fuel : ℕ) (src : MultibootInfo)
    → src.mmap_length < 2 ^ 32
    → (src.mmap_length + 23) / 24 < fuel
    → (dst : GrubInfo) × (convert fuel src ≡ ok dst)
      × (dst.mmap_tag.entries ≡ (src.mmap_length + 23) / 24)
      × (dst.modules.module_count ≡ src.mods_count)
unfolding convert get_memmap get_nb_entries get_modules
convert-counts fuel src small enough =
    let n : ℕ = (src.mmap_length + 23) / 24 in
    (
      built src (tag_of n),
      ap
            (λ (r : Run ℕ).
              (r >>= λ entries. ok (tag_of entries)) >>= λ mmap_tag. ok (built src mmap_tag))
            (count_loop-counts n fuel 0 0 src.mmap_length enough small (omega arith) (omega arith)
              (omega arith) (omega arith))
          ∙ ap (λ (k : ℕ). ok (built src (tag_of k))) {x = 0 + n} (omega arith),
      refl,
      refl,
    )
