-- ===== src/Bootload/Multiboot.antt =====
-- The translation of the boot information in arch/x86_64/bootload/convert.c.
pub mod Count
use raccoon_exok.Common.{ℕ, zero, suc, ◌+◌, ◌^◌, ltb, if◌then◌else◌}
use raccoon_exok.Common.Run.{Run, ok, out_of_fuel, ◌>>=◌}
use raccoon_exok.Common.Word.{u8, u16, u64}

-- The fields of `multibootinfo_t` that the code reads.
pub record MultibootInfo : Type 0 where
  pub mods_count : ℕ
  pub mmap_length : ℕ
  pub framebuffer_addr : ℕ
  pub framebuffer_pitch : ℕ
  pub framebuffer_width : ℕ
  pub framebuffer_heigth : ℕ
  pub framebuffer_bpp : ℕ
  pub framebuffer_red_field_position : ℕ
  pub framebuffer_red_mask_size : ℕ
  pub framebuffer_green_field_position : ℕ
  pub framebuffer_green_mask_size : ℕ
  pub framebuffer_blue_field_position : ℕ
  pub framebuffer_blue_mask_size : ℕ

-- The fields of the tags that the code sets. The others, `next` among them, have no value.
pub record FramebufferTag : Type 0 where
  pub identifier : ℕ
  pub framebuffer_addr : ℕ
  pub framebuffer_width : ℕ
  pub framebuffer_height : ℕ
  pub framebuffer_pitch : ℕ
  pub framebuffer_bpp : ℕ
  pub memory_model : ℕ
  pub red_mask_size : ℕ
  pub red_mask_shift : ℕ
  pub green_mask_size : ℕ
  pub green_mask_shift : ℕ
  pub blue_mask_size : ℕ
  pub blue_mask_shift : ℕ

pub record MmapTag : Type 0 where
  pub identifier : ℕ
  pub entries : ℕ

pub record ModulesTag : Type 0 where
  pub identifier : ℕ
  pub module_count : ℕ

pub record GrubInfo : Type 0 where
  pub modules : ModulesTag
  pub mmap_tag : MmapTag
  pub framebuffer : FramebufferTag

-- `for (i = 0; i < mmap_length; i += sizeof(memblock_t)) count += 1;` with blocks of 24 bytes.
unfoldable pub count_loop : (fuel i count mmap_length : ℕ) → Run ℕ
count_loop zero i count mmap_length = out_of_fuel
count_loop (suc fuel) i count mmap_length =
    let rest = count_loop fuel (u64 (i + 24)) (u64 (count + 1)) mmap_length in
    if ltb i mmap_length then rest else ok count

unfoldable pub get_nb_entries : (fuel : ℕ) → MultibootInfo → Run ℕ
get_nb_entries fuel src = count_loop fuel 0 0 src.mmap_length

unfoldable pub get_framebuffer : MultibootInfo → FramebufferTag
get_framebuffer src = record {
  identifier = 0x506461d2950408fa;
  framebuffer_addr = src.framebuffer_addr;
  framebuffer_width = u16 src.framebuffer_width;
  framebuffer_height = u16 src.framebuffer_heigth;
  framebuffer_pitch = u16 src.framebuffer_pitch;
  framebuffer_bpp = u16 src.framebuffer_bpp;
  memory_model = 1;
  red_mask_size = u8 src.framebuffer_red_mask_size;
  red_mask_shift = u8 src.framebuffer_red_field_position;
  green_mask_size = u8 src.framebuffer_green_mask_size;
  green_mask_shift = u8 src.framebuffer_green_field_position;
  blue_mask_size = u8 src.framebuffer_blue_mask_size;
  blue_mask_shift = u8 src.framebuffer_blue_field_position;
}

-- The loop over the blocks, which logs them, is left out.
unfoldable pub get_memmap : (fuel : ℕ) → MultibootInfo → Run MmapTag
get_memmap fuel src = do
  entries ← get_nb_entries fuel src
  ok (record { identifier = 0x2187f79e8612de07; entries = entries })

unfoldable pub get_modules : MultibootInfo → ModulesTag
get_modules src = record { identifier = 0x4b6fe466aade04ce; module_count = src.mods_count }

unfoldable pub convert : (fuel : ℕ) → MultibootInfo → Run GrubInfo
convert fuel src = do
  mmap_tag ← get_memmap fuel src
  ok (record { modules = get_modules src; mmap_tag = mmap_tag; framebuffer = get_framebuffer src })
