-- ===== src/Bootload/Tables/Limits.antt =====
-- The segments that arch/x86_64/bootload/gdt.c installs.
use raccoon_exok.Common.{ℕ, ◌+◌, ◌*◌, ◌^◌, ◌≡◌, refl}
use raccoon_exok.Bootload.Tables.{
  Segment, Tables, gdt_set_gate, gdt64_set_gate, gdt_install, set_64_gdt,
}

abbrev pub limit : Segment → ℕ
limit d = d.llimit + d.hlimit * 2 ^ 16

-- From any tables, `gdt_install` gives the entries 1 to 4
-- the largest limit; `set_64_gdt` behind it lowers the limit of the kernel's entries 1 and 2 of that
-- table to `0xffff`, leaves the user's entries 3 and 4, and does not set the upper limit bits of its
-- own table.
pub set_64_gdt-limit :
    (t : Tables)
    → (let u = gdt_install t in
        let v = set_64_gdt u in
        (limit (u.gdt 1) ≡ 0xfffff)
        × (limit (u.gdt 2) ≡ 0xfffff)
        × (limit (u.gdt 3) ≡ 0xfffff)
        × (limit (u.gdt 4) ≡ 0xfffff)
        × (limit (v.gdt 1) ≡ 0xffff)
        × (limit (v.gdt 2) ≡ 0xffff)
        × (limit (v.gdt 3) ≡ 0xfffff)
        × (limit (v.gdt 4) ≡ 0xfffff)
        × ((v.gdt_64 1).entry.hlimit ≡ (t.gdt_64 1).entry.hlimit))
unfolding gdt_install set_64_gdt gdt_set_gate gdt64_set_gate
set_64_gdt-limit t = (refl, refl, refl, refl, refl, refl, refl, refl, refl)
