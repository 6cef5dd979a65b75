-- ===== src/Vmm/Search/Down.antt =====
-- The way from the outer loops of a search down to the table that holds an address.
use raccoon_exok.Common.{ℕ, suc, ◌+◌, ◌*◌, ◌/◌, ◌%◌, ◌^◌, ◌<◌, ◌≡◌, ◌==◌, arith, false}
use raccoon_exok.Common.Run.{Run, ok, out_of_fuel}
use raccoon_exok.Vmm.Address.{AddressOffset64, split}
use raccoon_exok.Vmm.Paging.{Vm, physical, read_entry}
use raccoon_exok.Vmm.Window.{entry_l4, entry_l3, entry_l2, entry_l1}
use raccoon_exok.Vmm.Tables.{OnPath, root, read_entry-OnPath, nonzero-OnPath}
use raccoon_exok.Vmm.Search.{
  Found, found, Visit, enter, search_l1, search_l2, search_l3, search_l4, address_of,
}

-- How a search can end without leaving the loop of its table.
pub data Ending {ℓ} (S : Type ℓ) : Run (Found S) → Type ℓ where
  finds : (x : ℕ) → Ending S (ok (found x))
  endless : Ending S out_of_fuel

abbrev pub at_page : AddressOffset64 → ℕ → AddressOffset64
at_page o k = record o { plm1 = k }

-- The fields of the address that is `m` pages further in the same table.
pub split-further :
    (x m : ℕ)
    → x / 2 ^ 12 % 512 + m < 512
    → split (x + m * 4096) ≡ at_page (split x) (x / 2 ^ 12 % 512 + m)
split-further x m h =
    λ i. record { plm0 = p0 i; plm1 = p1 i; plm2 = p2 i; plm3 = p3 i; plm4 = p4 i; unused = p5 i }
  where
    p0 : (x + m * 4096) % 4096 ≡ x % 4096
    p0 = omega arith

    p1 : (x + m * 4096) / 2 ^ 12 % 512 ≡ x / 2 ^ 12 % 512 + m
    p1 = omega arith

    p2 : (x + m * 4096) / 2 ^ 21 % 512 ≡ x / 2 ^ 21 % 512
    p2 = omega arith

    p3 : (x + m * 4096) / 2 ^ 30 % 512 ≡ x / 2 ^ 30 % 512
    p3 = omega arith

    p4 : (x + m * 4096) / 2 ^ 39 % 512 ≡ x / 2 ^ 39 % 512
    p4 = omega arith

    p5 : (x + m * 4096) / 2 ^ 48 ≡ x / 2 ^ 48
    p5 = omega arith

pub address_of-further :
    (x m : ℕ)
    → x / 2 ^ 12 % 512 + m < 512
    → address_of (at_page (split x) (x / 2 ^ 12 % 512 + m)) ≡ x + m * 4096
address_of-further x m h = omega arith

module _ (vm : Vm) (o : AddressOffset64) (t3 t2 t1 : ℕ)
    (tables : OnPath vm o.plm4 o.plm3 o.plm2 t3 t2 t1) where
  pub read_page :
      (k : ℕ)
      → k < 512
      → read_entry vm (entry_l1 o.plm4 o.plm3 o.plm2 k) ≡ ok (physical vm (t1 + k * 8))
  read_page k h = (read_entry-OnPath vm o.plm4 o.plm3 o.plm2 t3 t2 t1 tables k h).3

  reads :
      (read_entry vm (entry_l4 o.plm4) ≡ ok (physical vm (root vm + o.plm4 * 8)))
      × (read_entry vm (entry_l3 o.plm4 o.plm3) ≡ ok (physical vm (t3 + o.plm3 * 8)))
      × (read_entry vm (entry_l2 o.plm4 o.plm3 o.plm2) ≡ ok (physical vm (t2 + o.plm2 * 8)))
  reads =
      let (r4, r3, r2, r1) =
        read_entry-OnPath vm o.plm4 o.plm3 o.plm2 t3 t2 t1 tables 0 (omega arith) in
      (r4, r3, r2)

  nonzero :
      ((physical vm (root vm + o.plm4 * 8) == 0) ≡ false)
      × ((physical vm (t3 + o.plm3 * 8) == 0) ≡ false)
      × ((physical vm (t2 + o.plm2 * 8) == 0) ≡ false)
  nonzero = nonzero-OnPath vm o.plm4 o.plm3 o.plm2 t3 t2 t1 tables

  -- For a search that goes down at an entry that is not zero.
  module _ {ℓ} {S : Type ℓ} (visit : (level entry : ℕ) → AddressOffset64 → S → Visit S) (s : S)
      (enters : (level e : ℕ) → 1 < level → (e == 0) ≡ false → visit level e o s ≡ enter s) where
    pub search_l2-down :
        (fuel : ℕ) (r : Run (Found S))
        → Ending S r
        → search_l1 vm visit fuel o s ≡ r
        → search_l2 vm visit (suc fuel) o s ≡ r
    unfolding search_l2
    search_l2-down fuel r (finds x) e = ground (
      arith,
      reads.2,
      enters 2 (physical vm (t2 + o.plm2 * 8)) (omega arith) nonzero.2,
      tables.l2_lt,
      e,
    )
    search_l2-down fuel r endless e = ground (
      arith,
      reads.2,
      enters 2 (physical vm (t2 + o.plm2 * 8)) (omega arith) nonzero.2,
      tables.l2_lt,
      e,
    )

    pub search_l3-down :
        (fuel : ℕ) (r : Run (Found S))
        → Ending S r
        → search_l2 vm visit fuel o s ≡ r
        → search_l3 vm visit (suc fuel) o s ≡ r
    unfolding search_l3
    search_l3-down fuel r (finds x) e = ground (
      arith,
      reads.1,
      enters 3 (physical vm (t3 + o.plm3 * 8)) (omega arith) nonzero.1,
      tables.l3_lt,
      e,
    )
    search_l3-down fuel r endless e = ground (
      arith,
      reads.1,
      enters 3 (physical vm (t3 + o.plm3 * 8)) (omega arith) nonzero.1,
      tables.l3_lt,
      e,
    )

    pub search_l4-down :
        (fuel : ℕ) (r : Run (Found S))
        → Ending S r
        → search_l3 vm visit fuel o s ≡ r
        → search_l4 vm visit (suc fuel) o s ≡ r
    unfolding search_l4
    search_l4-down fuel r (finds x) e = ground (
      arith,
      reads.0,
      enters 4 (physical vm (root vm + o.plm4 * 8)) (omega arith) nonzero.0,
      tables.l4_lt,
      e,
    )
    search_l4-down fuel r endless e = ground (
      arith,
      reads.0,
      enters 4 (physical vm (root vm + o.plm4 * 8)) (omega arith) nonzero.0,
      tables.l4_lt,
      e,
    )

    pub search_l4-finds :
        (fuel x : ℕ)
        → search_l1 vm visit fuel o s ≡ ok (found x)
        → search_l4 vm visit (suc (suc (suc fuel))) o s ≡ ok (found x)
    search_l4-finds fuel x e = search_l4-down (suc (suc fuel)) (ok (found x)) (finds x) (
        search_l3-down (suc fuel) (ok (found x)) (finds x)
          (search_l2-down fuel (ok (found x)) (finds x) e))
