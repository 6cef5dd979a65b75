-- ===== src/Vmm/Search/Empty.antt =====
-- What `search_empty_space` of arch/x86_64/src/vmm.c finds, and when it does not end.
use raccoon_exok.Common.{
  ℕ, zero, suc, ◌+◌, ◌*◌, ◌%◌, ◌<◌, ◌≡◌, ◌≢◌, refl, ap, subst, ◌∙◌, none, some, ◌==◌, arith, false,
}
use raccoon_exok.Common.Run.{ok, out_of_fuel, ◌>>=◌}
use raccoon_exok.Vmm.Address.{AddressOffset64, split}
use raccoon_exok.Vmm.Paging.{Vm, and_then, present, physical, translate, walk}
use raccoon_exok.Vmm.Window.{walk-page}
use raccoon_exok.Vmm.Tables.{OnPath, root}
use raccoon_exok.Vmm.Search.Down.{
  endless, at_page, read_page, split-further, address_of-further, search_l2-down, search_l3-down,
  search_l4-down, search_l4-finds,
}
use raccoon_exok.Vmm.Search.{
  enter, found, passed, search_l1, search_l2, search_l3, search_l4, empty_visit, search_empty_space,
  address_of,
}

module _ (vm : Vm) (o : AddressOffset64) (t3 t2 t1 : ℕ)
    (tables : OnPath vm o.plm4 o.plm3 o.plm2 t3 t2 t1) where
  used_at : (k : ℕ) → physical vm (t1 + (k + 0) * 8) ≢ 0 → physical vm (t1 + k * 8) ≢ 0
  used_at k = subst (λ (q : ℕ). physical vm q ≢ 0) (omega arith)

  free_at : (k : ℕ) → physical vm (t1 + (k + 0) * 8) ≡ 0 → physical vm (t1 + k * 8) ≡ 0
  free_at k = subst (λ (q : ℕ). physical vm q ≡ 0) (omega arith)

  search_l1-finds :
      (fuel m k : ℕ)
      → k + m < 512
      → m < fuel
      → ((i : ℕ) → i < m → physical vm (t1 + (k + i) * 8) ≢ 0)
      → physical vm (t1 + (k + m) * 8) ≡ 0
      → search_l1 vm empty_visit fuel (at_page o k) tt ≡ ok (found (address_of (at_page o (k + m))))
  unfolding search_l1
  search_l1-finds zero m k small enough used free = absurd (omega arith)
  search_l1-finds (suc fuel) zero k small enough used free =
      ground (arith, read_page vm o t3 t2 t1 tables k (omega arith), free_at k free)
  search_l1-finds (suc fuel) (suc m) k small enough used free = ground (
    arith,
    read_page vm o t3 t2 t1 tables k (omega arith),
    used_at k (used 0 (omega arith)),
    search_l1-finds fuel m (k + 1) (omega arith) (omega arith)
        (λ i h. later i (used (i + 1) (omega arith))) (here free),
  )
    where
      later :
          (i : ℕ)
          → physical vm (t1 + (k + (i + 1)) * 8) ≢ 0
          → physical vm (t1 + (k + 1 + i) * 8) ≢ 0
      later i = subst (λ (q : ℕ). physical vm q ≢ 0) (omega arith)

      here : physical vm (t1 + (k + suc m) * 8) ≡ 0 → physical vm (t1 + (k + 1 + m) * 8) ≡ 0
      here = subst (λ (q : ℕ). physical vm q ≡ 0) (omega arith)

  search_l1-endless :
      (fuel k : ℕ)
      → k < 512
      → ((i : ℕ) → i < 512 → physical vm (t1 + i * 8) ≢ 0)
      → search_l1 vm empty_visit fuel (at_page o k) tt ≡ out_of_fuel
  unfolding search_l1
  search_l1-endless zero k small full = refl
  search_l1-endless (suc fuel) k small full = ground (
    arith,
    read_page vm o t3 t2 t1 tables k small,
    full k small,
    search_l1-endless fuel ((k + 1) % 512) (omega arith) full,
  )

  empty_enters : (level e : ℕ) → 1 < level → (e == 0) ≡ false → empty_visit level e o tt ≡ enter tt
  empty_enters level e h nz = ground arith

  module _ (small : o.plm1 < 512) (full : (i : ℕ) → i < 512 → physical vm (t1 + i * 8) ≢ 0) where
    search_l2-endless : (fuel : ℕ) → search_l2 vm empty_visit fuel o tt ≡ out_of_fuel
    unfolding search_l2
    search_l2-endless zero = refl
    search_l2-endless (suc fuel) =
        search_l2-down vm o t3 t2 t1 tables empty_visit tt empty_enters fuel out_of_fuel endless
          (search_l1-endless fuel o.plm1 small full)

    search_l3-endless : (fuel : ℕ) → search_l3 vm empty_visit fuel o tt ≡ out_of_fuel
    unfolding search_l3
    search_l3-endless zero = refl
    search_l3-endless (suc fuel) =
        search_l3-down vm o t3 t2 t1 tables empty_visit tt empty_enters fuel out_of_fuel endless
          (search_l2-endless fuel)

    search_l4-endless : (fuel : ℕ) → search_l4 vm empty_visit fuel o tt ≡ out_of_fuel
    unfolding search_l4
    search_l4-endless zero = refl
    search_l4-endless (suc fuel) =
        search_l4-down vm o t3 t2 t1 tables empty_visit tt empty_enters fuel out_of_fuel endless
          (search_l3-endless fuel)

module _ (vm : Vm) (base_addr t3 t2 t1 : ℕ)
    (tables : OnPath vm
      (split base_addr).plm4
      (split base_addr).plm3
      (split base_addr).plm2
      t3
      t2
      t1) where
  -- From an address whose tables are there, with `m` entries of the last table in use from that of
  -- the address on and then an empty one before the table's end, `search_empty_space` returns, with
  -- `m + 4` rounds of fuel or more, the address `m` pages further, and that address is not mapped.
  pub search_empty_space-finds :
      (fuel m : ℕ)
      → m + 3 < fuel
      → (split base_addr).plm1 + m < 512
      → ((i : ℕ) → i < m → physical vm (t1 + ((split base_addr).plm1 + i) * 8) ≢ 0)
      → physical vm (t1 + ((split base_addr).plm1 + m) * 8) ≡ 0
      → (search_empty_space fuel base_addr vm ≡ ok (base_addr + m * 4096))
        × (translate (physical vm) vm.cr3 (base_addr + m * 4096) ≡ none)
  unfolding search_empty_space translate
  search_empty_space-finds zero m enough small used free = absurd (omega arith)
  search_empty_space-finds (suc zero) m enough small used free = absurd (omega arith)
  search_empty_space-finds (suc (suc zero)) m enough small used free = absurd (omega arith)
  search_empty_space-finds (suc (suc (suc fuel))) m enough small used free =
      let o = split base_addr in
      let whole =
        search_l4-finds vm o t3 t2 t1 tables empty_visit tt (empty_enters vm o t3 t2 t1 tables) fuel
          (address_of (at_page o (o.plm1 + m)))
          (search_l1-finds vm o t3 t2 t1 tables fuel m o.plm1 small (omega arith) used free) in
      (
        ap (λ r. r >>= λ q. elim q [ found x ↦ ok x | passed b u ↦ ok 0 ]) whole
            ∙ ap ok (address_of-further base_addr m small),
        ap (walk (physical vm) (root vm)) (split-further base_addr m small)
            ∙ walk-page (physical vm) (root vm) t3 t2 t1 (at_page o (o.plm1 + m)) tables.at_l4
                tables.at_l3 tables.at_l2
            ∙ ap (λ e. and_then (present e) (λ page. some (page + o.plm0))) free,
      )

  -- When all 512 entries of the last table on the path are in use, `search_empty_space` never ends:
  -- the loop goes round in that table whatever the fuel.
  pub search_empty_space-endless :
      (fuel : ℕ)
      → ((i : ℕ) → i < 512 → physical vm (t1 + i * 8) ≢ 0)
      → search_empty_space fuel base_addr vm ≡ out_of_fuel
  unfolding search_empty_space
  search_empty_space-endless fuel full =
      ap (λ r. r >>= λ q. elim q [ found x ↦ ok x | passed b u ↦ ok 0 ])
        (search_l4-endless vm (split base_addr) t3 t2 t1 tables (omega arith) full fuel)
