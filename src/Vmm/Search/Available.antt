-- ===== src/Vmm/Search/Available.antt =====
-- What `search_available` of arch/x86_64/src/vmm.c finds in one table.
use raccoon_exok.Common.{
  ℕ, zero, suc, ◌+◌, ◌*◌, ◌/◌, ◌%◌, ◌^◌, ◌≤◌, ◌<◌, ◌≡◌, ap, ◌∙◌, ◌==◌, arith, false,
}
use raccoon_exok.Common.Run.{ok, ◌>>=◌}
use raccoon_exok.Common.Word.{sub64, mul64}
use raccoon_exok.Vmm.Address.{AddressOffset64, split}
use raccoon_exok.Vmm.Paging.{Vm, physical}
use raccoon_exok.Vmm.Tables.{OnPath}
use raccoon_exok.Vmm.Search.{
  found, passed, enter, search_l1, available_visit, search_available, address_of, pages_of,
  arch_page_size,
}
use raccoon_exok.Vmm.Search.Down.{search_l4-finds, at_page, read_page, address_of-further}

module _ (vm : Vm) (base_addr t3 t2 t1 n : ℕ)
    (tables : OnPath vm
      (split base_addr).plm4
      (split base_addr).plm3
      (split base_addr).plm2
      t3
      t2
      t1) where
  -- With `left` entries still wanted from `k` on, all empty, and one more behind them.
  search_l1-counts :
      (fuel left k : ℕ)
      → k + left < 512
      → left < fuel
      → ((i : ℕ) → k ≤ i → i ≤ k + left → physical vm (t1 + i * 8) ≡ 0)
      → search_l1 vm (available_visit n) fuel (at_page (split base_addr) k) left
        ≡ ok (
            found (
              sub64
                (address_of (at_page (split base_addr) (k + left)))
                (mul64 (sub64 n 1) arch_page_size)))
  unfolding search_l1
  search_l1-counts zero left k small enough free = absurd (omega arith)
  search_l1-counts (suc fuel) zero k small enough free = ground (
    arith,
    read_page vm (split base_addr) t3 t2 t1 tables k (omega arith),
    free k (omega arith) (omega arith),
  )
  search_l1-counts (suc fuel) (suc left) k small enough free = ground (
    arith,
    read_page vm (split base_addr) t3 t2 t1 tables k (omega arith),
    free k (omega arith) (omega arith),
    search_l1-counts fuel left (k + 1) (omega arith) (omega arith)
        (λ i h g. free i (omega arith) (omega arith)),
  )

available_enters :
    (n : ℕ) (o : AddressOffset64) (left level e : ℕ)
    → 1 < level
    → (e == 0) ≡ false
    → available_visit n level e o left ≡ enter left
available_enters n o left level e h nz = ground arith

last_pages :
    (base n : ℕ)
    → base < 2 ^ 48
    → 0 < n
    → base / 2 ^ 12 % 512 + n < 512
    → sub64 (base + n * 4096) (mul64 (sub64 n 1) arch_page_size) ≡ base + 4096
last_pages base n low pos small = omega arith

module _ (vm : Vm) (base_addr size t3 t2 t1 : ℕ)
    (tables : OnPath vm
      (split base_addr).plm4
      (split base_addr).plm3
      (split base_addr).plm2
      t3
      t2
      t1) where
  -- With `n` pages wanted, and the entry of the address and the `n` behind it empty in one table,
  -- `search_available` returns, with `n + 4` rounds of fuel or more, the address one page behind the
  -- one it started from, although that was free: the `n` pages from the result on are the last of
  -- the empty ones.
  pub search_available-finds :
      (fuel : ℕ)
      → 0 < pages_of size
      → base_addr < 2 ^ 48
      → pages_of size + 3 < fuel
      → (split base_addr).plm1 + pages_of size < 512
      → ((i : ℕ)
          → (split base_addr).plm1 ≤ i
          → i ≤ (split base_addr).plm1 + pages_of size
          → physical vm (t1 + i * 8) ≡ 0)
      → search_available fuel base_addr size vm ≡ ok (base_addr + 4096)
  unfolding search_available
  search_available-finds zero some_page low enough small free = absurd (omega arith)
  search_available-finds (suc zero) some_page low enough small free = absurd (omega arith)
  search_available-finds (suc (suc zero)) some_page low enough small free = absurd (omega arith)
  search_available-finds (suc (suc (suc fuel))) some_page low enough small free =
      let n = pages_of size in
      let o = split base_addr in
      let end = sub64 (address_of (at_page o (o.plm1 + n))) (mul64 (sub64 n 1) arch_page_size) in
      ap (λ r. r >>= λ q. elim q [ found x ↦ ok x | passed b u ↦ ok 0 ])
        (search_l4-finds vm o t3 t2 t1 tables (available_visit n) n (available_enters n o n) fuel
          end
          (search_l1-counts vm base_addr t3 t2 t1 n tables fuel n o.plm1 small (omega arith) free))
      ∙ ap (λ (a : ℕ). ok (sub64 a (mul64 (sub64 n 1) arch_page_size)))
          (address_of-further base_addr n small)
      ∙ ap ok (last_pages base_addr n low some_page small)
