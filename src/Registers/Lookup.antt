-- ===== src/Registers/Lookup.antt =====
-- The registers by their names, arch/x86_64/src/cpu_regs.c.
use raccoon_exok.Common.{
  ℕ, zero, suc, ◌+◌, ◌<◌, ◌≤◌, ◌≡◌, ◌∙◌, ap, sym, subst, true, false, ◌&&◌, some, List, length,
  ◌==◌, if◌then◌else◌, arith,
}
use raccoon_exok.Common.Run.{ok}
use raccoon_exok.Common.Limits.{max_core}
use raccoon_exok.Memory.{Memory, StrAt}
use raccoon_exok.Memory.Text.{codes}
use raccoon_exok.Strings.Equality.{same_text, my_strcmp-same_text}
use raccoon_exok.Registers.{
  PairNameValue, CpuRegs, init_cpu_regs, find_loop, find, store_value,
  struct_cpu_regs_interface_set, struct_cpu_regs_interface_get,
}

-- The names of the first four entries of a row, and the name of entry `k`.
abbrev pub text : ℕ → List ℕ
text k =
    if k == 0
    then codes "idtr"
    else if k == 1
    then codes "gdtr"
    else if k == 2
    then codes "cr3"
    else codes "rflags"

abbrev pub name_of : (idtr gdtr cr3 rflags k : ℕ) → ℕ
name_of idtr gdtr cr3 rflags k =
    if k == 0 then idtr else if k == 1 then gdtr else if k == 2 then cr3 else rflags

module _ (idtr gdtr cr3 rflags : ℕ) where
  -- Not initialised yet, or the first four entries of each row have their names.
  pub data IsRegs (s : CpuRegs) : Type 0 where
    before : s.is_init ≡ false → IsRegs s
    ready :
        s.is_init ≡ true
        → ((core k : ℕ)
            → core < max_core
            → k < 4
            → (s.table core k).name ≡ name_of idtr gdtr cr3 rflags k)
        → IsRegs s

  -- The four texts stand in the memory.
  abbrev pub Texts : Memory → Type 0
  Texts mem =
      StrAt mem idtr (text 0)
      × StrAt mem gdtr (text 1)
      × StrAt mem cr3 (text 2)
      × StrAt mem rflags (text 3)

module _ (mem : Memory) (fuel : ℕ) where
  find_loop-step :
      (row : ℕ → PairNameValue) (id rounds i : ℕ) (s t : List ℕ)
      → i < 16
      → StrAt mem (row i).name s
      → StrAt mem id t
      → length s < fuel
      → find_loop mem fuel row id (suc rounds) i
        ≡ (if same_text s t then ok (some i) else find_loop mem fuel row id rounds (i + 1))
  unfolding find_loop
  find_loop-step row id rounds i s t h at at_id short =
      ground (arith, my_strcmp-same_text mem fuel (row i).name id s t at at_id short)

  -- The row holds the four names.
  abbrev NamedRow : (ℕ → PairNameValue) → Type 0
  NamedRow row = (k : ℕ) → k < 4 → StrAt mem (row k).name (text k)

  length-text : (k : ℕ) → k < 4 → length (text k) ≤ 6
  length-text zero h = omega arith
  length-text (suc zero) h = omega arith
  length-text (suc (suc zero)) h = omega arith
  length-text (suc (suc (suc zero))) h = omega arith
  length-text (suc (suc (suc (suc k)))) h = absurd (omega arith)

  find_loop-named :
      (row : ℕ → PairNameValue) (id k rounds i : ℕ)
      → 6 < fuel
      → NamedRow row
      → StrAt mem id (text k)
      → i < 4
      → find_loop mem fuel row id (suc rounds) i ≡ (
          if same_text (text i) (text k)
          then ok (some i)
          else find_loop mem fuel row id rounds (i + 1))
  find_loop-named row id k rounds i enough named at h =
      find_loop-step row id rounds i (text i) (text k) (omega arith) (named i h) at
        (omega (arith, length-text i h))

  find_loop-text :
      (row : ℕ → PairNameValue) (id k : ℕ)
      → 6 < fuel
      → NamedRow row
      → StrAt mem id (text k)
      → k < 4
      → find_loop mem fuel row id 32 0 ≡ ok (some k)
  unfolding same_text
  find_loop-text row id zero enough named at h =
      find_loop-named row id 0 31 0 enough named at (omega arith)
  find_loop-text row id (suc zero) enough named at h =
      find_loop-named row id 1 31 0 enough named at (omega arith)
      ∙ find_loop-named row id 1 30 1 enough named at (omega arith)
  find_loop-text row id (suc (suc zero)) enough named at h =
      find_loop-named row id 2 31 0 enough named at (omega arith)
      ∙ find_loop-named row id 2 30 1 enough named at (omega arith)
      ∙ find_loop-named row id 2 29 2 enough named at (omega arith)
  find_loop-text row id (suc (suc (suc zero))) enough named at h =
      find_loop-named row id 3 31 0 enough named at (omega arith)
      ∙ find_loop-named row id 3 30 1 enough named at (omega arith)
      ∙ find_loop-named row id 3 29 2 enough named at (omega arith)
      ∙ find_loop-named row id 3 28 3 enough named at (omega arith)
  find_loop-text row id (suc (suc (suc (suc k)))) enough named at h = absurd (omega arith)

module _ (mem : Memory) (idtr gdtr cr3 rflags fuel : ℕ) where
  Texts-name_of :
      Texts idtr gdtr cr3 rflags mem
      → (k : ℕ) → k < 4
      → StrAt mem (name_of idtr gdtr cr3 rflags k) (text k)
  Texts-name_of (t0, t1, t2, t3) zero h = t0
  Texts-name_of (t0, t1, t2, t3) (suc zero) h = t1
  Texts-name_of (t0, t1, t2, t3) (suc (suc zero)) h = t2
  Texts-name_of (t0, t1, t2, t3) (suc (suc (suc zero))) h = t3
  Texts-name_of (t0, t1, t2, t3) (suc (suc (suc (suc k)))) h = absurd (omega arith)

  init_cpu_regs-name :
      (s : CpuRegs) (core k : ℕ)
      → IsRegs idtr gdtr cr3 rflags s
      → core < max_core
      → k < 4
      → ((init_cpu_regs idtr gdtr cr3 rflags s).table core k).name ≡ name_of idtr gdtr cr3 rflags k
  unfolding init_cpu_regs
  init_cpu_regs-name s core k (before off) h g = ground (arith, off)
  init_cpu_regs-name s core k (ready on names) h g = ground (arith, on, names core k h g)

  init_cpu_regs-is_init : (s : CpuRegs) → (init_cpu_regs idtr gdtr cr3 rflags s).is_init ≡ true
  unfolding init_cpu_regs
  init_cpu_regs-is_init s = ground arith

  find-text :
      (s : CpuRegs) (id core k : ℕ)
      → Texts idtr gdtr cr3 rflags mem
      → 6 < fuel
      → IsRegs idtr gdtr cr3 rflags s
      → core < max_core
      → k < 4
      → StrAt mem id (text k)
      → find mem fuel id core (init_cpu_regs idtr gdtr cr3 rflags s) ≡ ok (some k)
  unfolding find
  find-text s id core k texts enough regs h g at =
      let named : NamedRow mem fuel ((init_cpu_regs idtr gdtr cr3 rflags s).table core) = λ j small.
        subst (λ (p : ℕ). StrAt mem p (text j)) (sym (init_cpu_regs-name s core j regs h small))
          (Texts-name_of texts j small) in
      ground (
        arith,
        find_loop-text mem fuel ((init_cpu_regs idtr gdtr cr3 rflags s).table core) id k enough
            named at g,
      )

  set-found :
      (s : CpuRegs) (id value core k : ℕ)
      → find mem fuel id core (init_cpu_regs idtr gdtr cr3 rflags s) ≡ ok (some k)
      → struct_cpu_regs_interface_set mem idtr gdtr cr3 rflags fuel id value core s
        ≡ ok (1, store_value (init_cpu_regs idtr gdtr cr3 rflags s) core k value)
  unfolding struct_cpu_regs_interface_set
  set-found s id value core k found = ground (arith, found)

  get-found :
      (s : CpuRegs) (id core k : ℕ)
      → find mem fuel id core (init_cpu_regs idtr gdtr cr3 rflags s) ≡ ok (some k)
      → struct_cpu_regs_interface_get mem idtr gdtr cr3 rflags fuel id core s
        ≡ ok (
          some ((init_cpu_regs idtr gdtr cr3 rflags s).table core k).value,
          init_cpu_regs idtr gdtr cr3 rflags s,
        )
  unfolding struct_cpu_regs_interface_get
  get-found s id core k found = ground (arith, found)

  init_cpu_regs-done : (t : CpuRegs) → t.is_init ≡ true → init_cpu_regs idtr gdtr cr3 rflags t ≡ t
  unfolding init_cpu_regs
  init_cpu_regs-done t on = ground (arith, on)

  store_value-IsRegs :
      (s : CpuRegs) (core k value : ℕ)
      → IsRegs idtr gdtr cr3 rflags s
      → IsRegs idtr gdtr cr3 rflags
          (store_value (init_cpu_regs idtr gdtr cr3 rflags s) core k value)
  store_value-IsRegs s core k value regs =
      let t = init_cpu_regs idtr gdtr cr3 rflags s in
      ready (init_cpu_regs-is_init s) (λ c j hc hj. at t c j (init_cpu_regs-name s c j regs hc hj))
    where
      at :
          (t : CpuRegs) (c j : ℕ)
          → (t.table c j).name ≡ name_of idtr gdtr cr3 rflags j
          → ((store_value t core k value).table c j).name ≡ name_of idtr gdtr cr3 rflags j
      at t c j h = ground (arith, h)

  -- For each of the four register names and each core, with fuel above the length of the names,
  -- setting a value succeeds, keeps the table well formed, and after it a value that is read under
  -- any of the four names for any core is the one that was set when core and name are the same, and
  -- else the one that was recorded before.
  pub get-set :
      (s : CpuRegs) (id id' value core core' k k' : ℕ)
      → Texts idtr gdtr cr3 rflags mem
      → 6 < fuel
      → IsRegs idtr gdtr cr3 rflags s
      → core < max_core
      → core' < max_core
      → k < 4
      → k' < 4
      → StrAt mem id (text k)
      → StrAt mem id' (text k')
      → (s' : CpuRegs) × (struct_cpu_regs_interface_set mem idtr gdtr cr3 rflags fuel id value core
            s
          ≡ ok (1, s'))
        × IsRegs idtr gdtr cr3 rflags s'
        × (struct_cpu_regs_interface_get mem idtr gdtr cr3 rflags fuel id' core' s'
            ≡ ok (
              some (
                  if core == core' && k == k'
                  then value
                  else ((init_cpu_regs idtr gdtr cr3 rflags s).table core' k').value),
              s',
            ))
  get-set s id id' value core core' k k' texts enough regs h h' g g' at at' =
      let t = init_cpu_regs idtr gdtr cr3 rflags s in
      let s' = store_value t core k value in
      let regs' = store_value-IsRegs s core k value regs in
      let kept = init_cpu_regs-done s' (init_cpu_regs-is_init s) in
      (
        s',
        set-found s id value core k (find-text s id core k texts enough regs h g at),
        regs',
        get-found s' id' core' k' (find-text s' id' core' k' texts enough regs' h' g' at')
            ∙ ap (λ (u : CpuRegs). ok (some (u.table core' k').value, u)) kept
            ∙ ap (λ (v : ℕ). ok (some v, s')) (value_at t),
      )
    where
      value_at :
          (t : CpuRegs)
          → ((store_value t core k value).table core' k').value
            ≡ (if core == core' && k == k' then value else (t.table core' k').value)
      value_at t = ground arith
