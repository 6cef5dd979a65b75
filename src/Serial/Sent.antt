-- ===== src/Serial/Sent.antt =====
-- What `com_write` of arch/x86_64/src/serial.c sends.
use mathlib.Core.List.{append-nil, append_assoc}
use raccoon_exok.Common.{
  ℕ, zero, suc, ◌+◌, ◌<◌, ◌≤◌, ◌≡◌, refl, ◌∙◌, ap, ap₂, subst, bit_and, List, [], ◌∷◌, ◌++◌, map,
  length, ◌==◌, if◌then◌else◌, Bool, true, false, Bool-cases, inl, inr, arith,
}
use raccoon_exok.Common.Run.{ok, ◌>>=◌}
use raccoon_exok.Memory.{Memory, load, StrAt}
use raccoon_exok.Serial.{
  Ports, com_line_status, com_line_transmitter_buffer_empty, com_write_reg, com_wait_write,
  com_putc, write_loop, com_write, com_initialize, com_data,
}

-- Whether the read `n` of the status says that the port cannot take a byte.
abbrev pub busy : (answer : ℕ → ℕ → ℕ) (port n : ℕ) → Bool
busy answer port n =
    bit_and (answer (port + com_line_status) n) com_line_transmitter_buffer_empty == 0

-- From every read on the device is ready within `fuel` reads.
abbrev pub IsReady : (answer : ℕ → ℕ → ℕ) (fuel port : ℕ) → Type 0
IsReady answer fuel port = (n : ℕ) → (k : ℕ) × (k < fuel) × (busy answer port (n + k) ≡ false)

-- The writes that send a text.
abbrev pub sent : (port : ℕ) → List ℕ → List (ℕ × ℕ)
sent port t = map (λ c. (port, c)) t

module _ (answer : ℕ → ℕ → ℕ) where
  com_wait_write-now :
      (fuel port : ℕ) (s : Ports)
      → busy answer port s.reads ≡ false
      → com_wait_write answer (suc fuel) port s ≡ ok (record s { reads = s.reads + 1 })
  unfolding com_wait_write
  com_wait_write-now fuel port s now =
      ap
        (λ b.
          if b
          then com_wait_write answer fuel port (record s { reads = s.reads + 1 })
          else ok (record s { reads = s.reads + 1 }))
        now

  com_wait_write-later :
      (fuel port : ℕ) (s : Ports)
      → busy answer port s.reads ≡ true
      → com_wait_write answer (suc fuel) port s
        ≡ com_wait_write answer fuel port (record s { reads = s.reads + 1 })
  unfolding com_wait_write
  com_wait_write-later fuel port s later =
      ap
        (λ b.
          if b
          then com_wait_write answer fuel port (record s { reads = s.reads + 1 })
          else ok (record s { reads = s.reads + 1 }))
        later

  -- Waiting writes nothing.
  com_wait_write-ends :
      (fuel port k : ℕ) (s : Ports)
      → k < fuel
      → busy answer port (s.reads + k) ≡ false
      → (n : ℕ) × (com_wait_write answer fuel port s ≡ ok (record s { reads = n }))
  com_wait_write-ends zero port k s h ready = absurd (omega arith)
  com_wait_write-ends (suc fuel) port zero s h ready = (
    s.reads + 1,
    com_wait_write-now fuel port s
        (ap (λ (m : ℕ). busy answer port m) {x = s.reads} {y = s.reads + 0} (omega arith) ∙ ready),
  )
  com_wait_write-ends (suc fuel) port (suc k) s h ready =
      elim (Bool-cases (busy answer port s.reads)) [
        | inr now ↦ (s.reads + 1, com_wait_write-now fuel port s now)
        | inl later ↦
            let (n, ends) =
              com_wait_write-ends fuel port k (record s { reads = s.reads + 1 }) (omega arith)
                (ap (λ (m : ℕ). busy answer port m) {x = s.reads + 1 + k} {y = s.reads + suc k}
                    (omega arith)
                  ∙ ready) in
            (n, com_wait_write-later fuel port s later ∙ ends)
      ]

  com_putc-sends :
      (fuel port c : ℕ) (s : Ports)
      → IsReady answer fuel port
      → c < 256
      → (n : ℕ) × (com_putc answer fuel port c s
          ≡ ok (record { written = s.written ++ ((port, c) ∷ []); reads = n }))
  unfolding com_putc
  com_putc-sends fuel port c s ready small =
      let (k, h, now) = ready s.reads in
      let (n, ends) = com_wait_write-ends fuel port k s h now in
      (
        n,
        ap (λ m. m >>= λ s. ok (com_write_reg port com_data c s)) ends
            ∙ ap₂ (λ (p v : ℕ). ok (record { written = s.written ++ ((p, v) ∷ []); reads = n }))
                (omega arith) (omega arith),
      )

  write_loop-sends :
      (mem : Memory) (fuel port buffer size rounds i : ℕ) (t : List ℕ) (s : Ports)
      → IsReady answer fuel port
      → StrAt mem (buffer + i) t
      → i + length t ≤ size
      → length t < rounds
      → (n : ℕ) × (write_loop answer mem fuel port buffer size rounds i s
          ≡ ok (record { written = s.written ++ sent port t; reads = n }))
  unfolding write_loop load
  write_loop-sends mem fuel port buffer size zero i t s ready at fits h = absurd (omega arith)
  write_loop-sends mem fuel port buffer size (suc rounds) i [] s ready at fits h =
      (s.reads, ground (arith, at, append-nil s.written))
  write_loop-sends mem fuel port buffer size (suc rounds) i (c ∷ t) s ready (here, nz, small, at)
        fits h =
      let (n, puts) = com_putc-sends fuel port c s ready small in
      let s1 : Ports = record { written = s.written ++ ((port, c) ∷ []); reads = n } in
      let (m, later) =
        write_loop-sends mem fuel port buffer size rounds (i + 1) t s1 ready
          (subst (λ (q : ℕ). StrAt mem q t) (omega arith) at) (omega arith) (omega arith) in
      (m, ground (arith, here, puts, later, append_assoc s.written ((port, c) ∷ []) (sent port t)))

-- The writes of `com_initialize`: the interrupts off, the divisor 12 of 9600 bauds, 8 bits a byte, and
-- the port on.
abbrev pub setup : (port : ℕ) → List (ℕ × ℕ)
setup port =
    (port + 2, 0)
    ∷ (port + 3, 128)
    ∷ (port + 0, 12)
    ∷ (port + 1, 0)
    ∷ (port + 3, 3)
    ∷ (port + 4, 11)
    ∷ (port + 1, 1)
    ∷ []

com_initialize-setup :
    (port : ℕ) (n : ℕ)
    → com_initialize port (record { written = []; reads = n })
      ≡ record { written = setup port; reads = n }
unfolding com_initialize
com_initialize-setup port n = refl

-- With a device that is ready within `fuel` reads again and again, `com_write` behind
-- `com_initialize` ends for a text that is shorter than `fuel` and not longer than `size`: the ports
-- got the set-up, then the characters of the text in their order, each once, and nothing else; the
-- result is `size`, and not the number of characters.
pub com_write-sent :
    (answer : ℕ → ℕ → ℕ) (mem : Memory) (fuel port buffer size start : ℕ) (t : List ℕ)
    → IsReady answer fuel port
    → StrAt mem buffer t
    → length t ≤ size
    → length t < fuel
    → (n : ℕ) × (com_write answer mem fuel port buffer size
          (com_initialize port (record { written = []; reads = start }))
        ≡ ok (size, record { written = setup port ++ sent port t; reads = n }))
unfolding com_write
com_write-sent answer mem fuel port buffer size start t ready at fits h =
    let (n, sends) =
      write_loop-sends answer mem fuel port buffer size fuel 0 t
        (record { written = setup port; reads = start }) ready
        (subst (λ (q : ℕ). StrAt mem q t) (omega arith) at) (omega arith) h in
    (n, ground (arith, com_initialize-setup port start, sends))
