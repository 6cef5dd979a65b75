-- ===== src/Serial.antt =====
-- arch/x86_64/src/serial.c: the serial port, as reads and writes of 8-bit ports.
pub mod Sent
mod Tests
use raccoon_exok.Common.{
  ℕ, zero, suc, ◌+◌, ◌/◌, ◌^◌, bit_and, bit_or, List, [], ◌∷◌, ◌++◌, ltb, ◌==◌, if◌then◌else◌,
}
use raccoon_exok.Common.Run.{Run, ok, out_of_fuel, ◌>>=◌}
use raccoon_exok.Common.Word.{u8}
use raccoon_exok.Memory.{Memory, load}

abbrev pub com1 : ℕ
com1 = 0x3F8

abbrev pub com_data : ℕ
com_data = 0

abbrev pub com_interrupt : ℕ
com_interrupt = 1

abbrev pub com_baud_rate_low : ℕ
com_baud_rate_low = 0

abbrev pub com_baud_rate_high : ℕ
com_baud_rate_high = 1

abbrev pub com_interrupt_identificator : ℕ
com_interrupt_identificator = 2

abbrev pub com_line_control : ℕ
com_line_control = 3

abbrev pub com_modem_control : ℕ
com_modem_control = 4

abbrev pub com_line_status : ℕ
com_line_status = 5

abbrev pub com_line_transmitter_buffer_empty : ℕ
com_line_transmitter_buffer_empty = 2 ^ 5

-- What was written to ports, the first first, and how often a port was read.
pub record Ports : Type 0 where
  pub written : List (ℕ × ℕ)
  pub reads : ℕ

abbrev pub com_write_reg : (port reg value : ℕ) → Ports → Ports
com_write_reg port reg value s = record s { written = s.written ++ ((port + reg, u8 value) ∷ []) }

-- `asm_in8` of a device that answers each read, counted from 0, by a byte.
module _ (answer : (port count : ℕ) → ℕ) where
  abbrev pub com_read_reg : (port reg : ℕ) → Ports → ℕ × Ports
  com_read_reg port reg s = (answer (port + reg) s.reads, record s { reads = s.reads + 1 })

  -- `while(!com_can_write(port));`
  unfoldable pub com_wait_write : (fuel port : ℕ) → Ports → Run Ports
  com_wait_write zero port s = out_of_fuel
  com_wait_write (suc fuel) port s =
      let (status, s) = com_read_reg port com_line_status s in
      if bit_and status com_line_transmitter_buffer_empty == 0
      then com_wait_write fuel port s
      else ok s

  unfoldable pub com_putc : (fuel port c : ℕ) → Ports → Run Ports
  com_putc fuel port c s = com_wait_write fuel port s >>= λ s. ok (com_write_reg port com_data c s)

  -- The loop from byte `i` on, with `rounds` of fuel for it and `fuel` for each wait.
  unfoldable pub write_loop :
      (mem : Memory) (fuel port buffer size rounds i : ℕ) → Ports → Run Ports
  unfolding load
  write_loop mem fuel port buffer size zero i s = out_of_fuel
  write_loop mem fuel port buffer size (suc rounds) i s =
      if ltb i size
      then (load mem (buffer + i) >>= λ c.
          let more =
            com_putc fuel port c s >>= write_loop mem fuel port buffer size rounds (i + 1) in
          if c == 0 then ok s else more)
      else ok s

  -- The result is `size`, also when a 0 ended the text before.
  unfoldable pub com_write : (mem : Memory) (fuel port buffer size : ℕ) → Ports → Run (ℕ × Ports)
  com_write mem fuel port buffer size s =
      write_loop mem fuel port buffer size fuel 0 s >>= λ s. ok (size, s)

unfoldable pub com_initialize : (port : ℕ) → Ports → Ports
com_initialize port s =
    let s0 = com_write_reg port com_interrupt_identificator 0 s in
    let s1 = com_write_reg port com_line_control (2 ^ 7) s0 in
    let s2 = com_write_reg port com_baud_rate_low (115200 / 9600) s1 in
    let s3 = com_write_reg port com_baud_rate_high 0 s2 in
    let s4 = com_write_reg port com_line_control 3 s3 in
    let s5 = com_write_reg port com_modem_control (bit_or (bit_or (2 ^ 0) (2 ^ 1)) (2 ^ 3)) s4 in
    com_write_reg port com_interrupt (2 ^ 0) s5
