-- ===== src/Serial/Tests.antt =====
-- The text "ok" on a port that is always ready.
use raccoon_exok.Common.{ℕ, ◌≡◌, refl, [], ◌∷◌, ◌++◌, arith}
use raccoon_exok.Common.Run.{ok}
use raccoon_exok.Memory.{Memory}
use raccoon_exok.Memory.Text.{codes, placed, has_text-StrAt}
use raccoon_exok.Serial.{com1, com_initialize, com_write}
use raccoon_exok.Serial.Sent.{setup, sent, com_write-sent}

abbrev message : Memory
message = placed 100 (codes "ok" ++ (0 ∷ []))

com_write-sent_example :
    (n : ℕ) × (com_write
        (λ port count. 32)
        message
        4
        com1
        100
        0xffff
        (com_initialize com1 (record { written = []; reads = 0 }))
      ≡ ok (0xffff, record { written = setup com1 ++ sent com1 (codes "ok"); reads = n }))
com_write-sent_example =
    com_write-sent (λ port count. 32) message 4 com1 100 0xffff 0 (codes "ok")
      (λ n. (0, omega arith, refl)) (has_text-StrAt message 100 (codes "ok") refl) (omega arith)
      (omega arith)
