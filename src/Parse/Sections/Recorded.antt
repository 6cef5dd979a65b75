-- ===== src/Parse/Sections/Recorded.antt =====
-- `init_capabilities_record` of kernel/src/capability_recorder.c: the table is filled from the
-- capability file, and then all its capabilities are freed.
use raccoon_exok.Common.{ℕ, List}
use raccoon_exok.Common.Run.{Run, ok, ◌>>=◌}
use raccoon_exok.Memory.{Memory}
use raccoon_exok.Initfs.{Initfs}
use raccoon_exok.Capability.{Capability, max_capabilities}
use raccoon_exok.Capability.Record.{InterfaceRange, record_loop}
use raccoon_exok.Parse.Sections.{init_capabilities}

-- `filename` and `literal` are the addresses of the name of the capability file and of "framebuffer".
unfoldable pub init_capabilities_record :
    (fuel rounds filename literal current_system : ℕ) (framebuffer : InterfaceRange)
    → Initfs
    → List Capability
    → Run (List Capability × Memory)
init_capabilities_record fuel rounds filename literal current_system framebuffer s caps = do
  (caps, mem) ← init_capabilities fuel rounds filename max_capabilities current_system s caps
  caps ← record_loop mem fuel literal framebuffer caps
  ok (caps, mem)
