-- ===== src/Vmm/Handle/Once.antt =====
-- What happens once to a machine, whatever is asked of it in whatever order.
use virtle.Vmm.Handle.{mark, shut_down, requesting, requesting, mark, shut_down}
