-- ===== src/Processes/Values.antt =====
-- src/processes.c: what the parameters of an instance of Process read. none is a null pointer, for which the value is
-- empty.
use sysmngr.Prelude.{ℕ, false, Option, none, some, List, [], map, Text}
use sysmngr.Libc.{decimal}
use sysmngr.Procps.{ProcessEntry}
use sysmngr.Processes.{ProcessCtx, browse_process_entries_inst}

unfoldable pub get_process_pid : Option ProcessEntry → Text
get_process_pid none = []
get_process_pid (some entry) = entry.pid

unfoldable pub get_process_command : Option ProcessEntry → Text
get_process_command none = []
get_process_command (some entry) = entry.command

unfoldable pub get_process_size : Option ProcessEntry → Text
get_process_size none = []
get_process_size (some entry) = entry.size

unfoldable pub get_process_priority : Option ProcessEntry → Text
get_process_priority none = []
get_process_priority (some entry) = entry.priority

unfoldable pub get_process_cpu_time : Option ProcessEntry → Text
get_process_cpu_time none = []
get_process_cpu_time (some entry) = entry.cputime

unfoldable pub get_process_state : Option ProcessEntry → Text
get_process_state none = []
get_process_state (some entry) = entry.state

-- `number_of_entries` is get_number_of_entries on the instances that the browse function links; the browsing may set
-- the timer.
unfoldable pub get_process_number_of_entries :
    (number_of_entries : List ℕ → ℕ) → ProcessCtx → Text × ProcessCtx
unfolding browse_process_entries_inst
get_process_number_of_entries number_of_entries s =
    let (instances, t) = browse_process_entries_inst (λ i. false) s in
    (decimal (number_of_entries (map (λ i. i.0) instances)), t)
