-- ===== src/Examples/Endings.antt =====
-- A program that ends itself.
use tju_cinea_os.Prelude.{◌≡◌, refl, true, false, [], ◌∷◌, ok, panic, arith, drop}
use tju_cinea_os.Prelude.Map
use tju_cinea_os.Prelude.Map.{nat_key}
use tju_cinea_os.Scheduler.Stepped.{first_ready}
use tju_cinea_os.Examples.Scheduling.{two, two-IsRing}
use tju_cinea_os.Process.{Processes, new_process, pool_insert}
use tju_cinea_os.Process.Spawn.{exit}
use tju_cinea_os.Process.Pool.{IsPooled}
use tju_cinea_os.Process.Exited.{exit-IsPooled}
use tju_cinea_os.Scheduler.State.{rotation}
use tju_cinea_os.Scheduler.Table.{node_at}
use tju_cinea_os.Scheduler.Ring.{erase}
use tju_cinea_os.Interrupts.{System, Cpu}
use tju_cinea_os.Interrupts.Syscalls.{Services, resumed, syscall_handler, call_exit}
use tju_cinea_os.Interrupts.Leaving.{syscall_handler-exit}
use tju_cinea_os.Examples.Scheduling.{events, sleeping}
use tju_cinea_os.Examples.Processes.{machine, free_ids, created, its_process, first_process}

-- The kernel and the started program in the ring, with the program running.
abbrev pub started : Processes (Unit {0})
started = record created { pid = 1; scheduler = two }

started-IsPooled : IsPooled started (1 ∷ []) []
unfolding rotation node_at new_process
started-IsPooled = record {
  ring = two-IsRing;
  order = omega arith;
  free_below = λ q h. ground arith;
  live_below = λ q h. ground arith;
  split = λ q a b. ground arith;
  own = λ q proc h e. ground arith;
}

exit-IsPooled_example :
    (q : Processes (Unit {0})) × (exit machine started ≡ ok (0, q))
    × IsPooled q (erase 1 (1 ∷ [])) (1 ∷ [])
    × (q.pool ≡ pool_insert 1 (drop 1 free_ids))
    × (rotation q.scheduler (erase 1 (1 ∷ [])) ≡ erase 1 (rotation two (1 ∷ [])))
unfolding first_ready node_at Map.lookup
exit-IsPooled_example =
    exit-IsPooled machine started (1 ∷ []) [] (0 ∷ []) [] its_process 1 0 started-IsPooled
      (omega arith) refl refl refl refl refl refl refl

abbrev pub system : System (Unit {0})
system = record {
  processes = record started { schedule = true };
  events = events;
  sleep = sleeping;
  sleep_id = 1000000;
  even_odd_flag = false;
  time_update_needers = [];
  no_schedule = false;
  last_schedule = 0;
  ticks = 5;
}

abbrev pub cpu : Cpu
cpu = record {
  frame = record its_process.stack_frame { instruction_pointer = 4336910338 };
  regs = record its_process.registers { rax = 7 };
}

system-IsPooled : IsPooled system.processes (1 ∷ []) []
system-IsPooled = record {
  ring = started-IsPooled.ring;
  order = started-IsPooled.order;
  free_below = started-IsPooled.free_below;
  live_below = started-IsPooled.live_below;
  split = started-IsPooled.split;
  own = started-IsPooled.own;
}

-- No programs are built in, and no other call is answered.
abbrev services : Services (Unit {0})
services = record { hello = []; infprint = []; taffy = []; other = λ n a b c s. panic }

abbrev leaving : Cpu
leaving = record cpu { regs = record cpu.regs { rax = call_exit } }

syscall_handler-exit_example :
    (s' : System (Unit {0})) × (syscall_handler machine services leaving system
      ≡ ok (
        resumed (record { frame = first_process.stack_frame; regs = first_process.registers }),
        s',
      ))
    × (s'.processes.pid ≡ 0)
    × (s'.processes.cr3 ≡ first_process.page_table_frame)
    × IsPooled s'.processes (erase 1 (1 ∷ [])) (1 ∷ [])
    × (s'.processes.pool ≡ pool_insert 1 (drop 1 free_ids))
    × (rotation s'.processes.scheduler (erase 1 (1 ∷ [])) ≡ erase 1 (rotation two (1 ∷ [])))
unfolding first_ready node_at Map.lookup
syscall_handler-exit_example =
    syscall_handler-exit machine services leaving system (1 ∷ []) [] (0 ∷ []) [] its_process
      first_process 1 0 refl system-IsPooled (omega arith) refl refl refl refl refl refl refl refl
