-- ===== src/Examples/Screens.antt =====
-- The clock interrupt between two processes, a screen with two layers, and a drive's registers.
use tju_cinea_os.Prelude.{
  ℕ, zero, suc, ◌/◌, ◌%◌, ◌≡◌, refl, true, none, List, [], ◌∷◌, ok, arith, replicate,
  length-replicate, inl, inr, if◌then◌else◌,
}
use tju_cinea_os.Prelude.Map
use tju_cinea_os.Prelude.Map.{nat_key}
use tju_cinea_os.Scheduler.State.{IsRing}
use tju_cinea_os.Scheduler.Stepped.{first_ready}
use tju_cinea_os.Scheduler.Table.{node_at}
use tju_cinea_os.Process.{Processes}
use tju_cinea_os.Interrupts.{System, deliver, reschedule, switch_context_to, clock_handler}
use tju_cinea_os.Interrupts.Switch.{reschedule-switch_context_to, clock_handler_quiet}
use tju_cinea_os.Grid.{Grid, pixel_at, inside}
use tju_cinea_os.Grid.Painted.{IsGrid, AllWide}
use tju_cinea_os.Graphics.{Pixel, default_pixel, Layer, blank, height, width}
use tju_cinea_os.Graphics.Screen.{render}
use tju_cinea_os.Graphics.Rendered.{color_shown, render-color_shown}
use tju_cinea_os.AtaBus.{Hardware, write_command_params}
use tju_cinea_os.AtaBus.Addressing.{
  Latches, latched, HasLatches, sector, write_command_params-sector,
}
use tju_cinea_os.Examples.Scheduling.{two-IsRing, sleepers, sleeping-Represents}
use tju_cinea_os.Examples.Processes.{its_process, first_process}
use tju_cinea_os.Examples.Endings.{system, cpu}

reschedule-switch_context_to_example :
    (s' : System (Unit {0})) × (reschedule cpu system
      ≡ ok (
        deliver none (record { frame = first_process.stack_frame; regs = first_process.registers }),
        s',
      ))
    × (s'.processes.pid ≡ 0)
    × (s'.processes.cr3 ≡ first_process.page_table_frame)
    × (s'.last_schedule ≡ 5)
    × IsRing s'.processes.scheduler (1 ∷ []) []
    × ((p : Processes (Unit {0})) × (switch_context_to 1 s'.processes ≡ ok (cpu, p)))
unfolding first_ready node_at Map.lookup
reschedule-switch_context_to_example =
    reschedule-switch_context_to cpu system its_process first_process 0 (1 ∷ []) [] (0 ∷ []) []
      two-IsRing refl refl refl (omega arith) refl

clock_handler_quiet_example :
    (s' : System (Unit {0})) × (clock_handler cpu system ≡ ok (cpu, s'))
    × (s'.processes.pid ≡ 1)
    × (s'.last_schedule ≡ 0)
    × (s'.ticks ≡ 6)
    × IsRing s'.processes.scheduler (1 ∷ []) []
clock_handler_quiet_example =
    clock_handler_quiet cpu system sleepers (1 ∷ []) [] two-IsRing sleeping-Represents
      (inr (inl (omega arith)))

-- Every picture of equal rows is a grid.
replicate_wide : {A : Type 0} (n w : ℕ) (v : A) → AllWide w (replicate n (replicate w v))
replicate_wide zero w v = tt
replicate_wide (suc n) w v = (length-replicate w v, replicate_wide n w v)

one_color : {A : Type 0} (h w : ℕ) (v : A) → IsGrid h w (replicate h (replicate w v))
one_color h w v = (length-replicate h (replicate w v), replicate_wide h w v)

abbrev blue : Pixel
blue = (255, true)

-- A blank layer over a blue one.
abbrev layers : List Layer
layers =
    record { pixels = replicate height (replicate width blue); enable = true }
    ∷ record { pixels = blank; enable = true }
    ∷ []

abbrev black : Grid ℕ
black = replicate height (replicate width 0)

render-color_shown_example :
    (out : Grid ℕ) × (render layers 0 0 10 10 black ≡ ok out)
    × IsGrid height width out
    × (pixel_at out 3 4
        ≡ (if inside 0 10 0 10 3 4 then color_shown layers 3 4 else pixel_at black 3 4))
unfolding height width
render-color_shown_example =
    render-color_shown layers 0 0 10 10 black 3 4
      (one_color height width blue, (one_color height width default_pixel, tt)) (omega arith)
      (one_color {A = ℕ} height width 0) (omega arith) (omega arith) (omega arith) (omega arith)

-- Hardware that is its registers.
abbrev registers : Hardware Latches
registers = record {
  read_port = λ r l. (0, l);
  write_port = latched;
  wait = λ n l. l;
  second_passed = λ l l'. true;
}

abbrev registers-HasLatches : HasLatches registers
registers-HasLatches = record { latches = λ l. l; writes = λ r v l. refl }

abbrev zeros : Latches
zeros = record { sector_count = 0; lba0 = 0; lba1 = 0; lba2 = 0; drive = 0 }

-- Block 2 ^ 28 + 5 is sector 5.
write_command_params-sector_example :
    (sector (write_command_params registers 1 268435461 zeros) ≡ 5)
    × ((write_command_params registers 1 268435461 zeros).sector_count ≡ 1)
    × ((write_command_params registers 1 268435461 zeros).drive / 16 % 2 ≡ 1)
    × ((write_command_params registers 1 268435461 zeros).drive / 64 % 2 ≡ 1)
write_command_params-sector_example =
    write_command_params-sector registers registers-HasLatches 1 268435461 zeros (omega arith)
