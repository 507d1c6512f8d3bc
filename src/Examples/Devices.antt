-- ===== src/Examples/Devices.antt =====
-- The screens, the clock, the shell and the game.
use tju_cinea_os.Prelude.{
  Option, ◌+◌, ◌*◌, ℕ, zero, suc, ◌<◌, ◌≡◌, ◌↔◌, ◌⊎◌, refl, Bool, true, false, none, some, List, [],
  ◌∷◌, arith, ok, replicate, get_elem?,
}
use tju_cinea_os.Kernel.{Kernel}
use tju_cinea_os.Scheduler
use tju_cinea_os.Gui
use tju_cinea_os.Gui.{
  Window, WindowManager, create_window, destory_window, find_window, find_hit, raise, front,
  handle_mouse_click, in_window, covers,
}
use tju_cinea_os.Gui.Windows.{
  IsTiled, create_window-IsTiled, handle_mouse_click-front, Topmost, create_window-destory_window,
}
use tju_cinea_os.Vga.{Writer, Buffer, blank_row, write_string}
use tju_cinea_os.Vga.Bounds.{IsScreen, AllWide, Stays, write_string-Stays}
use tju_cinea_os.Clock.{timestamp, RawTime, is_leap_year}
use tju_cinea_os.Clock.Calendar.{IsDate, date, next_day, month_days, timestamp-next_day}
use tju_cinea_os.Clock.Rtc.{IsTime, decode, registers, decode-registers}
use tju_cinea_os.Prelude.Int.{pos}
use tju_cinea_os.Mouse.{MousePackage, clicks}
use tju_cinea_os.Mouse.Clicks.{releases, clicks-releases}
use tju_cinea_os.Shell.{IsAscii, Chars, resolve_command}
use tju_cinea_os.Shell.Words.{IsPlain, words_from, resolve_command-words_from}
use tju_cinea_os.Game.{Cell, merge_line, slide}
use tju_cinea_os.Game.Blocks.{blocks, merged, gain}
use tju_cinea_os.Game.Merge.{packed, merge_line-merged}
use tju_cinea_os.Game.Slide.{Slid, slide-Slid}

abbrev kernel : Kernel
kernel = record {
  scheduler = Scheduler.new;
  events = record {
    events = record { queue = []; front_proc = 3 };
    data_of = [];
    need_check = false;
  };
  sleep = record { wakeup_queue = []; wakeup_map = [] };
  even_odd_flag = false;
  time_update_needers = [];
}

abbrev window : ℕ → Window
window pid = record { process_id = pid; title = []; mem_addr = 0 }

-- The windows of the processes 3 and 4, the first of them active.
abbrev two_windows : WindowManager
two_windows = record {
  windows = window 3 ∷ window 4 ∷ [];
  layouts = record { x = 30; y = 450; used = true } ∷ record { x = 250; y = 450; used = true } ∷ [];
  highlight = 0;
  moving_window_now = false;
}

not_used : (i : ℕ) (l : Gui.Layout) → get_elem? (Gui.new.layouts) i ≡ some l → l.used ≡ true → i < 0
not_used zero l e u = ground arith
not_used (suc zero) l e u = ground arith
not_used (suc (suc i)) l e u = ground arith

no_windows-IsTiled : IsTiled Gui.new
no_windows-IsTiled = record { room = omega arith; owned = not_used }

create_window-IsTiled_example :
    (w' : WindowManager) × (done : Bool) × (create_window 3 [] 0 Gui.new ≡ ok (w', done))
    × IsTiled w'
    × ((done ≡ true) ↔ ((find_window 3 0 [] ≡ none) × (0 < 2)))
    × ((done ≡ true) ⊎ (w' ≡ Gui.new))
create_window-IsTiled_example = create_window-IsTiled 3 [] 0 Gui.new no_windows-IsTiled

-- The click at 300, 460 hits the second window.
outside : in_window two_windows 0 300 460 ≡ false
unfolding in_window covers
outside = refl

handle_mouse_click-front_example :
    (o : Option ℕ) × (w' : WindowManager) × (k' : Kernel) × (handle_mouse_click 300 460 two_windows
        kernel
      ≡ ok (w', k'))
    × Topmost two_windows 300 460 2 o
    × (w' ≡ elim o [ none ↦ two_windows | some i ↦ record two_windows { highlight = i } ])
    × (k'.events.events.front_proc ≡ 1)
handle_mouse_click-front_example = handle_mouse_click-front 300 460 two_windows kernel refl outside

found_window : find_window 4 0 two_windows.windows ≡ some 1
unfolding find_window
found_window = refl

-- The second window closed.
abbrev one_window : WindowManager
one_window = record two_windows {
  layouts =
      record { x = 30; y = 450; used = true } ∷ record { x = 250; y = 450; used = false } ∷ [];
}

destroyed : destory_window 4 two_windows kernel ≡ ok (one_window, front 1 kernel)
unfolding destory_window find_window
destroyed = refl

create_window-destory_window_example : create_window 4 [] 0 one_window ≡ ok (one_window, false)
create_window-destory_window_example =
    create_window-destory_window 4 1 [] 0 two_windows one_window kernel (front 1 kernel)
      found_window destroyed

abbrev screen : Buffer
screen = replicate 25 (blank_row 11)

-- In the last column of the last row.
abbrev writer : Writer
writer = record {
  row_position = 24;
  column_position = 80;
  color = 11;
  buffer = screen;
  cursor_low = 0;
  cursor_high = 0;
}

blank_rows : (n : ℕ) → AllWide (replicate n (blank_row 11))
unfolding AllWide
blank_rows zero = tt
blank_rows (suc n) = (refl, blank_rows n)

writer-IsScreen : IsScreen writer
unfolding AllWide
writer-IsScreen = record { rows = refl; wide = blank_rows 25; row = omega arith }

write_string-Stays_example : Stays (write_string (65 ∷ 10 ∷ 9 ∷ 8 ∷ 200 ∷ []) writer)
write_string-Stays_example =
    write_string-Stays (65 ∷ 10 ∷ 9 ∷ 8 ∷ 200 ∷ []) writer writer-IsScreen (omega arith)

-- Noon on the last day of February 2024.
abbrev leap_day : RawTime
leap_day = record { second = 0; minute = 0; hour = 12; day = 29; month = 2; year = 2024 }

leap_day-IsDate : IsDate (date leap_day)
unfolding month_days is_leap_year
leap_day-IsDate = record {
  from_2003 = omega arith;
  month_pos = omega arith;
  month_le = omega arith;
  day_pos = omega arith;
  day_le = omega arith;
}

timestamp-next_day_example :
    (n : ℕ) × (timestamp leap_day ≡ ok n)
    × (timestamp (record leap_day { month = 3; day = 1 }) ≡ ok (n + (84600 + 1800 * 29)))
unfolding month_days is_leap_year next_day
timestamp-next_day_example = timestamp-next_day leap_day leap_day-IsDate

-- Half a minute before ten at night.
abbrev evening : RawTime
evening = record { second = 30; minute = 59; hour = 21; day = 31; month = 12; year = 23 }

evening-IsTime : IsTime evening
evening-IsTime = record {
  second = omega arith;
  minute = omega arith;
  hour = omega arith;
  day = omega arith;
  month = omega arith;
  year = omega arith;
}

-- With the interrupts that the kernel turns on, 0x40 and 0x10.
decode-registers_example : decode 0x52 (registers evening) ≡ record evening { year = 2023 }
decode-registers_example = decode-registers 0x52 evening refl refl evening-IsTime

-- `ls  -l`.
abbrev command : Chars
command = b'l' ∷ b's' ∷ 32 ∷ 32 ∷ b'-' ∷ b'l' ∷ []

command-IsPlain : IsPlain command
unfolding IsPlain
command-IsPlain = (
  refl,
  refl,
  refl,
  (
    refl,
    refl,
    refl,
    (refl, refl, refl, (refl, refl, refl, (refl, refl, refl, (refl, refl, refl, tt)))),
  ),
)

command-IsAscii : IsAscii command
unfolding IsAscii
command-IsAscii =
    (omega arith, (omega arith, (omega arith, (omega arith, (omega arith, (omega arith, tt))))))

resolve_command-words_from_example :
    resolve_command command command-IsAscii ≡ some (words_from false [] command)
resolve_command-words_from_example =
    resolve_command-words_from command command-IsAscii command-IsPlain

merge_line-merged_example :
    merge_line (some 1 ∷ none ∷ some 1 ∷ some 2 ∷ [])
    ≡ ok (
      packed (merged (blocks (some 1 ∷ none ∷ some 1 ∷ some 2 ∷ []))),
      gain (blocks (some 1 ∷ none ∷ some 1 ∷ some 2 ∷ [])),
    )
merge_line-merged_example = merge_line-merged (some 1) none (some 1) (some 2)

abbrev line : List Cell
line = some 1 ∷ some 1 ∷ none ∷ some 2 ∷ []

slide-Slid_example :
    Slid (line ∷ line ∷ line ∷ line ∷ []) (slide (line ∷ line ∷ line ∷ line ∷ []) 3)
slide-Slid_example =
    slide-Slid (some 1) (some 1) none (some 2) (some 1) (some 1) none (some 2) (some 1) (some 1)
      none (some 2) (some 1) (some 1) none (some 2) 3 (omega arith)

-- The right button, the left button down, and both up.
abbrev packages : List MousePackage
packages =
    record {
      middle_btn = false;
      right_btn = true;
      left_btn = false;
      delta_x = pos 0;
      delta_y = pos 0;
    }
    ∷ record {
      middle_btn = false;
      right_btn = false;
      left_btn = true;
      delta_x = pos 1;
      delta_y = pos 0;
    }
    ∷ record {
      middle_btn = false;
      right_btn = false;
      left_btn = false;
      delta_x = pos 0;
      delta_y = pos 0;
    }
    ∷ []

clicks-releases_example : clicks false packages ≡ releases false packages
clicks-releases_example = clicks-releases false packages
