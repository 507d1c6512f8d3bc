-- ===== src/Events/Message.antt =====
-- The word in which a woken program finds what happened (src/sysapi/src/event.rs).
use tju_cinea_os.Prelude.{ℕ, ◌+◌, ◌*◌, ◌/◌, ◌%◌, ◌<◌, ◌≡◌, refl, arith}

-- Shifts of a `u16` in a `usize` of 64 bits, which lose nothing here.
unfoldable pub gui_event_make_ret : ℕ → ℕ → ℕ → ℕ → ℕ
gui_event_make_ret code arg0 arg1 arg2 =
    code * 281474976710656 + arg2 * 4294967296 + arg1 * 65536 + arg0

unfoldable pub gui_event_solve_ret : ℕ → ℕ × ℕ × ℕ × ℕ
gui_event_solve_ret ret =
    (ret / 281474976710656 % 65536, ret % 65536, ret / 65536 % 65536, ret / 4294967296 % 65536)

-- A program reads back the code and the arguments that the kernel put in the word, as long as each is
-- a 16-bit number, and the word fits in 64 bits.
pub solve_ret-make_ret :
    (code arg0 arg1 arg2 : ℕ)
    → code < 65536
    → arg0 < 65536
    → arg1 < 65536
    → arg2 < 65536
    → (gui_event_solve_ret (gui_event_make_ret code arg0 arg1 arg2) ≡ (code, arg0, arg1, arg2))
      × (gui_event_make_ret code arg0 arg1 arg2 < 18446744073709551616)
unfolding gui_event_make_ret gui_event_solve_ret
solve_ret-make_ret code arg0 arg1 arg2 c a b d =
    let w : ℕ = code * 281474976710656 + arg2 * 4294967296 + arg1 * 65536 + arg0 in
    let p : w / 281474976710656 % 65536 ≡ code = omega arith in
    let q : w % 65536 ≡ arg0 = omega arith in
    let r : w / 65536 % 65536 ≡ arg1 = omega arith in
    let s : w / 4294967296 % 65536 ≡ arg2 = omega arith in (rw (p, q, r, s) refl, omega arith)
