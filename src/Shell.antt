-- ===== src/Shell.antt =====
-- How the shell splits a command line into words: `resolve_command` of src/usrbin/src/bin/shell.rs.
-- A command line consists of ASCII characters (IsAscii), for which its length in bytes is the number
-- of characters; a character is its code.
pub mod Slices
pub mod Words
use tju_cinea_os.Prelude.{
  ℕ, zero, suc, ◌+◌, ◌-◌, ◌<◌, Bool, true, false, ◌&&◌, ◌||◌, not, Option, none, some, List, [],
  ◌∷◌, ◌++◌, ◌==◌, ltb, if◌then◌else◌, take, drop, length,
}

abbrev pub Chars : Type 0
Chars = List ℕ

unfoldable pub is_blank_character : ℕ → Bool
is_blank_character ch = (ch == 32) || (ch == 9) || (ch == 10)

-- Where a quote that is being read began; `none` for `usize::MAX`.
abbrev pub Quote : Type 0
Quote = Option ℕ

-- `reading_quote > i` for a quote that began before position `i`.
abbrev pub closed : Quote → ℕ → Bool
closed none i = true
closed (some q) i = ltb i q

pub record Reader : Type 0 where
  pub result : List Chars
  pub saved : Bool
  pub reading_quote : Quote
  pub reading_double_quote : Quote
  pub start : ℕ

abbrev pub reader : Reader
reader = record {
  result = [];
  saved = false;
  reading_quote = none;
  reading_double_quote = none;
  start = 0;
}

-- `&command[start..pos]`.
unfoldable pub slice : Chars → ℕ → ℕ → Chars
slice command start pos = take (pos - start) (drop start command)

unfoldable pub save_current_read : Chars → ℕ → Reader → Reader
save_current_read command pos r =
    if r.saved
    then r
    else record r { result = r.result ++ (slice command r.start pos ∷ []); saved = true }

unfoldable pub quote : Chars → ℕ → Reader → Reader
quote command i r =
    if closed r.reading_quote i
    then record r { saved = false; reading_quote = some i; start = i + 1 }
    else record (save_current_read command i r) { reading_quote = none }

unfoldable pub double_quote : Chars → ℕ → Reader → Reader
double_quote command i r =
    if closed r.reading_double_quote i
    then record r { saved = false; reading_double_quote = some i; start = i + 1 }
    else record (save_current_read command i r) { reading_double_quote = none }

-- One turn of the loop, for a character that is not a line feed.
unfoldable pub turn : Chars → ℕ → ℕ → Reader → Reader
turn command i ch r =
    if is_blank_character ch && closed r.reading_quote i && closed r.reading_double_quote i
    then save_current_read command i r
    else if ch == 39
    then quote command i r
    else if ch == 34
    then double_quote command i r
    else if r.saved
    then record r { saved = false; start = i }
    else r

-- What follows the loop: an open quote is an error.
unfoldable pub answer : Quote → Quote → List Chars → Option (List Chars)
answer (some q) double_quote result = none
answer none (some q) result = none
answer none none result = some result

unfoldable pub finished : Chars → Reader → Option (List Chars)
finished command r =
    let r = save_current_read command (length command) r in
    answer r.reading_quote r.reading_double_quote r.result

-- The loop from position `i`, before which the characters are read; `none` for `BrokenQuote`.
unfoldable pub loop : Chars → ℕ → Chars → Reader → Option (List Chars)
loop command i [] r = finished command r
loop command i (ch ∷ chs) r =
    let rest = loop command (i + 1) chs (turn command i ch r) in
    if ch == 10 then some (save_current_read command i r).result else rest

-- Every character is one byte.
unfoldable pub IsAscii : Chars → Type 0
IsAscii [] = Unit {0}
IsAscii (ch ∷ chs) = (ch < 128) × IsAscii chs

-- For a command line of ASCII characters only: the source's loop runs to the length in bytes, over a
-- vector of characters, and cuts the words by bytes.
unfoldable pub resolve_command : (command : Chars) → IsAscii command → Option (List Chars)
resolve_command command ascii = loop command 0 command reader
