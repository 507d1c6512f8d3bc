-- ===== src/Shell/Words.antt =====
-- Command lines without quotes (src/usrbin/src/bin/shell.rs).
use tju_cinea_os.Prelude.{
  ℕ, ◌+◌, ◌≤◌, ◌≡◌, ◌∙◌, refl, sym, subst, Bool, true, false, ◌||◌, not, none, some, List, [], ◌∷◌,
  ◌++◌, ◌==◌, arith, if◌then◌else◌, length, length-append, Bool-cases, inl, inr,
}
use tju_cinea_os.Shell.Slices.{
  slice_next, slice_here, append_nil, snoc_append, list_snoc_append, list_append_nil,
}
use tju_cinea_os.Shell.{
  Chars, IsAscii, Reader, reader, is_blank_character, resolve_command, loop, turn, slice,
  save_current_read, finished, answer,
}

unfoldable pub is_word_character : ℕ → Bool
is_word_character ch = not (is_blank_character ch || (ch == 39) || (ch == 34))

-- A line of words and blanks other than the line feed.
unfoldable pub IsPlain : Chars → Type 0
IsPlain [] = Unit {0}
IsPlain (ch ∷ chs) =
    ((ch == 10) ≡ false) × ((ch == 39) ≡ false) × ((ch == 34) ≡ false) × IsPlain chs

-- The words of what is left of a line, while the word `w` is read or, after it was saved, none is.
unfoldable pub words_from : Bool → Chars → Chars → List Chars
words_from saved w [] = if saved then [] else w ∷ []
words_from saved w (ch ∷ chs) =
    let skipped = words_from true [] chs in
    let begun = words_from false (ch ∷ []) chs in
    let longer = words_from false (w ++ (ch ∷ [])) chs in
    if is_blank_character ch
    then (if saved then skipped else w ∷ skipped)
    else if saved
    then begun
    else longer

-- What a turn does while no quote is read, for a blank and for a character of a word.
turn_blank :
    (command : Chars) (i ch : ℕ) (r : Reader)
    → r.reading_quote ≡ none
    → r.reading_double_quote ≡ none
    → is_blank_character ch ≡ true
    → turn command i ch r ≡ save_current_read command i r
unfolding turn
turn_blank command i ch r q d b = rw (b, q, d) refl

turn_word :
    (command : Chars) (i ch : ℕ) (r : Reader)
    → is_blank_character ch ≡ false
    → (ch == 39) ≡ false
    → (ch == 34) ≡ false
    → turn command i ch r ≡ (if r.saved then record r { saved = false; start = i } else r)
unfolding turn
turn_word command i ch r b q d = rw (b, q, d) refl

turn_first :
    (command : Chars) (i ch : ℕ) (r : Reader)
    → is_blank_character ch ≡ false
    → (ch == 39) ≡ false
    → (ch == 34) ≡ false
    → r.saved ≡ true
    → turn command i ch r ≡ record r { saved = false; start = i }
turn_first command i ch r b q d t = rw (turn_word command i ch r b q d, t) refl

turn_on :
    (command : Chars) (i ch : ℕ) (r : Reader)
    → is_blank_character ch ≡ false
    → (ch == 39) ≡ false
    → (ch == 34) ≡ false
    → r.saved ≡ false
    → turn command i ch r ≡ r
turn_on command i ch r b q d t = rw (turn_word command i ch r b q d, t) refl

-- A reader that reads no quote and whose word began before position `i`.
record IsReading (r : Reader) (i : ℕ) : Type 0 where
  single : r.reading_quote ≡ none
  double : r.reading_double_quote ≡ none
  begun : r.start ≤ i

save_saved :
    (command : Chars) (i : ℕ) (r : Reader) → r.saved ≡ true → save_current_read command i r ≡ r
unfolding save_current_read
save_saved command i r e = rw e refl

save_unsaved :
    (command : Chars) (i : ℕ) (r : Reader)
    → r.saved ≡ false
    → save_current_read command i r
      ≡ record r { result = r.result ++ (slice command r.start i ∷ []); saved = true }
unfolding save_current_read
save_unsaved command i r e = rw e refl

words_from_saved : (w : Chars) (chs : Chars) → words_from true w chs ≡ words_from true [] chs
unfolding words_from
words_from_saved w [] = refl
words_from_saved w (ch ∷ chs) = refl

finished-words_from :
    (before : Chars) (r : Reader)
    → IsReading r (length before)
    → finished before r
      ≡ some (r.result ++ words_from r.saved (slice before r.start (length before)) [])
unfolding finished answer words_from
finished-words_from before r v = elim (Bool-cases r.saved) [
  | inl t ↦
      rw (save_saved before (length before) r t, v.single, v.double, t, list_append_nil r.result)
        refl
  | inr t ↦ rw (save_unsaved before (length before) r t, v.single, v.double, t) refl
]

-- The loop without quotes, from any position on.
loop-words_from :
    (before chs : Chars) (r : Reader)
    → IsPlain chs
    → IsReading r (length before)
    → loop (before ++ chs) (length before) chs r
      ≡ some (r.result ++ words_from r.saved (slice (before ++ chs) r.start (length before)) chs)
unfolding loop words_from IsPlain
loop-words_from before [] r p v = rw (append_nil before) (finished-words_from before r v)
loop-words_from before (ch ∷ chs) r (n, s, d, p) v =
    let command : Chars = before ++ (ch ∷ chs) in
    let i : ℕ = length before in
    let at : length (before ++ (ch ∷ [])) ≡ i + 1 = length-append before (ch ∷ []) in
    let next : (r' : Reader)
        → IsReading r' (i + 1)
        → loop command (i + 1) chs r'
          ≡ some (r'.result ++ words_from r'.saved (slice command r'.start (i + 1)) chs) =
      λ r' v'.
        subst
          (λ c.
            loop c (i + 1) chs r'
            ≡ some (r'.result ++ words_from r'.saved (slice c r'.start (i + 1)) chs))
          (snoc_append before ch chs)
          (subst
            (λ j.
              loop ((before ++ (ch ∷ [])) ++ chs) j chs r'
              ≡ some (
                  r'.result
                  ++ words_from r'.saved (slice ((before ++ (ch ∷ [])) ++ chs) r'.start j) chs))
            at
            (loop-words_from (before ++ (ch ∷ [])) chs r' p
              (subst (λ j. IsReading r' j) (sym at) v'))) in
    elim (Bool-cases (is_blank_character ch)) [
      | inl b ↦
          rw (turn_blank command i ch r v.single v.double b, n, b)
            (elim (Bool-cases r.saved) [
              | inl t ↦ rw (save_saved command i r t) (
                  next r (record {
                    single = v.single;
                    double = v.double;
                    begun = omega (arith, v.begun);
                  })
                  ∙ rw (t, words_from_saved (slice command r.start (i + 1)) chs) refl)
              | inr t ↦ rw (save_unsaved command i r t) (
                  next
                    (record r { result = r.result ++ (slice command r.start i ∷ []); saved = true })
                    (record {
                      single = v.single;
                      double = v.double;
                      begun = omega (arith, v.begun);
                    })
                  ∙ rw
                      (
                        t,
                        words_from_saved (slice command r.start (i + 1)) chs,
                        list_snoc_append r.result (slice command r.start i)
                            (words_from true [] chs),
                      )
                      refl)
            ])
      | inr b ↦ elim (Bool-cases r.saved) [
        | inl t ↦
            rw (turn_first command i ch r b s d t, n, b)
              (next (record r { saved = false; start = i })
                  (record { single = v.single; double = v.double; begun = omega arith })
                ∙ rw (t, slice_here before ch chs) refl)
        | inr t ↦
            rw (turn_on command i ch r b s d t, n, b)
              (next r
                  (record { single = v.single; double = v.double; begun = omega (arith, v.begun) })
                ∙ rw (t, slice_next r.start before ch chs v.begun) refl)
      ]
    ]

-- A command line of ASCII characters without quotes and line feeds is split at its blanks. Runs of
-- blanks count as one, but a blank at the beginning gives an empty first word, as the empty line does.
pub resolve_command-words_from :
    (command : Chars) (ascii : IsAscii command)
    → IsPlain command
    → resolve_command command ascii ≡ some (words_from false [] command)
unfolding resolve_command slice
resolve_command-words_from command ascii p =
    loop-words_from [] command reader p
      (record { single = refl; double = refl; begun = omega arith })
