-- ===== src/Llm/JsonText/Matched.antt =====
-- The brackets of a repaired document close each other (`_repair_truncated`,
-- backend/app/llm/json_utils.py).
use auto_apply.Common.{
  Text, ℕ, ◌≡◌, ◌≢◌, refl, Option, none, some, List, [], ◌∷◌, ◌++◌, true, false, arith,
  if◌then◌else◌, ◌==◌, map,
}
use auto_apply.Llm.JsonText.{
  drop_end, is_partial, Scanner, scan_char, scan, closers, repair_truncated,
}
use auto_apply.Llm.JsonText.Scan.{added, kept, repair_truncated-eq}

pub data Bracket : Type 0 where
  brace square : Bracket

-- where in a JSON text a reader stands
pub data Mode : Type 0 where
  outside inside behind_backslash : Mode

-- a closing bracket, which has to fit the bracket that was opened last
abbrev pub leave : Bracket → List Bracket → Option (Mode × List Bracket)
leave brace (brace ∷ st) = some (outside, st)
leave square (square ∷ st) = some (outside, st)
leave _ _ = none

abbrev pub read_char : Mode → List Bracket → ℕ → Option (Mode × List Bracket)
read_char outside st c =
    if c == b'"'
    then some (inside, st)
    else if c == b'{'
    then some (outside, brace ∷ st)
    else if c == b'['
    then some (outside, square ∷ st)
    else if c == b'}'
    then leave brace st
    else if c == b']'
    then leave square st
    else some (outside, st)
read_char inside st c =
    if c == b'\\'
    then some (behind_backslash, st)
    else if c == b'"'
    then some (outside, st)
    else some (inside, st)
read_char behind_backslash st c = some (inside, st)

abbrev pub then_read :
    (Mode → List Bracket → Option (Mode × List Bracket))
    → Option (Mode × List Bracket)
    → Option (Mode × List Bracket)
then_read f none = none
then_read f (some (m, st)) = f m st

-- What a strict reader has open at the end of a text; none where a bracket closes none or another.
unfoldable pub read : Mode → List Bracket → Text → Option (Mode × List Bracket)
read m st [] = some (m, st)
read m st (c ∷ s) = then_read (λ m' st'. read m' st' s) (read_char m st c)

abbrev opener : Bracket → ℕ
opener brace = b'{'
opener square = b'['

-- the scanner's state for the reader's
abbrev state_of : Mode → List Bracket → Scanner
state_of outside st = record { stack = map opener st; in_string = false; escaped = false }
state_of inside st = record { stack = map opener st; in_string = true; escaped = false }
state_of behind_backslash st = record { stack = map opener st; in_string = true; escaped = true }

-- the scanner agrees with a reader that goes on
abbrev Agrees : Scanner → Option (Mode × List Bracket) → Type 0
Agrees s none = Unit
Agrees s (some (m, st)) = s ≡ state_of m st

scan_char-Agrees :
    (m : Mode) (st : List Bracket) (c : ℕ) → Agrees (scan_char (state_of m st) c) (read_char m st c)
scan_char-Agrees outside [] c = ground arith
scan_char-Agrees outside (brace ∷ st) c = ground arith
scan_char-Agrees outside (square ∷ st) c = ground arith
scan_char-Agrees inside st c = ground arith
scan_char-Agrees behind_backslash st c = refl

read-append :
    (m : Mode) (st : List Bracket) (a b : Text)
    → read m st (a ++ b) ≡ then_read (λ m' st'. read m' st' b) (read m st a)
unfolding read
read-append m st [] b = refl
read-append m st (c ∷ a) b = go (read_char m st c) (λ m' st'. read-append m' st' a b)
  where
    go :
        (o : Option (Mode × List Bracket))
        → ((m' : Mode) (st' : List Bracket)
            → read m' st' (a ++ b) ≡ then_read (λ n t. read n t b) (read m' st' a))
        → then_read (λ m' st'. read m' st' (a ++ b)) o
          ≡ then_read (λ m' st'. read m' st' b) (then_read (λ m' st'. read m' st' a) o)
    go none h = refl
    go (some (m', st')) h = h m' st'

scan-Agrees :
    (m : Mode) (st : List Bracket) (s : Text) → Agrees (scan (state_of m st) s) (read m st s)
unfolding read scan
scan-Agrees m st [] = refl
scan-Agrees m st (c ∷ s) =
    go (read_char m st c) (λ m' st'. scan-Agrees m' st' s) (scan_char-Agrees m st c)
  where
    go :
        (o : Option (Mode × List Bracket))
        → ((m' : Mode) (st' : List Bracket) → Agrees (scan (state_of m' st') s) (read m' st' s))
        → Agrees (scan_char (state_of m st) c) o
        → Agrees (scan (scan_char (state_of m st) c) s) (then_read (λ m' st'. read m' st' s) o)
    go none k h = tt
    go (some (m', st')) k h = rw h (k m' st')

read-closers : (st : List Bracket) → read outside st (closers (map opener st)) ≡ some (outside, [])
unfolding read
read-closers [] = refl
read-closers (brace ∷ st) = read-closers st
read-closers (square ∷ st) = read-closers st

read-added :
    (m : Mode) (st : List Bracket)
    → m ≢ behind_backslash
    → read m st (added (state_of m st)) ≡ some (outside, [])
unfolding read
read-added outside st h = read-closers st
read-added inside st h = read-closers st
read-added behind_backslash st h = absurd (h refl)

-- If the brackets of what is kept of a text fit, and it does not break off just behind a backslash,
-- then the repair only adds to what is kept, and in the repaired text every bracket is closed by one
-- of its own kind, in the order of their nesting, and no string is left open.
pub repair_truncated-Matched :
    (candidate : Text) (m : Mode) (st : List Bracket)
    → read outside [] (drop_end is_partial candidate) ≡ some (m, st)
    → m ≢ behind_backslash
    → (rest : Text) × (repair_truncated candidate ≡ drop_end is_partial candidate ++ rest)
      × (read outside [] (repair_truncated candidate) ≡ some (outside, []))
repair_truncated-Matched candidate m st e h =
    let agrees = scan-Agrees outside [] (drop_end is_partial candidate) in
    let state : kept candidate ≡ state_of m st = (rw e at agrees) in
    let whole = repair_truncated-eq candidate in
    (
      added (kept candidate),
      whole,
      rw
          (
            whole,
            read-append outside [] (drop_end is_partial candidate) (added (kept candidate)),
            e,
            state,
          )
          (read-added m st h),
    )
