-- ===== src/Llm/JsonText/Scan.antt =====
-- `_repair_truncated` closes what a truncated document leaves open.
use auto_apply.Common.{
  Text, ℕ, ◌≡◌, refl, ap, ◌∙◌, Bool, true, false, List, [], ◌∷◌, ◌++◌, arith, if◌then◌else◌,
  Bool-cases, inl, inr, ◌==◌, ◌⊎◌,
}
use mathlib.Core.List.{append_assoc, append-nil}
use mathlib.Core.Path.{ap₂}
use auto_apply.Llm.JsonText.{
  drop_end, is_partial, Scanner, start, scan_char, scan, closer, closers, repair_truncated,
}

scan-append : (s : Scanner) (a b : Text) → scan s (a ++ b) ≡ scan (scan s a) b
unfolding scan
scan-append s [] b = refl
scan-append s (c ∷ a) b = scan-append (scan_char s c) a b

-- Outside a text the closers empty the stack.
scan-closers :
    (st : List ℕ) (e : Bool)
    → scan (record { stack = st; in_string = false; escaped = e }) (closers st)
      ≡ record { stack = []; in_string = false; escaped = e }
unfolding scan
scan-closers [] e = refl
scan-closers (c ∷ st) e = elim (Bool-cases (c == b'{')) [
  | inl p ↦ rw p (scan-closers st e)
  | inr p ↦ rw p (scan-closers st e)
]

-- Inside a text, with no escape open, they are characters of that text.
scan-closers_in_string :
    (st : List ℕ) (cs : List ℕ)
    → scan (record { stack = st; in_string = true; escaped = false }) (closers cs)
      ≡ record { stack = st; in_string = true; escaped = false }
unfolding scan
scan-closers_in_string st [] = refl
scan-closers_in_string st (c ∷ cs) = elim (Bool-cases (c == b'{')) [
  | inl p ↦ rw p (scan-closers_in_string st cs)
  | inr p ↦ rw p (scan-closers_in_string st cs)
]

-- The state in which the scanner leaves the text that is kept.
abbrev pub kept : Text → Scanner
kept candidate = scan start (drop_end is_partial candidate)

-- what is added behind it
abbrev pub added : Scanner → Text
added s = (if s.in_string then b'"' ∷ [] else []) ++ closers s.stack

scan-added :
    (st : List ℕ) (q e : Bool)
    → e ≡ false
    → scan
        (record { stack = st; in_string = q; escaped = e })
        (added (record { stack = st; in_string = q; escaped = e }))
      ≡ start
unfolding scan
scan-added st true e h = rw h (scan-closers st false)
scan-added st false e h = rw h (scan-closers st false)

scan-added_escaped :
    (st : List ℕ) (q e : Bool)
    → q ≡ true
    → e ≡ true
    → (scan
        (record { stack = st; in_string = q; escaped = e })
        (added (record { stack = st; in_string = q; escaped = e }))).in_string
      ≡ true
unfolding scan
scan-added_escaped st true true h k =
    ap (λ (r : Scanner). r.in_string) (scan-closers_in_string st st)
scan-added_escaped st false e h k = cc
scan-added_escaped st true false h k = cc

pub repair_truncated-eq :
    (candidate : Text)
    → repair_truncated candidate ≡ drop_end is_partial candidate ++ added (kept candidate)
unfolding repair_truncated
repair_truncated-eq candidate = elim (Bool-cases (kept candidate).in_string) [
  | inl p ↦
      rw p
        (append_assoc (drop_end is_partial candidate) (b'"' ∷ []) (closers (kept candidate).stack))
  | inr p ↦ rw p
]

-- A repaired text ends outside every text and with every bracket closed, unless the kept part
-- breaks off just behind a backslash.
scan-repair_truncated :
    (candidate : Text)
    → (kept candidate).escaped ≡ false
    → scan start (repair_truncated candidate) ≡ start
scan-repair_truncated candidate h =
    let s = kept candidate in
    rw (repair_truncated-eq candidate) (
      scan-append start (drop_end is_partial candidate) (added s)
      ∙ scan-added s.stack s.in_string s.escaped h)

-- Where the kept part breaks off behind a backslash inside a text, the quote that is added is
-- escaped: the repaired document still ends inside that text.
pub repair_truncated_unclosed :
    (candidate : Text)
    → (kept candidate).escaped ≡ true
    → (kept candidate).in_string ≡ true
    → (scan start (repair_truncated candidate)).in_string ≡ true
repair_truncated_unclosed candidate e q =
    let s = kept candidate in
    rw (repair_truncated-eq candidate, scan-append start (drop_end is_partial candidate) (added s))
      (scan-added_escaped s.stack s.in_string s.escaped q e)

module _ (p : ℕ → Bool) where
  drop_end_idem : (s : Text) → drop_end p (drop_end p s) ≡ drop_end p s
  unfolding drop_end
  drop_end_idem [] = refl
  drop_end_idem (c ∷ s) = go (drop_end p s) (drop_end_idem s) (Bool-cases (p c))
    where
      go :
          (r : Text)
          → drop_end p r ≡ r
          → (p c ≡ true) ⊎ (p c ≡ false)
          → drop_end p (elim r [ [] ↦ if p c then [] else c ∷ [] | d ∷ q ↦ c ∷ d ∷ q ])
            ≡ elim r [ [] ↦ if p c then [] else c ∷ [] | d ∷ q ↦ c ∷ d ∷ q ]
      go [] h (inl b) = rw b
      go [] h (inr b) = rw b (rw b)
      go (d ∷ q) h b = ground (arith, h)

  -- behind an end that stays, everything stays
  drop_end-append :
      (a : Text) (c : ℕ) (b : Text)
      → drop_end p (c ∷ b) ≡ c ∷ b
      → drop_end p (a ++ c ∷ b) ≡ a ++ c ∷ b
  unfolding drop_end
  drop_end-append [] c b h = h
  drop_end-append (d ∷ a) c b h = go a (drop_end-append a c b h)
    where
      go :
          (r : Text)
          → drop_end p (r ++ c ∷ b) ≡ r ++ c ∷ b
          → drop_end p (d ∷ (r ++ c ∷ b)) ≡ d ∷ (r ++ c ∷ b)
      go [] k = rw (k, drop_end)
      go (e ∷ r) k = rw (k, drop_end)

drop_end-cons :
    (p : ℕ → Bool) (c : ℕ) (s : Text) → p c ≡ false → drop_end p s ≡ s → drop_end p (c ∷ s) ≡ c ∷ s
unfolding drop_end
drop_end-cons p c [] b h = rw b
drop_end-cons p c (d ∷ s) b h = rw (h, drop_end)

is_partial-closer : (c : ℕ) → is_partial (closer c) ≡ false
is_partial-closer c = elim (Bool-cases (c == b'{')) [ inl b ↦ rw b | inr b ↦ rw b ]

drop_end-closers : (st : List ℕ) → drop_end is_partial (closers st) ≡ closers st
unfolding drop_end
drop_end-closers [] = refl
drop_end-closers (c ∷ st) =
    drop_end-cons is_partial (closer c) (closers st) (is_partial-closer c) (drop_end-closers st)

drop_end-added :
    (a : Text) (st : List ℕ) (q e : Bool)
    → drop_end is_partial a ≡ a
    → drop_end is_partial (a ++ added (record { stack = st; in_string = q; escaped = e }))
      ≡ a ++ added (record { stack = st; in_string = q; escaped = e })
drop_end-added a [] false e h = rw (append-nil a) h
drop_end-added a (c ∷ st) false e h =
    drop_end-append is_partial a (closer c) (closers st) (drop_end-closers (c ∷ st))
drop_end-added a st true e h =
    drop_end-append is_partial a b'"' (closers st)
      (drop_end-cons is_partial b'"' (closers st) refl (drop_end-closers st))

-- Repairing a repaired text changes nothing, unless the kept part of the text breaks off just
-- behind a backslash.
repair_truncated_idem :
    (candidate : Text)
    → (kept candidate).escaped ≡ false
    → repair_truncated (repair_truncated candidate) ≡ repair_truncated candidate
repair_truncated_idem candidate h =
    let s = kept candidate in
    let r = repair_truncated candidate in
    let solid : drop_end is_partial r ≡ r = rw (repair_truncated-eq candidate) (
      drop_end-added (drop_end is_partial candidate) s.stack s.in_string s.escaped
        (drop_end_idem is_partial candidate)) in
    let balanced : kept r ≡ start = ap (scan start) solid ∙ scan-repair_truncated candidate h in
    repair_truncated-eq r
    ∙ ap₂ (λ (a : Text) (k : Scanner). a ++ added k) solid balanced
    ∙ append-nil r
