-- ===== src/Jd/Injection/Scan.antt =====
-- The chunked scan of `check_for_prompt_injection` against a scan of the whole text
-- (backend/app/core_engine/jd_extractor.py).
use auto_apply.Common.{
  ℕ, zero, suc, ◌+◌, ◌≤◌, true, false, ◌||◌, List, [], ◌∷◌, Text, take, drop, length, ◌≡◌, refl,
  arith, Bool-cases, ◌⊎◌, inl, inr, All, sym, length-drop,
}
use auto_apply.Common.Search.{contains, contains_of_take, contains_of_drop, contains-take}
use auto_apply.Jd.Injection.{
  scan_chunks, mentions_any, scan_whole, check_for_prompt_injection, injection_patterns,
}

abbrev Short : ℕ → Text → Type 0
Short m p = length p ≤ suc m

mentions_of_take :
    (ps : List Text) (n : ℕ) (s : Text)
    → mentions_any ps (take n s) ≡ true
    → mentions_any ps s ≡ true
mentions_of_take [] n s h = h
mentions_of_take (p ∷ ps) n s h = ground (arith, contains_of_take p s n, mentions_of_take ps n s)

mentions_of_drop :
    (ps : List Text) (n : ℕ) (s : Text)
    → mentions_any ps (drop n s) ≡ true
    → mentions_any ps s ≡ true
mentions_of_drop [] n s h = h
mentions_of_drop (p ∷ ps) n s h = ground (arith, contains_of_drop p s n, mentions_of_drop ps n s)

-- A mention is seen in the chunk, or stands in what the next step begins with.
mentions-take :
    (k m n : ℕ) (ps : List Text)
    → k + m ≤ n
    → All (Short m) ps
    → (s : Text) → mentions_any ps s ≡ true
    → (mentions_any ps (take n s) ≡ true) ⊎ (mentions_any ps (drop k s) ≡ true)
mentions-take k m n [] ln short s h = inl h
mentions-take k m n (p ∷ ps) ln (le, short) s h = elim (Bool-cases (contains p s)) [
  | inl a ↦ elim (contains-take p s k m n le ln a) [
    | inl b ↦ inl (ground (arith))
    | inr b ↦ inr (ground (arith))
  ]
  | inr a ↦ elim (mentions-take k m n ps ln short s (ground (arith))) [
    | inl b ↦ inl (ground (arith))
    | inr b ↦ inr (ground (arith))
  ]
]

mentions_split :
    (k m n : ℕ) (ps : List Text)
    → k + m ≤ n
    → All (Short m) ps
    → (s : Text) → (mentions_any ps (take n s) || mentions_any ps (drop k s)) ≡ mentions_any ps s
mentions_split k m n ps ln short s = elim (Bool-cases (mentions_any ps s)) [
  | inl a ↦ elim (mentions-take k m n ps ln short s a) [
    | inl b ↦ ground (arith)
    | inr b ↦ ground (arith)
  ]
  | inr a ↦ ground (arith, mentions_of_take ps n s, mentions_of_drop ps k s)
]

-- Steps that leave an overlap of `m` see every pattern of at most `m + 1` characters.
scan_chunks-mentions :
    (ps : List Text) (k m n fuel : ℕ) (s : Text)
    → mentions_any ps [] ≡ false
    → 1 ≤ k
    → k + m ≤ n
    → All (Short m) ps
    → length s ≤ fuel
    → scan_chunks ps k n fuel s ≡ mentions_any ps s
unfolding scan_chunks
scan_chunks-mentions ps k m n zero [] e pk ln short lf = sym e
scan_chunks-mentions ps k m n zero (c ∷ s) e pk ln short lf = absurd (omega arith)
scan_chunks-mentions ps k m n (suc fuel) [] e pk ln short lf = sym e
scan_chunks-mentions ps k m n (suc fuel) (c ∷ s) e pk ln short lf =
    let size = length-drop k (c ∷ s) in
    let rest = scan_chunks-mentions ps k m n fuel (drop k (c ∷ s)) e pk ln short (omega arith) in
    rw (rest, mentions_split k m n ps ln short (c ∷ s))

injection_patterns-Short : All (Short 2048) injection_patterns
injection_patterns-Short = (
  omega arith,
  (omega arith, (omega arith, (omega arith, (omega arith, (omega arith, (omega arith, tt)))))),
)

-- Where `lower` keeps the empty text, the chunked scan flags a text exactly when one of the patterns
-- occurs anywhere in its lower-case form, also across the border of two chunks.
pub check_for_prompt_injection-Exact :
    (lower : Text → Text)
    → lower [] ≡ []
    → (t : Text) → check_for_prompt_injection lower t ≡ mentions_any injection_patterns (lower t)
unfolding check_for_prompt_injection scan_whole scan_chunks
check_for_prompt_injection-Exact lower e [] = rw e
check_for_prompt_injection-Exact lower e (c ∷ t) =
    scan_chunks-mentions injection_patterns 29952 2048 32000 (length (lower (c ∷ t)))
      (lower (c ∷ t)) refl (omega arith) (omega arith) injection_patterns-Short (omega arith)
