-- ===== src/Llm/JsonText/Fenced.antt =====
-- A document in a fence (`parse_llm_json`, `_extract_fenced`, backend/app/llm/json_utils.py).
use auto_apply.Common.{
  Text, ℕ, ◌≡◌, ◌≢◌, refl, ap, ◌∙◌, sym, Bool, true, false, Option, none, some, [], ◌∷◌, ◌++◌,
  arith, All, codes, Bool-cases, inl, inr, if◌then◌else◌,
}
use auto_apply.Json.{Value, null}
use auto_apply.Llm.JsonText.{
  strip, drop_while, drop_end, is_space, after_prefix, split_at, fence, extract_fenced,
  unwrap_wrapper, parse_llm_json, load_or_repair, load_unfenced,
}
use auto_apply.Llm.JsonText.Laws.{parse_llm_json-plain}

-- What is not empty.
abbrev HasText : Text → Type 0
HasText [] = false ≡ true
HasText (c ∷ s) = Unit

module _ (p : ℕ → Bool) where
  drop_end-HasText : (a : Text) (c : ℕ) (b : Text) → p c ≡ false → HasText (drop_end p (a ++ c ∷ b))
  unfolding drop_end
  drop_end-HasText [] c b h = go (drop_end p b)
    where
      go : (r : Text) → HasText (elim r [ [] ↦ if p c then [] else c ∷ [] | d ∷ q ↦ c ∷ d ∷ q ])
      go [] = rw h tt
      go (d ∷ q) = tt
  drop_end-HasText (x ∷ a) c b h = go (drop_end p (a ++ c ∷ b)) (drop_end-HasText a c b h)
    where
      go :
          (r : Text)
          → HasText r
          → HasText (elim r [ [] ↦ if p x then [] else x ∷ [] | d ∷ q ↦ x ∷ d ∷ q ])
      go [] k = cc
      go (d ∷ q) k = tt

  trimmed-HasText :
      (a : Text) (c : ℕ) (b : Text) → p c ≡ false → HasText (drop_end p (drop_while p (a ++ c ∷ b)))
  unfolding drop_while
  trimmed-HasText [] c b h = rw h (drop_end-HasText [] c b h)
  trimmed-HasText (x ∷ a) c b h = elim (Bool-cases (p x)) [
    | inl e ↦ rw e (trimmed-HasText a c b h)
    | inr e ↦ rw e (drop_end-HasText (x ∷ a) c b h)
  ]

  drop_end-dropped : (s : Text) (x : ℕ) → p x ≡ true → drop_end p (s ++ x ∷ []) ≡ drop_end p s
  unfolding drop_end
  drop_end-dropped [] x h = rw h
  drop_end-dropped (c ∷ s) x h = rw (drop_end-dropped s x h)

abbrev NoTick : Text → Type 0
NoTick s = All (λ c. c ≢ b'`') s

split_at-fence : (a t : Text) → NoTick a → split_at fence (a ++ (fence ++ t)) ≡ some (a, t)
unfolding split_at after_prefix
split_at-fence [] t h = refl
split_at-fence (c ∷ a) t (h, k) = ground (arith, split_at-fence a t k)

split_at-line_fence :
    (a t : Text) → NoTick a → split_at fence (a ++ (10 ∷ (fence ++ t))) ≡ some (a ++ (10 ∷ []), t)
unfolding split_at after_prefix
split_at-line_fence [] t h = refl
split_at-line_fence (c ∷ a) t (h, k) = ground (arith, split_at-line_fence a t k)

-- a document between two fences, the first marked as JSON, with any text around
abbrev pub fenced : Text → Text → Text → Text
fenced before doc after =
    before ++ (fence ++ (codes "json" ++ (10 ∷ (doc ++ (10 ∷ (fence ++ after))))))

module _ (before after s : Text) (c : ℕ) (plain : NoTick before) (whole : NoTick (c ∷ s))
    (first : is_space c ≡ false) (last : drop_end is_space (c ∷ s) ≡ c ∷ s) where
  strip-line : strip ((c ∷ s) ++ (10 ∷ [])) ≡ c ∷ s
  unfolding strip drop_while
  strip-line = rw first (drop_end-dropped is_space (c ∷ s) 10 refl ∙ last)

  strip-document : strip (c ∷ s) ≡ c ∷ s
  unfolding strip drop_while
  strip-document = rw first last

  extract_fenced-fenced : extract_fenced (fenced before (c ∷ s) after) ≡ some (c ∷ s)
  unfolding extract_fenced drop_while
  extract_fenced-fenced =
      let opened =
        split_at-fence before (codes "json" ++ (10 ∷ ((c ∷ s) ++ (10 ∷ (fence ++ after))))) plain in
      let closed = split_at-line_fence (c ∷ s) after whole in
      rw (opened, extract_fenced) (rw first (rw closed (ap some strip-line)))

  fenced-HasText : HasText (strip (fenced before (c ∷ s) after))
  unfolding strip
  fenced-HasText = trimmed-HasText is_space before b'`' _ refl

load_or_repair-loaded :
    (loads : Text → Option Value) (doc : Text) (v : Value)
    → loads doc ≡ some v
    → v ≢ null
    → load_or_repair loads doc ≡ some (unwrap_wrapper v)
load_or_repair-loaded loads doc v e d = ground arith

-- A JSON document other than `null`, which holds no backtick and neither begins nor ends with a space,
-- is read alike when it stands alone and when it stands in a fence that is marked as JSON, whatever
-- follows the fence and whatever comes before it, if that holds no backtick.
pub parse_llm_json-fenced :
    (loads : Text → Option Value) (before after s : Text) (c : ℕ) (v : Value)
    → NoTick before
    → NoTick (c ∷ s)
    → is_space c ≡ false
    → drop_end is_space (c ∷ s) ≡ c ∷ s
    → loads (c ∷ s) ≡ some v
    → v ≢ null
    → (parse_llm_json loads (fenced before (c ∷ s) after) ≡ some (unwrap_wrapper v))
      × (parse_llm_json loads (c ∷ s) ≡ some (unwrap_wrapper v))
unfolding parse_llm_json
parse_llm_json-fenced loads before after s c v plain whole first last e d =
    let fenced_text = fenced before (c ∷ s) after in
    let found = extract_fenced-fenced before after s c plain whole first last in
    (
      go (strip fenced_text) (fenced-HasText before after s c plain whole first last)
          (extract_fenced fenced_text) found,
      parse_llm_json-plain loads (c ∷ s) v whole
          (λ bad.
            let full : c ∷ s ≡ [] =
              (sym (strip-document before after s c plain whole first last) ∙ bad) in
            cc)
          (rw (strip-document before after s c plain whole first last) e) d,
    )
  where
    go :
        (t : Text)
        → HasText t
        → (o : Option Text) → o ≡ some (c ∷ s)
        → (elim t [
          | [] ↦ none
          | d ∷ cleaned ↦ elim o [
            | some candidate ↦ load_or_repair loads candidate
            | none ↦ load_unfenced loads (d ∷ cleaned)
          ]
        ])
          ≡ some (unwrap_wrapper v)
    go [] h o f = cc
    go (x ∷ t) h o f = rw f (load_or_repair-loaded loads (c ∷ s) v e d)
