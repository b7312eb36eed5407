-- ===== src/Auth/Sessions.antt =====
-- Sessions that can no longer be presented, and every operation that keeps them so.
use auto_apply.Common.{
  ℕ, ◌≤◌, String, ◌≡◌, ◌≢◌, refl, false, List, [], ◌∷◌, map, any_of, All, All-append, arith, eq_iff,
  Bool-cases, inl, inr, ap,
}
use auto_apply.Auth.Store.{Session, Accounts, is_active_session, revoke_row, insert_session}

-- No row of the user with this hash is active, now or later.
abbrev pub Spent : ℕ → String → ℕ → List Session → Type 0
Spent u h now l = All (λ s. is_active_session u h now s ≡ false) l

module _ (u : ℕ) (h : String) (now : ℕ) where
  pub Spent-any_of :
      (l : List Session) → Spent u h now l → any_of (is_active_session u h now) l ≡ false
  Spent-any_of [] p = refl
  Spent-any_of (s ∷ l) (p, ps) = rw p (Spent-any_of l ps)

  -- revoking where nothing is active changes nothing
  pub Spent-map : (l : List Session) → Spent u h now l → map (revoke_row u h now) l ≡ l
  Spent-map [] p = refl
  Spent-map (s ∷ l) (p, ps) = rw p (ap (◌∷◌ s) (Spent-map l ps))

  revoke_row-Spent : (s : Session) → is_active_session u h now (revoke_row u h now s) ≡ false
  revoke_row-Spent s = elim (Bool-cases (is_active_session u h now s)) [
    | inl e ↦ rw e (ground arith)
    | inr e ↦ rw e e
  ]

  -- revoking leaves no active row of the hash
  pub revoke-Spent : (l : List Session) → Spent u h now (map (revoke_row u h now) l)
  revoke-Spent [] = tt
  revoke-Spent (s ∷ l) = (revoke_row-Spent s, revoke-Spent l)

  later_inactive :
      (later : ℕ) (s : Session)
      → now ≤ later
      → is_active_session u h now s ≡ false
      → is_active_session u h later s ≡ false
  later_inactive later s le p = ground arith

  pub Spent-later :
      (later : ℕ) (l : List Session) → now ≤ later → Spent u h now l → Spent u h later l
  Spent-later later [] le p = tt
  Spent-later later (s ∷ l) le (p, ps) = (later_inactive later s le p, Spent-later later l le ps)

  revoke_row_inactive :
      (v : ℕ) (k : String) (t : ℕ) (s : Session)
      → is_active_session u h now s ≡ false
      → is_active_session u h now (revoke_row v k t s) ≡ false
  revoke_row_inactive v k t s p = elim (Bool-cases (is_active_session v k t s)) [
    | inl e ↦ rw e (ground arith)
    | inr e ↦ rw e p
  ]

  pub Spent-revoke :
      (v : ℕ) (k : String) (t : ℕ) (l : List Session)
      → Spent u h now l
      → Spent u h now (map (revoke_row v k t) l)
  Spent-revoke v k t [] p = tt
  Spent-revoke v k t (s ∷ l) (p, ps) = (revoke_row_inactive v k t s p, Spent-revoke v k t l ps)

  pub Spent-insert :
      (v : ℕ) (k : String) (exp : ℕ) (w : Accounts)
      → k ≢ h
      → Spent u h now w.sessions
      → Spent u h now (insert_session v k exp w).sessions
  unfolding insert_session
  Spent-insert v k exp w ne p =
      All-append (λ s. is_active_session u h now s ≡ false) w.sessions _ p
        (ground (arith, eq_iff k h), tt)
