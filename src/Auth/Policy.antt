-- ===== src/Auth/Policy.antt =====
-- What a registration is checked for (backend/app/auth/service.py, security.py).
use auto_apply.Common.{
  Bool, true, false, ◌&&◌, not, [], ◌∷◌, leb, ◌==◌, any_of, length, Text, if◌then◌else◌,
}
use auto_apply.Llm.JsonText.{between, is_space}
use auto_apply.Auth.Tokens.{Crypto}

-- `text.split("@")[-1]`
unfoldable pub after_last_at : Text → Text
after_last_at [] = []
after_last_at (c ∷ s) =
    let rest = after_last_at s in
    if any_of (λ d. d == b'@') s then rest else (if c == b'@' then s else c ∷ s)

abbrev pub starts_with_at : Text → Bool
starts_with_at [] = false
starts_with_at (c ∷ s) = c == b'@'

unfoldable pub email_is_valid : Text → Bool
unfolding after_last_at
email_is_valid email =
    any_of (λ c. c == b'@') email
    && any_of (λ c. c == b'.') (after_last_at email)
    && not (starts_with_at email)

-- `.` does not match a line feed, so that each part of the pattern looks at the first line.
unfoldable pub first_line : Text → Text
first_line [] = []
first_line (c ∷ s) = let rest = first_line s in if c == 10 then [] else c ∷ rest

-- `$` matches at the end and before a line feed that ends the text.
unfoldable pub one_line : Text → Bool
one_line [] = true
one_line (c ∷ []) = true
one_line (c ∷ d ∷ s) = let rest = one_line (d ∷ s) in if c == 10 then false else rest

unfoldable pub check_password_policy : Crypto → Text → Bool
unfolding first_line one_line
check_password_policy crypto password =
    let line = first_line password in
    any_of (between 97 122) line
    && any_of (between 65 90) line
    && any_of crypto.is_digit line
    && any_of (λ c. not (crypto.is_word c) && not (is_space c)) line
    && leb 8 (length line)
    && one_line password
