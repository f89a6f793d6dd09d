-- ===== src/Domain/Recipient.antt =====
-- domain/recipient.py: `normalize_recipient_address`.
pub mod Laws
use agenda_agent.Prelude.{
  Bool, Result, [], err, exists, false, if◌then◌else◌, is_empty, length, ltb, not, ok, value_error,
  ℕ, ◌&&◌, ◌+◌, ◌==◌, ◌||◌, ◌∷◌,
}
use agenda_agent.Prelude.Text.{Text, Unicode, strip}

abbrev pub at_sign : ℕ
at_sign = b'@'

abbrev pub dot : ℕ
dot = b'.'

-- `value.count("@")`
abbrev pub count : ℕ → Text → ℕ
count k [] = 0
count k (c ∷ t) = (if c == k then 1 else 0) + count k t

-- The parts before and behind the last such character.
abbrev pub before_last : ℕ → Text → Text
before_last k [] = []
before_last k (c ∷ t) = let rest = c ∷ before_last k t in if count k t == 0 then [] else rest

abbrev pub behind_last : ℕ → Text → Text
behind_last k [] = []
behind_last k (c ∷ t) = let rest = behind_last k t in if count k t == 0 then t else rest

abbrev pub ends_with_dot : Text → Bool
ends_with_dot [] = false
ends_with_dot (c ∷ []) = c == dot
ends_with_dot (c ∷ d ∷ t) = ends_with_dot (d ∷ t)

abbrev pub starts_with_dot : Text → Bool
starts_with_dot [] = false
starts_with_dot (c ∷ t) = c == dot

abbrev pub two_dots : Text → Bool
two_dots [] = false
two_dots (c ∷ t) = (c == dot && starts_with_dot t) || two_dots t

-- `any(not label for label in domain.split("."))`: some label between the dots is empty
abbrev pub empty_label : Text → Bool
empty_label t = is_empty t || starts_with_dot t || ends_with_dot t || two_dots t

-- `character.isspace() or ord(character) < 32`
abbrev pub is_refused : Unicode → ℕ → Bool
is_refused u c = u.is_space c || ltb c 32

unfoldable pub check_recipient : Unicode → Text → Result Text
check_recipient u n =
    if is_empty n || ltb 254 (length n)
    then err (value_error "recipient address must contain between 1 and 254 characters")
    else if exists (is_refused u) n
    then err (value_error "recipient address must not contain whitespace or control characters")
    else if not (count at_sign n == 1)
    then err (value_error "recipient address must contain exactly one @ character")
    else if is_empty (before_last at_sign n)
        || is_empty (behind_last at_sign n)
        || starts_with_dot (behind_last at_sign n)
        || ends_with_dot (behind_last at_sign n)
    then err (value_error "recipient address is incomplete")
    else if two_dots (behind_last at_sign n) || empty_label (behind_last at_sign n)
    then err (value_error "recipient domain is invalid")
    else ok n

unfoldable pub normalize_recipient_address : Unicode → Text → Result Text
unfolding check_recipient
normalize_recipient_address u value = check_recipient u (strip u value)
