-- ===== src/Domain/Recipient/Laws.antt =====
-- A normalised address is a fixed point of the normalisation.
use mathlib.Core.List.{reverse, reverse-cons, reverse-reverse}
use agenda_agent.Prelude.{[], arith, exists, false, ok, refl, ◌∷◌, ◌≡◌, ◌∙◌}
use agenda_agent.Prelude.Text.{Text, Unicode, lstrip, strip}
use agenda_agent.Domain.Recipient.{check_recipient, is_refused, normalize_recipient_address}
use agenda_agent.Prelude.Rows.{exists-append}

check_recipient-eq :
    (u : Unicode) (n m : Text)
    → check_recipient u n ≡ ok m
    → (m ≡ n) × (exists (is_refused u) n ≡ false)
unfolding check_recipient
check_recipient-eq u n m h = ground arith

module _ (u : Unicode) where
  lstrip-solid : (t : Text) → exists (is_refused u) t ≡ false → lstrip u t ≡ t
  unfolding lstrip
  lstrip-solid [] h = refl
  lstrip-solid (c ∷ t) h = ground arith

  exists-reverse : (t : Text) → exists (is_refused u) (reverse t) ≡ exists (is_refused u) t
  exists-reverse [] = refl
  exists-reverse (c ∷ t) =
      rw (reverse-cons, exists-append (is_refused u) (reverse t) c, exists-reverse t) (ground arith)

  strip-solid : (t : Text) → exists (is_refused u) t ≡ false → strip u t ≡ t
  unfolding strip
  strip-solid t h =
      rw (lstrip-solid t h, lstrip-solid (reverse t) (exists-reverse t ∙ h), reverse-reverse)

  -- A normalised address is normalised to itself.
  pub normalize_recipient_address_again :
      (value n : Text)
      → normalize_recipient_address u value ≡ ok n
      → normalize_recipient_address u n ≡ ok n
  unfolding normalize_recipient_address
  normalize_recipient_address_again value n h =
      let (same, solid) = check_recipient-eq u (strip u value) n h in
      let solid' : exists (is_refused u) n ≡ false = rw same solid in
      rw (strip-solid n solid') (rw same (rw same at h))
