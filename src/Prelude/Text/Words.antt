-- ===== src/Prelude/Text/Words.antt =====
-- Splitting at white space and joining with single spaces.
use mathlib.Core.Path.{◌≡◌, refl, ap, ◌∙◌}
use mathlib.Core.Bool.{false}
use mathlib.Core.Logic.{inl, inr}
use mathlib.Core.List.{List, [], ◌∷◌, ◌++◌}
use agenda_agent.Prelude.Lists.{All}
use agenda_agent.Prelude.Tests.{Bool-cases}
use agenda_agent.Prelude.Text.{Text, Unicode, emit, join, scan, split, collapse}

module _ (u : Unicode) where
  -- No white space inside.
  abbrev pub IsSolid : Text → Type 0
  IsSolid [] = Unit
  IsSolid (c ∷ s) = (u.is_space c ≡ false) × IsSolid s

  -- A non-empty run of letters.
  abbrev pub IsWord : Text → Type 0
  IsWord [] = ⊥
  IsWord (c ∷ s) = IsSolid (c ∷ s)

  scan_solid : (w : Text) → IsSolid w → scan u w ≡ (w, [])
  unfolding scan
  scan_solid [] h = refl
  scan_solid (c ∷ w) h = simp (scan_solid w h.1, h.0)

  scan_word-space :
      (w t : Text) → IsSolid w → scan u (w ++ (32 ∷ t)) ≡ (w, emit (scan u t).0 (scan u t).1)
  unfolding scan
  scan_word-space [] t h = simp u.space_is_space
  scan_word-space (c ∷ w) t h = simp (scan_word-space w t h.1, h.0)

  IsWord-IsSolid : (w : Text) → IsWord w → IsSolid w
  IsWord-IsSolid [] h = absurd h
  IsWord-IsSolid (c ∷ w) h = h

  emit_word : (w : Text) (ws : List Text) → IsWord w → emit w ws ≡ w ∷ ws
  emit_word [] ws h = absurd h
  emit_word (c ∷ w) ws h = refl

  -- Splitting undoes joining.
  pub split-join : (ws : List Text) → All IsWord ws → split u (join ws) ≡ ws
  unfolding split scan
  split-join [] h = refl
  split-join (w ∷ []) h = rw (scan_solid w (IsWord-IsSolid w h.0)) (emit_word w [] h.0)
  split-join (w ∷ v ∷ ws) h =
      rw (scan_word-space w (join (v ∷ ws)) (IsWord-IsSolid w h.0))
        (emit_word w _ h.0 ∙ ap (λ r. w ∷ r) (split-join (v ∷ ws) h.1))

  emit-words : (w : Text) (ws : List Text) → IsSolid w → All IsWord ws → All IsWord (emit w ws)
  emit-words [] ws s h = h
  emit-words (c ∷ w) ws s h = (s, h)

  scan-words : (t : Text) → IsSolid (scan u t).0 × All IsWord (scan u t).1
  unfolding scan
  scan-words [] = (tt, tt)
  scan-words (c ∷ t) =
      let (solid, words) = scan-words t in
      elim (Bool-cases (u.is_space c)) [
        | inl space ↦ rw space (tt, emit-words _ _ solid words)
        | inr letter ↦ rw letter ((letter, solid), words)
      ]

  pub split-words : (t : Text) → All IsWord (split u t)
  unfolding split
  split-words t = emit-words _ _ (scan-words t).0 (scan-words t).1

  -- Collapsing the white space keeps the words, and a second time changes nothing.
  pub split-collapse : (t : Text) → split u (collapse u t) ≡ split u t
  unfolding collapse
  split-collapse t = split-join (split u t) (split-words t)

  pub collapse-collapse : (t : Text) → collapse u (collapse u t) ≡ collapse u t
  collapse-collapse t = unfold collapse in ap join (split-collapse t)
