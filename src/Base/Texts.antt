-- ===== src/Base/Texts.antt =====
-- Equality of texts, as a test.
use corpc.Base.Tests.{Bool-cases, ◌==◌, ==_iff}
use Prim.Native.Nat.{ℕ}
use mathlib.Core.Path.{◌≡◌, refl, sym, ap, ◌∙◌}
use mathlib.Core.Logic.{inl, inr}
use mathlib.Core.Bool.{Bool, true, false, ◌&&◌}
use mathlib.Core.List.{List, [], ◌∷◌}

-- `==` of std::string, on the codes of the characters.
unfoldable pub same_text : List ℕ → List ℕ → Bool
same_text [] [] = true
same_text [] (d ∷ t') = false
same_text (c ∷ t) [] = false
same_text (c ∷ t) (d ∷ t') = (c == d) && same_text t t'

pub same_text_sound : (t t' : List ℕ) → same_text t t' ≡ true → t ≡ t'
unfolding same_text
same_text_sound [] [] h = refl
same_text_sound [] (d ∷ t') h = cc
same_text_sound (c ∷ t) [] h = cc
same_text_sound (c ∷ t) (d ∷ t') h = elim (Bool-cases (c == d)) [
  | inl same ↦
      let e : c ≡ d = (==_iff c d).0 same in
      let rest : t ≡ t' = same_text_sound t t' (sym (ap (λ b. b && same_text t t') same) ∙ h) in cc
  | inr other ↦ let f : false ≡ true = sym (ap (λ b. b && same_text t t') other) ∙ h in cc
]

pub same_text_self : (t : List ℕ) → same_text t t ≡ true
unfolding same_text
same_text_self [] = refl
same_text_self (c ∷ t) = let e : (c == c) ≡ true = (==_iff c c).1 refl in rw e (same_text_self t)
