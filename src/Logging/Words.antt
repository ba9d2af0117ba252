-- ===== src/Logging/Words.antt =====
-- The colour of a message.
use projeto_so.Base.{
  ℕ, ◌≡◌, ◌↔◌, ◌⊎◌, inl, inr, refl, Bool, true, false, ◌||◌, List, codes, c_str, if◌then◌else◌,
}
use mathlib.Core.Bool.{false≢true}
use projeto_so.Libc.Find.{Occurs, strcasestr-Occurs}
use projeto_so.Logging.{Colour, plain, red, green, has, color_of, execucao}

-- Words that colour a message.
abbrev pub Bad : List ℕ → Type 0
Bad text = Occurs (codes "erro") text ⊎ Occurs (codes "rejeitado") text

abbrev pub Good : List ℕ → Type 0
Good text = Occurs (codes "sucesso") text ⊎ (Occurs execucao text ⊎ Occurs (codes "iniciado") text)

-- A test on a Boolean that decides a statement.
abbrev Decides : Bool → Type 0 → Type 0
Decides b P = (b ≡ true) ↔ P

has-Occurs : (text needle : List ℕ) → Decides (has text needle) (Occurs needle (c_str text))
unfolding has
has-Occurs text needle = strcasestr-Occurs text needle

either-Decides : (a b : Bool) {P Q : Type 0} → Decides a P → Decides b Q → Decides (a || b) (P ⊎ Q)
either-Decides true b p q = (λ h. inl (p.0 refl), λ s. refl)
either-Decides false b p q =
    (λ h. inr (q.0 h), λ s. elim s [ inl x ↦ absurd (false≢true (p.1 x)) | inr y ↦ q.1 y ])

pick : Bool → Bool → Colour
pick a b = if a then red else if b then green else plain

pick_lem :
    (a b : Bool) {P Q : Type 0}
    → Decides a P
    → Decides b Q
    → ((pick a b ≡ red) ↔ P)
      × ((pick a b ≡ green) ↔ ((¬ P) × Q))
      × ((pick a b ≡ plain) ↔ ((¬ P) × (¬ Q)))
unfolding pick
pick_lem true b p q =
    let bad = p.0 refl in
    ((λ h. bad, λ x. refl), (λ h. cc h, λ h. absurd (h.0 bad)), (λ h. cc h, λ h. absurd (h.0 bad)))
pick_lem false true {P} p q =
    let fine : ¬ P = λ x. false≢true (p.1 x) in
    let good = q.0 refl in
    (
      (λ h. cc h, λ x. absurd (fine x)),
      (λ h. (fine, good), λ h. refl),
      (λ h. cc h, λ h. absurd (h.1 good)),
    )
pick_lem false false p q = (
  (λ h. cc h, λ x. absurd (false≢true (p.1 x))),
  (λ h. cc h, λ h. absurd (false≢true (q.1 h.1))),
  (λ h. (λ x. false≢true (p.1 x), λ y. false≢true (q.1 y)), λ h. refl),
)

-- A message is printed in red just when erro or rejeitado stands in it, whatever the case of the
-- letters; in green just when none of these does, but sucesso, execução or iniciado; and else
-- without a colour.
pub color_of_iff :
    (text : List ℕ)
    → ((color_of text ≡ red) ↔ Bad (c_str text))
      × ((color_of text ≡ green) ↔ ((¬ Bad (c_str text)) × Good (c_str text)))
      × ((color_of text ≡ plain) ↔ ((¬ Bad (c_str text)) × (¬ Good (c_str text))))
unfolding color_of pick
color_of_iff text = pick_lem _ _ (either-Decides _ _ (has-Occurs text _) (has-Occurs text _)) (
    either-Decides _ _ (has-Occurs text _)
      (either-Decides _ _ (has-Occurs text _) (has-Occurs text _)))
