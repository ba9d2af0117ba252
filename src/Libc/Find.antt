-- ===== src/Libc/Find.antt =====
-- strcasestr of the C library in the C locale, where bytes above 127 have no case.
use mathlib.Core.Bool.{false≢true}
use projeto_so.Base.{
  Bool-cases, inl, inr, subst, ◌↔◌, and_split, ==_iff, ℕ, ◌+◌, ◌≡◌, refl, sym, ap, ◌∙◌, Bool, true,
  false, ◌&&◌, List, [], ◌∷◌, ◌++◌, Option, none, some, leb, ◌==◌, if◌then◌else◌, arith, c_str,
}

abbrev pub tolower : ℕ → ℕ
tolower c = if leb b'A' c && leb c b'Z' then c + 32 else c

-- The text starts with the needle, whatever the case of its letters.
unfoldable pub starts_with : List ℕ → List ℕ → Bool
starts_with [] cs = true
starts_with (n ∷ ns) [] = false
starts_with (n ∷ ns) (c ∷ cs) = tolower n == tolower c && starts_with ns cs

search_from : List ℕ → List ℕ → Option (List ℕ)
unfolding starts_with
search_from [] needle = if starts_with needle [] then some [] else none
search_from (c ∷ cs) needle =
    let rest = search_from cs needle in if starts_with needle (c ∷ cs) then some (c ∷ cs) else rest

-- The end of the text from the first place where the needle stands.
unfoldable pub strcasestr : List ℕ → List ℕ → Option (List ℕ)
unfolding search_from
strcasestr text needle = search_from (c_str text) needle

-- Equal but for the case of letters.
pub data SameLetters : List ℕ → List ℕ → Type 0 where
  both_empty : SameLetters [] []
  both :
      {a b : ℕ} {xs ys : List ℕ}
      → tolower a ≡ tolower b
      → SameLetters xs ys
      → SameLetters (a ∷ xs) (b ∷ ys)

-- The needle stands in the text, whatever the case of its letters.
pub record Occurs (needle text : List ℕ) : Type 0 where
  pub before : List ℕ
  pub here : List ℕ
  pub after : List ℕ
  pub parts : text ≡ before ++ (here ++ after)
  pub letters : SameLetters needle here

starts_with→SameLetters :
    (needle text : List ℕ)
    → starts_with needle text ≡ true
    → (here : List ℕ) × (after : List ℕ) × (text ≡ here ++ after) × SameLetters needle here
unfolding starts_with
starts_with→SameLetters [] text h = ([], text, refl, both_empty)
starts_with→SameLetters (n ∷ ns) [] h = ground arith
starts_with→SameLetters (n ∷ ns) (c ∷ cs) h =
    let (one, others) = and_split (tolower n == tolower c) _ h in
    let (here, after, e, same) = starts_with→SameLetters ns cs others in
    (c ∷ here, after, ap (◌∷◌ c) e, both ((==_iff (tolower n) (tolower c)).0 one) same)

SameLetters→starts_with :
    {needle here : List ℕ} (after : List ℕ)
    → SameLetters needle here
    → starts_with needle (here ++ after) ≡ true
unfolding starts_with
SameLetters→starts_with after both_empty = refl
SameLetters→starts_with after (both {a} {b} e same) =
    rw ((==_iff (tolower a) (tolower b)).1 e) (SameLetters→starts_with after same)

-- The result is not NULL.
unfoldable pub is_found : Option (List ℕ) → Bool
is_found none = false
is_found (some rest) = true

search_from→Occurs :
    (text needle : List ℕ) → is_found (search_from text needle) ≡ true → Occurs needle text
unfolding search_from is_found
search_from→Occurs [] needle h = elim (Bool-cases (starts_with needle [])) [
  | inl e ↦
      let (here, after, p, same) = starts_with→SameLetters needle [] e in
      record { before = []; here = here; after = after; parts = p; letters = same }
  | inr e ↦ absurd (false≢true (ap (λ b. is_found (if b then some [] else none)) (sym e) ∙ h))
]
search_from→Occurs (c ∷ cs) needle h = elim (Bool-cases (starts_with needle (c ∷ cs))) [
  | inl e ↦
      let (here, after, p, same) = starts_with→SameLetters needle (c ∷ cs) e in
      record { before = []; here = here; after = after; parts = p; letters = same }
  | inr e ↦
      let o =
        search_from→Occurs cs needle
          (subst (λ b. is_found (if b then some (c ∷ cs) else search_from cs needle) ≡ true) e h) in
      record {
        before = c ∷ o.before;
        here = o.here;
        after = o.after;
        parts = ap (◌∷◌ c) o.parts;
        letters = o.letters;
      }
]

found_at :
    (text needle : List ℕ)
    → starts_with needle text ≡ true
    → is_found (search_from text needle) ≡ true
unfolding search_from is_found
found_at [] needle h = ap (λ b. is_found (if b then some [] else none)) h
found_at (c ∷ cs) needle h =
    ap (λ b. is_found (if b then some (c ∷ cs) else search_from cs needle)) h

found_later :
    (b : Bool) (text : List ℕ) (rest : Option (List ℕ))
    → is_found rest ≡ true
    → is_found (if b then some text else rest) ≡ true
unfolding is_found
found_later true text rest h = refl
found_later false text rest h = h

Occurs→search_from :
    (before here after : List ℕ) {needle : List ℕ}
    → SameLetters needle here
    → is_found (search_from (before ++ (here ++ after)) needle) ≡ true
unfolding search_from is_found
Occurs→search_from [] here after {needle} same =
    found_at (here ++ after) needle (SameLetters→starts_with after same)
Occurs→search_from (c ∷ before) here after {needle} same =
    found_later (starts_with needle (c ∷ (before ++ (here ++ after)))) _ _
      (Occurs→search_from before here after same)

-- The text has the needle in it just when strcasestr does not return NULL.
pub strcasestr-Occurs :
    (text needle : List ℕ) → (is_found (strcasestr text needle) ≡ true) ↔ Occurs needle (c_str text)
unfolding strcasestr
strcasestr-Occurs text needle = (
  search_from→Occurs (c_str text) needle,
  λ o.
      subst (λ t. is_found (search_from t needle) ≡ true) (sym o.parts)
        (Occurs→search_from o.before o.here o.after o.letters),
)
