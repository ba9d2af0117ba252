-- ===== src/Base/Bytes.antt =====
-- Machine integers as native numbers below 2 ^ w, their little-endian bytes, and C strings in
-- char arrays.
use Prim.Native.Nat.{ℕ, zero, suc, ◌+◌, ◌-◌, ◌*◌, ◌/◌, ◌%◌, ◌^◌, ◌<◌}
use Prim.Native.Char.{code}
use Prim.Native.String.{String}
use mathlib.Core.Path.{◌≡◌, refl, sym, ap, subst, ◌∙◌}
use mathlib.Core.Logic.{◌⊎◌, inl, inr, ◌≢◌}
use mathlib.Core.Bool.{Bool, true, false, ◌&&◌, false≢true}
use mathlib.Core.List.{List, [], ◌∷◌, ◌++◌}
use native.Mathlib.Omega.{arith}
use native.Mathlib.Nat.{pow-suc}
use projeto_so.Base.Tests.{ltb, leb, ◌==◌, Bool-cases}
use projeto_so.Base.Lists.{length, take, drop}

-- An `int` is kept as its 32-bit pattern; -1 is 2 ^ 32 - 1. The order is that of the values.
abbrev pub u32 : ℕ → ℕ
u32 n = n % 2 ^ 32

abbrev pub u64 : ℕ → ℕ
u64 n = n % 2 ^ 64

abbrev pub minus_one : ℕ
minus_one = 2 ^ 32 - 1

abbrev pub signed_key : ℕ → ℕ
signed_key n = (n + 2 ^ 31) % 2 ^ 32

abbrev pub ltb_int : ℕ → ℕ → Bool
ltb_int a b = ltb (signed_key a) (signed_key b)

abbrev pub leb_int : ℕ → ℕ → Bool
leb_int a b = leb (signed_key a) (signed_key b)

-- The bytes of an integer of `w` bytes as `memcpy` moves them on a little-endian machine.
unfoldable pub le_bytes : ℕ → ℕ → List ℕ
le_bytes zero n = []
le_bytes (suc w) n = (n % 256) ∷ le_bytes w (n / 256)

unfoldable pub of_le_bytes : List ℕ → ℕ
of_le_bytes [] = 0
of_le_bytes (b ∷ bs) = b + 256 * of_le_bytes bs

pub length-le_bytes : (w n : ℕ) → length (le_bytes w n) ≡ w
unfolding le_bytes
length-le_bytes zero n = refl
length-le_bytes (suc w) n = ap suc (length-le_bytes w (n / 256))

pub of_le_bytes-le_bytes : (w n : ℕ) → n < 256 ^ w → of_le_bytes (le_bytes w n) ≡ n
unfolding le_bytes of_le_bytes
of_le_bytes-le_bytes zero n h = omega arith
of_le_bytes-le_bytes (suc w) n h =
    omega (arith, of_le_bytes-le_bytes w (n / 256) (omega (arith, pow-suc 256 w)))

module _ {ℓ} {A : Type ℓ} where
  pub take-append_length : (n : ℕ) (xs ys : List A) → length xs ≡ n → take n (xs ++ ys) ≡ xs
  take-append_length zero [] ys h = refl
  take-append_length zero (x ∷ xs) ys h = absurd (omega arith)
  take-append_length (suc n) [] ys h = absurd (omega arith)
  take-append_length (suc n) (x ∷ xs) ys h = ap (◌∷◌ x) (take-append_length n xs ys (omega arith))

  pub drop-append_length : (n : ℕ) (xs ys : List A) → length xs ≡ n → drop n (xs ++ ys) ≡ ys
  drop-append_length zero [] ys h = refl
  drop-append_length zero (x ∷ xs) ys h = absurd (omega arith)
  drop-append_length (suc n) [] ys h = absurd (omega arith)
  drop-append_length (suc n) (x ∷ xs) ys h = drop-append_length n xs ys (omega arith)

  pub take-length : (n : ℕ) (xs : List A) → length xs ≡ n → take n xs ≡ xs
  take-length zero [] h = refl
  take-length zero (x ∷ xs) h = absurd (omega arith)
  take-length (suc n) [] h = refl
  take-length (suc n) (x ∷ xs) h = ap (◌∷◌ x) (take-length n xs (omega arith))

-- The bytes of a literal in the source.
abbrev pub codes : String → List ℕ
codes String.[] = []
codes (String.◌∷◌ c s) = code c ∷ codes s

-- The string that a char array holds: its bytes before the first NUL.
unfoldable pub c_str : List ℕ → List ℕ
c_str [] = []
c_str (zero ∷ cs) = []
c_str (suc c ∷ cs) = suc c ∷ c_str cs

unfoldable pub bytes_eq : List ℕ → List ℕ → Bool
bytes_eq [] [] = true
bytes_eq [] (b ∷ bs) = false
bytes_eq (a ∷ as') [] = false
bytes_eq (a ∷ as') (b ∷ bs) = a == b && bytes_eq as' bs

-- strcmp (a, b) == 0
unfoldable pub str_eq : List ℕ → List ℕ → Bool
unfolding c_str bytes_eq
str_eq a b = bytes_eq (c_str a) (c_str b)

-- strncmp (a, b, n) == 0: both stop at the first NUL, or after n bytes.
unfoldable pub strn_eq : ℕ → List ℕ → List ℕ → Bool
unfolding c_str bytes_eq
strn_eq n a b = bytes_eq (c_str (take n a)) (c_str (take n b))

pub bytes_eq→eq : (a b : List ℕ) → bytes_eq a b ≡ true → a ≡ b
unfolding bytes_eq
bytes_eq→eq [] [] h = refl
bytes_eq→eq (a ∷ as') (b ∷ bs) h = ground (arith, bytes_eq→eq as' bs)
bytes_eq→eq [] (b ∷ bs) h = ground arith
bytes_eq→eq (a ∷ as') [] h = ground arith

pub bytes_eq_refl : (a : List ℕ) → bytes_eq a a ≡ true
unfolding bytes_eq
bytes_eq_refl [] = refl
bytes_eq_refl (a ∷ as') = ground (arith, bytes_eq_refl as')

module _ {ℓ} {A : Type ℓ} where
  pub append_inj :
      (n : ℕ) (xs xs' ys ys' : List A)
      → length xs ≡ n
      → length xs' ≡ n
      → xs ++ ys ≡ xs' ++ ys'
      → (xs ≡ xs') × (ys ≡ ys')
  append_inj n xs xs' ys ys' h h' e = (
    sym (take-append_length n xs ys h) ∙ ap (take n) e ∙ take-append_length n xs' ys' h',
    sym (drop-append_length n xs ys h) ∙ ap (drop n) e ∙ drop-append_length n xs' ys' h',
  )

pub le_bytes_inj : (w a b : ℕ) → a < 256 ^ w → b < 256 ^ w → le_bytes w a ≡ le_bytes w b → a ≡ b
le_bytes_inj w a b ha hb e =
    sym (of_le_bytes-le_bytes w a ha) ∙ ap of_le_bytes e ∙ of_le_bytes-le_bytes w b hb

pub bytes_eq-cases : (a b : List ℕ) → (a ≡ b) ⊎ (a ≢ b)
bytes_eq-cases a b = elim (Bool-cases (bytes_eq a b)) [
  | inl e ↦ inl (bytes_eq→eq a b e)
  | inr e ↦
      inr (λ same. false≢true (sym e ∙ subst (λ c. bytes_eq a c ≡ true) same (bytes_eq_refl a)))
]
