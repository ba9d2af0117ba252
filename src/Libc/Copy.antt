-- ===== src/Libc/Copy.antt =====
-- Copies of strings between buffers whose bytes behind the string are all NUL.
use projeto_so.Base.{
  ℕ, zero, suc, ◌+◌, ◌-◌, ◌≤◌, ◌<◌, ◌≡◌, refl, sym, ap, ◌∙◌, true, List, [], ◌∷◌, ◌++◌, arith,
  length, length-append, length-replicate, take, take-length, drop, replicate, c_str, bytes_eq→eq,
  str_eq, strn_eq,
}
use projeto_so.Libc.{strcpy, strncpy}

-- A buffer of `n` bytes that holds a string and then only NULs, at least one.
pub record IsPadded (n : ℕ) (cs : List ℕ) : Type 0 where
  pub room : length (c_str cs) < n
  pub pad : cs ≡ c_str cs ++ replicate (n - length (c_str cs)) 0

abbrev pub zeros : ℕ → List ℕ
zeros n = replicate n 0

pub drop-replicate : (k n : ℕ) → drop k (zeros n) ≡ zeros (n - k)
drop-replicate zero n = let e : n ≡ n - 0 = omega arith in ap zeros e
drop-replicate (suc k) zero = let e : 0 ≡ 0 - suc k = omega arith in ap zeros e
drop-replicate (suc k) (suc n) =
    let e : n - k ≡ suc n - suc k = omega arith in drop-replicate k n ∙ ap zeros e

length-padded : {n : ℕ} (cs : List ℕ) → IsPadded n cs → length cs ≡ n
length-padded {n} cs p = omega (
  arith,
  p.room,
  ap length p.pad,
  length-append (c_str cs) (zeros (n - length (c_str cs))),
  length-replicate {A = ℕ} (n - length (c_str cs)) 0,
)

-- Into a buffer of NULs strcpy makes an exact copy.
pub strcpy-zeros : (n : ℕ) (cs : List ℕ) → IsPadded n cs → strcpy (zeros n) cs ≡ cs
unfolding strcpy
strcpy-zeros n cs p =
    ap (λ t. c_str cs ++ t)
      (ap (◌∷◌ 0) (drop-replicate (length (c_str cs) + 1) n)
        ∙ ap zeros (
            let e : suc (n - (length (c_str cs) + 1)) ≡ n - length (c_str cs) =
              omega (arith, p.room) in
            e))
    ∙ sym p.pad

pub pad_eq : (n : ℕ) (a b : List ℕ) → IsPadded n a → IsPadded n b → c_str a ≡ c_str b → a ≡ b
pad_eq n a b p q e = p.pad ∙ ap (λ s. s ++ zeros (n - length s)) e ∙ sym q.pad

-- Between padded buffers strcmp decides equality of all bytes.
pub str_eq→eq : (n : ℕ) (a b : List ℕ) → IsPadded n a → IsPadded n b → str_eq a b ≡ true → a ≡ b
unfolding str_eq
str_eq→eq n a b p q h = pad_eq n a b p q (bytes_eq→eq (c_str a) (c_str b) h)

pub strn_eq→eq : (n : ℕ) (a b : List ℕ) → IsPadded n a → IsPadded n b → strn_eq n a b ≡ true → a ≡ b
unfolding strn_eq
strn_eq→eq n a b p q h = pad_eq n a b p q (
    ap c_str (sym (take-length n a (length-padded a p)))
    ∙ bytes_eq→eq _ _ h
    ∙ ap c_str (take-length n b (length-padded b q)))

c_str-take : (n : ℕ) (cs : List ℕ) → length (c_str (take n cs)) ≤ n
unfolding c_str
c_str-take zero cs = omega arith
c_str-take (suc n) [] = omega arith
c_str-take (suc n) (zero ∷ cs) = omega arith
c_str-take (suc n) (suc c ∷ cs) = omega (arith, c_str-take n cs)

pub c_str-append-zeros : (cs : List ℕ) (k : ℕ) → c_str (c_str cs ++ zeros k) ≡ c_str cs
unfolding c_str
c_str-append-zeros [] zero = refl
c_str-append-zeros [] (suc k) = refl
c_str-append-zeros (zero ∷ cs) zero = refl
c_str-append-zeros (zero ∷ cs) (suc k) = refl
c_str-append-zeros (suc c ∷ cs) k = ap (◌∷◌ (suc c)) (c_str-append-zeros cs k)

-- strncpy of a string that leaves room for a NUL pads the buffer, and keeps the string.
pub c_str-strncpy : (n : ℕ) (cs : List ℕ) → c_str (strncpy n cs) ≡ c_str (take n cs)
unfolding strncpy
c_str-strncpy n cs = c_str-append-zeros (take n cs) (n - length (c_str (take n cs)))

pub strncpy-IsPadded :
    (n : ℕ) (cs : List ℕ) → length (c_str (take n cs)) < n → IsPadded n (strncpy n cs)
unfolding strncpy
strncpy-IsPadded n cs h = record {
  room = rw (c_str-append-zeros (take n cs) (n - length (c_str (take n cs)))) h;
  pad = rw (c_str-append-zeros (take n cs) (n - length (c_str (take n cs))));
}

-- strncpy of a buffer that is padded already is an exact copy.
pub strncpy-padded : (n : ℕ) (cs : List ℕ) → IsPadded n cs → strncpy n cs ≡ cs
unfolding strncpy
strncpy-padded n cs p =
    ap (λ ds. c_str ds ++ replicate (n - length (c_str ds)) 0)
      (take-length n cs (length-padded cs p))
    ∙ sym p.pad

-- A string that ends within the first n bytes is all in them.
pub c_str-take_all :
    (n : ℕ) (cs : List ℕ) → length (c_str (take n cs)) < n → c_str (take n cs) ≡ c_str cs
unfolding c_str
c_str-take_all zero cs h = absurd (omega arith)
c_str-take_all (suc n) [] h = refl
c_str-take_all (suc n) (zero ∷ cs) h = refl
c_str-take_all (suc n) (suc c ∷ cs) h = ap (◌∷◌ (suc c)) (c_str-take_all n cs (omega arith))
