-- ===== src/Validator/Transactions/Finding.antt =====
-- Which blocks the checks against the pool let through.
use projeto_so.Base.{
  ℕ, ◌≡◌, ◌≢◌, ◌↔◌, refl, sym, ap, subst, ◌∙◌, ◌⊎◌, inl, inr, true, false, ◌&&◌, List, [], ◌∷◌,
  ◌++◌, some, arith, ◌==◌, Bool-cases, str_eq, c_str, bytes_eq, bytes_eq_refl, bytes_eq→eq,
}
use projeto_so.Floats.{float_eq}
use projeto_so.Chain.{Transaction, PendingTransaction}
use projeto_so.Validator.Transactions.{
  tx_compare, Lookup, missing, differs, found, look_up, verify_transactions,
}

-- No filled slot among these has the id of `t`.
abbrev pub NoSlot : Transaction → List PendingTransaction → Type 0
NoSlot t [] = Unit {0}
NoSlot t (s ∷ slots) = ((s.filled ≡ 0) ⊎ (str_eq t.tx_id s.tx.tx_id ≡ false)) × NoSlot t slots

-- The first filled slot with the id of `t`.
pub record FirstSlot (t : Transaction) (slots : List PendingTransaction) : Type 0 where
  pub before : List PendingTransaction
  pub slot : PendingTransaction
  pub behind : List PendingTransaction
  pub split : slots ≡ before ++ slot ∷ behind
  pub none_before : NoSlot t before
  pub taken : slot.filled ≢ 0
  pub same_id : str_eq t.tx_id slot.tx.tx_id ≡ true

unfoldable pub FirstSlot-cons :
    (t : Transaction) (s : PendingTransaction) (slots : List PendingTransaction)
    → (s.filled ≡ 0) ⊎ (str_eq t.tx_id s.tx.tx_id ≡ false)
    → FirstSlot t slots
    → FirstSlot t (s ∷ slots)
FirstSlot-cons t s slots h f = record {
  before = s ∷ f.before;
  slot = f.slot;
  behind = f.behind;
  split = ap (◌∷◌ s) f.split;
  none_before = (h, f.none_before);
  taken = f.taken;
  same_id = f.same_id;
}

-- What the loop over the slots finds, for each of its answers.
abbrev pub Finds : Transaction → List PendingTransaction → Lookup → Type 0
Finds t slots missing = NoSlot t slots
Finds t slots differs = (f : FirstSlot t slots) × (tx_compare (some t) (some f.slot.tx) ≡ false)
Finds t slots found = (f : FirstSlot t slots) × (tx_compare (some t) (some f.slot.tx) ≡ true)

Finds-cons :
    (t : Transaction) (s : PendingTransaction) (slots : List PendingTransaction) (l : Lookup)
    → (s.filled ≡ 0) ⊎ (str_eq t.tx_id s.tx.tx_id ≡ false)
    → Finds t slots l
    → Finds t (s ∷ slots) l
unfolding FirstSlot-cons
Finds-cons t s slots missing h n = (h, n)
Finds-cons t s slots differs h (f, e) = (FirstSlot-cons t s slots h f, e)
Finds-cons t s slots found h (f, e) = (FirstSlot-cons t s slots h f, e)

-- The loop answers by the first filled slot with the id: the transaction is missing if there is
-- none, and otherwise found or different as all its fields compare with those of that slot.
pub look_up-Finds :
    (t : Transaction) (slots : List PendingTransaction) → Finds t slots (look_up t slots)
unfolding look_up
look_up-Finds t [] = tt
look_up-Finds t (s ∷ slots) = elim (Bool-cases (s.filled == 0)) [
  | inl free ↦ rw free (Finds-cons t s slots _ (inl (ground arith)) (look_up-Finds t slots))
  | inr taken ↦ elim (Bool-cases (str_eq t.tx_id s.tx.tx_id)) [
    | inr other ↦ rw (taken, other) (Finds-cons t s slots _ (inr other) (look_up-Finds t slots))
    | inl same ↦
        let here : FirstSlot t (s ∷ slots) = record {
          before = [];
          slot = s;
          behind = slots;
          split = refl;
          none_before = tt;
          taken = ground arith;
          same_id = same;
        } in
        elim (Bool-cases (tx_compare (some t) (some s.tx))) [
          | inl equal ↦ rw (taken, same, equal) (here, equal)
          | inr unequal ↦ rw (taken, same, unequal) (here, unequal)
        ]
  ]
]

-- Every transaction compares equal with the first filled slot that has its id.
abbrev pub AllFound : List Transaction → List PendingTransaction → Type 0
AllFound [] slots = Unit {0}
AllFound (t ∷ ts) slots =
    ((f : FirstSlot t slots) × (tx_compare (some t) (some f.slot.tx) ≡ true)) × AllFound ts slots

look_up-append :
    (t : Transaction) (before : List PendingTransaction) (s : PendingTransaction)
    (slots : List PendingTransaction)
    → NoSlot t before
    → s.filled ≢ 0
    → str_eq t.tx_id s.tx.tx_id ≡ true
    → tx_compare (some t) (some s.tx) ≡ true
    → look_up t (before ++ s ∷ slots) ≡ found
unfolding look_up
look_up-append t [] s slots n taken same equal = ground arith
look_up-append t (b ∷ before) s slots n taken same equal =
    ground (arith, look_up-append t before s slots n.1 taken same equal)

pub FirstSlot→found :
    (t : Transaction) (slots : List PendingTransaction) (f : FirstSlot t slots)
    → tx_compare (some t) (some f.slot.tx) ≡ true
    → look_up t slots ≡ found
FirstSlot→found t slots f equal =
    ap (look_up t) f.split
    ∙ look_up-append t f.before f.slot f.behind f.none_before f.taken f.same_id equal

pub verify_transactions-cons :
    (t : Transaction) (ts : List Transaction) (slots : List PendingTransaction)
    → look_up t slots ≡ found
    → verify_transactions (t ∷ ts) slots ≡ verify_transactions ts slots
unfolding verify_transactions
verify_transactions-cons t ts slots e = rw (e, verify_transactions)

pub verify_transactions-found :
    (t : Transaction) (ts : List Transaction) (slots : List PendingTransaction)
    → verify_transactions (t ∷ ts) slots ≡ true
    → look_up t slots ≡ found
unfolding verify_transactions
verify_transactions-found t ts slots h = ground arith

AllFound→true :
    (ts : List Transaction) (slots : List PendingTransaction)
    → AllFound ts slots
    → verify_transactions ts slots ≡ true
unfolding verify_transactions
AllFound→true [] slots all = refl
AllFound→true (t ∷ ts) slots ((f, equal), all) =
    verify_transactions-cons t ts slots (FirstSlot→found t slots f equal)
    ∙ AllFound→true ts slots all

true→AllFound :
    (ts : List Transaction) (slots : List PendingTransaction)
    → verify_transactions ts slots ≡ true
    → AllFound ts slots
true→AllFound [] slots h = tt
true→AllFound (t ∷ ts) slots h =
    let e = verify_transactions-found t ts slots h in
    (
      subst (Finds t slots) e (look_up-Finds t slots),
      true→AllFound ts slots (sym (verify_transactions-cons t ts slots e) ∙ h),
    )

str_eq_of_c_str : (a b : List ℕ) → c_str a ≡ c_str b → str_eq a b ≡ true
unfolding str_eq
str_eq_of_c_str a b e = subst (λ x. bytes_eq (c_str a) x ≡ true) e (bytes_eq_refl (c_str a))

c_str_of_str_eq : (a b : List ℕ) → str_eq a b ≡ true → c_str a ≡ c_str b
unfolding str_eq
c_str_of_str_eq a b h = bytes_eq→eq (c_str a) (c_str b) h

-- The four fields are the same, the ids as strings and the values as floats.
pub record SameFields (a b : Transaction) : Type 0 where
  pub tx_id : c_str a.tx_id ≡ c_str b.tx_id
  pub reward : a.reward ≡ b.reward
  pub value : float_eq a.value b.value ≡ true
  pub timestamp : a.timestamp ≡ b.timestamp

SameFields→true : (a b : Transaction) → SameFields a b → tx_compare (some a) (some b) ≡ true
unfolding tx_compare
SameFields→true a b f =
    ground (arith, str_eq_of_c_str a.tx_id b.tx_id f.tx_id, f.reward, f.value, f.timestamp)

true→SameFields : (a b : Transaction) → tx_compare (some a) (some b) ≡ true → SameFields a b
unfolding tx_compare
true→SameFields a b e = record {
  tx_id = c_str_of_str_eq a.tx_id b.tx_id (ground arith);
  reward = ground arith;
  value = ground arith;
  timestamp = ground arith;
}

-- Every transaction is, field by field, the one in the first filled slot that has its id.
abbrev pub AllListed : List Transaction → List PendingTransaction → Type 0
AllListed [] slots = Unit {0}
AllListed (t ∷ ts) slots = ((f : FirstSlot t slots) × SameFields t f.slot.tx) × AllListed ts slots

AllListed→AllFound :
    (ts : List Transaction) (slots : List PendingTransaction)
    → AllListed ts slots
    → AllFound ts slots
AllListed→AllFound [] slots all = tt
AllListed→AllFound (t ∷ ts) slots ((f, same), all) =
    ((f, SameFields→true t f.slot.tx same), AllListed→AllFound ts slots all)

AllFound→AllListed :
    (ts : List Transaction) (slots : List PendingTransaction)
    → AllFound ts slots
    → AllListed ts slots
AllFound→AllListed [] slots all = tt
AllFound→AllListed (t ∷ ts) slots ((f, equal), all) =
    ((f, true→SameFields t f.slot.tx equal), AllFound→AllListed ts slots all)

-- The transactions of a block pass the check exactly when each of them has the reward, the
-- timestamp, the id as a string and the value as a float of the first filled slot of the pool with
-- its id.
pub verify_transactions_iff :
    (ts : List Transaction) (slots : List PendingTransaction)
    → (verify_transactions ts slots ≡ true) ↔ AllListed ts slots
verify_transactions_iff ts slots = (
  λ h. AllFound→AllListed ts slots (true→AllFound ts slots h),
  λ all. AllFound→true ts slots (AllListed→AllFound ts slots all),
)

-- The check does not notice repetition: a block that lists its transactions twice passes if the
-- block that lists them once does.
pub verify_transactions-append :
    (ts us : List Transaction) (slots : List PendingTransaction)
    → verify_transactions (ts ++ us) slots
      ≡ (verify_transactions ts slots && verify_transactions us slots)
unfolding verify_transactions
verify_transactions-append [] us slots = refl
verify_transactions-append (t ∷ ts) us slots =
    ground (arith, verify_transactions-append ts us slots)
