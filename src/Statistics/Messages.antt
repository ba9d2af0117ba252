-- ===== src/Statistics/Messages.antt =====
-- The totals of src/Statistics.c after any run of messages.
use projeto_so.Base.{
  Option-cases, ℕ, suc, ◌+◌, ◌<◌, ◌^◌, ◌≡◌, sym, subst, ◌∙◌, inl, inr, List, [], ◌∷◌, none, some,
  some_inj, arith, true, false, Bool-cases, length, ltb,
}
use projeto_so.Chain.{Ledger, StatisticsMessage}
use projeto_so.Chain.Layout.{message_size}
use projeto_so.Statistics.{Statistics, new_statistics, handle_message, receive, receive_all}
use projeto_so.Statistics.Totals.{sum-replicate, IsCounted, handle_message-IsCounted}

module _ (Double : Type 0) (add : Double → ℕ → Double) where
  IsCounted-more :
      (k : ℕ) (s : Statistics Double) → IsCounted Double add k s → IsCounted Double add (suc k) s
  IsCounted-more k s v = record {
    in_chain = v.in_chain;
    processed = v.processed;
    few = omega (arith, v.few);
  }

  pub receive-short :
      (n : ℕ) (l : Ledger) (bytes : ℕ) (msg : StatisticsMessage) (s : Statistics Double)
      → ltb bytes message_size ≡ true
      → receive Double add n l bytes msg s ≡ some s
  unfolding receive
  receive-short n l bytes msg s e = rw (e, receive)

  pub receive-whole :
      (n : ℕ) (l : Ledger) (bytes : ℕ) (msg : StatisticsMessage) (s : Statistics Double)
      → ltb bytes message_size ≡ false
      → receive Double add n l bytes msg s ≡ handle_message Double add n l msg s
  unfolding receive
  receive-whole n l bytes msg s e = rw (e, receive)

  receive-IsCounted :
      (k n : ℕ) (l : Ledger) (bytes : ℕ) (msg : StatisticsMessage) (s : Statistics Double)
      → suc k < 2 ^ 32
      → IsCounted Double add k s
      → {s' : Statistics Double} → receive Double add n l bytes msg s ≡ some s'
      → IsCounted Double add (suc k) s'
  receive-IsCounted k n l bytes msg s bound v e = elim (Bool-cases (ltb bytes message_size)) [
    | inl short ↦
        subst (IsCounted Double add (suc k))
          (some_inj (sym (receive-short n l bytes msg s short) ∙ e)) (IsCounted-more k s v)
    | inr whole ↦
        handle_message-IsCounted Double add k n l msg s bound v
          (sym (receive-whole n l bytes msg s whole) ∙ e)
  ]

  pub receive_all-cons :
      (n : ℕ) (l : Ledger) (bytes : ℕ) (msg : StatisticsMessage)
      (rest : List (Ledger × ℕ × StatisticsMessage)) (s : Statistics Double)
      {s' : Statistics Double}
      → receive Double add n l bytes msg s ≡ some s'
      → receive_all Double add n ((l, bytes, msg) ∷ rest) s ≡ receive_all Double add n rest s'
  unfolding receive_all
  receive_all-cons n l bytes msg rest s e = rw (e, receive_all)

  receive_all-fault :
      (n : ℕ) (l : Ledger) (bytes : ℕ) (msg : StatisticsMessage)
      (rest : List (Ledger × ℕ × StatisticsMessage)) (s : Statistics Double)
      → receive Double add n l bytes msg s ≡ none
      → receive_all Double add n ((l, bytes, msg) ∷ rest) s ≡ none
  unfolding receive_all
  receive_all-fault n l bytes msg rest s e = rw (e, receive_all)

  -- If k messages were counted, and a run of messages ends without an access out of bounds, with
  -- fewer than 2^32 in all, the total of processed blocks is the sum of the miners' valid and
  -- invalid blocks, and the blocks in the chain are the valid ones, as before it.
  pub receive_all-IsCounted :
      (k n : ℕ) (messages : List (Ledger × ℕ × StatisticsMessage)) (s s' : Statistics Double)
      → k + length messages < 2 ^ 32
      → IsCounted Double add k s
      → receive_all Double add n messages s ≡ some s'
      → IsCounted Double add (k + length messages) s'
  unfolding receive_all
  receive_all-IsCounted k n [] s s' bound v e =
      subst (λ m. IsCounted Double add m s') (omega arith)
        (subst (IsCounted Double add k) (some_inj e) v)
  receive_all-IsCounted k n ((l, bytes, msg) ∷ rest) s s' bound v e =
      elim (Option-cases (receive Double add n l bytes msg s)) [
        | inl out ↦ absurd (cc (e, receive_all-fault n l bytes msg rest s out))
        | inr (t, there) ↦
            subst (λ m. IsCounted Double add m s') (omega arith)
              (receive_all-IsCounted (suc k) n rest t s' (omega arith)
                (receive-IsCounted k n l bytes msg s (omega arith) v there)
                (sym (receive_all-cons n l bytes msg rest s there) ∙ e))
      ]

  pub new_statistics-IsCounted :
      (nought : Double) (num_miners : ℕ)
      → IsCounted Double add 0 (new_statistics Double add nought num_miners)
  unfolding new_statistics
  new_statistics-IsCounted nought num_miners = record {
    in_chain = sym (sum-replicate num_miners);
    processed = omega (arith, sum-replicate num_miners);
    few = omega arith;
  }
