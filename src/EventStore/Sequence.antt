-- ===== src/EventStore/Sequence.antt =====
-- src/state/writer.rs: the rows of the table stand in the order of their sequence numbers.
use claude_pilot.Base.{
  ℕ, ◌≤◌, ◌<◌, ◌≡◌, refl, inl, inr, Bool, true, ◌&&◌, List, [], ◌∷◌, ◌++◌, arith, string_eq,
  list_eq, nat_eq, all, keep, ltb, Bool-cases,
}
use claude_pilot.Events.{DomainEvent}
use claude_pilot.EventStore.{Store, seq_to, seq_after, insert_by, order_by, seq_of}

module _ {F : Type 0} where
  -- Sequence numbers grow along the list, and the first is above the bound.
  unfoldable pub ascending_from : ℕ → List (DomainEvent F) → Bool
  ascending_from n [] = true
  ascending_from n (e ∷ es) =
      let rest = ascending_from e.global_seq es in ltb n e.global_seq && rest

  unfoldable pub all_below : ℕ → List (DomainEvent F) → Bool
  all_below n es = all (λ e. ltb e.global_seq n) es

  abbrev pub IsOrdered : Store F → Type 0
  IsOrdered s =
      (ascending_from 0 s.events ≡ true) × (all_below s.next_seq s.events ≡ true) × (0 < s.next_seq)

  pub ascending-weaken :
      (m n : ℕ) (es : List (DomainEvent F))
      → m ≤ n
      → ascending_from n es ≡ true
      → ascending_from m es ≡ true
  unfolding ascending_from
  ascending-weaken m n [] le h = refl
  ascending-weaken m n (e ∷ es) le h = ground arith

  pub ascending-keep :
      (p : DomainEvent F → Bool) (n : ℕ) (es : List (DomainEvent F))
      → ascending_from n es ≡ true
      → ascending_from n (keep p es) ≡ true
  unfolding ascending_from
  ascending-keep p n [] h = refl
  ascending-keep p n (e ∷ es) h = elim (Bool-cases (p e)) [
    | inl yes_p ↦ ground (arith, ascending-keep p e.global_seq es)
    | inr no_p ↦
        ground
          (arith, ascending-keep p e.global_seq es, ascending-weaken n e.global_seq (keep p es))
  ]

  insert_by-front :
      (e : DomainEvent F) (es : List (DomainEvent F))
      → ascending_from e.global_seq es ≡ true
      → insert_by seq_of e es ≡ e ∷ es
  unfolding ascending_from insert_by
  insert_by-front e [] h = refl
  insert_by-front e (r ∷ rs) h = ground arith

  -- Rows that stand in order are returned as they stand.
  pub order_by-ascending :
      (n : ℕ) (es : List (DomainEvent F)) → ascending_from n es ≡ true → order_by seq_of es ≡ es
  unfolding order_by ascending_from
  order_by-ascending n [] h = refl
  order_by-ascending n (e ∷ es) h =
      ground (arith, order_by-ascending e.global_seq es, insert_by-front e es)

  pub ascending-append :
      (n k : ℕ) (es : List (DomainEvent F)) (e : DomainEvent F)
      → n < k
      → e.global_seq ≡ k
      → ascending_from n es ≡ true
      → all_below k es ≡ true
      → ascending_from n (es ++ e ∷ []) ≡ true
  unfolding ascending_from all_below
  ascending-append n k [] e lt same h b = ground arith
  ascending-append n k (r ∷ rs) e lt same h b = ground (arith, ascending-append r.global_seq k rs e)

  pub all_below-append :
      (k j : ℕ) (es : List (DomainEvent F)) (e : DomainEvent F)
      → k < j
      → e.global_seq ≡ k
      → all_below k es ≡ true
      → all_below j (es ++ e ∷ []) ≡ true
  unfolding all_below
  all_below-append k j [] e lt same b = ground arith
  all_below-append k j (r ∷ rs) e lt same b = ground (arith, all_below-append k j rs e)

  pub all_below-weaken :
      (k j : ℕ) (es : List (DomainEvent F)) → k ≤ j → all_below k es ≡ true → all_below j es ≡ true
  unfolding all_below
  all_below-weaken k j [] le b = refl
  all_below-weaken k j (r ∷ rs) le b = ground (arith, all_below-weaken k j rs)

  pub all_below-keep :
      (k : ℕ) (p : DomainEvent F → Bool) (es : List (DomainEvent F))
      → all_below k es ≡ true
      → all_below k (keep p es) ≡ true
  unfolding all_below
  all_below-keep k p [] b = refl
  all_below-keep k p (r ∷ rs) b = ground (arith, all_below-keep k p rs)

  -- Below the first sequence number, and above it.
  pub none_seq_to :
      (n s : ℕ) (es : List (DomainEvent F))
      → s ≤ n
      → ascending_from n es ≡ true
      → keep (seq_to s) es ≡ []
  unfolding ascending_from
  none_seq_to n s [] le h = refl
  none_seq_to n s (e ∷ es) le h = ground (arith, none_seq_to e.global_seq s es)

  pub all_seq_after :
      (n s : ℕ) (es : List (DomainEvent F))
      → s ≤ n
      → ascending_from n es ≡ true
      → keep (seq_after s) es ≡ es
  unfolding ascending_from
  all_seq_after n s [] le h = refl
  all_seq_after n s (e ∷ es) le h = ground (arith, all_seq_after e.global_seq s es)

  -- A sequence number cuts the rows in two.
  pub split_at_seq :
      (n s : ℕ) (es : List (DomainEvent F))
      → ascending_from n es ≡ true
      → keep (seq_to s) es ++ keep (seq_after s) es ≡ es
  unfolding ascending_from
  split_at_seq n s [] h = refl
  split_at_seq n s (e ∷ es) h = ground (
    arith,
    split_at_seq e.global_seq s es,
    none_seq_to e.global_seq s es,
    all_seq_after e.global_seq s es,
  )
