-- ===== src/Im/Rendezvous/Choice.antt =====
-- The node that `Pick` of internal/im/rendezvous/rendezvous.go returns.
use fp.Common.{
  String, ℕ, true, false, List, [], ◌∷◌, none, some, ◌≡◌, refl, ap, sym, ◌∙◌, arith, ◌⊎◌, inl, inr,
  ◌↔◌, Bool-cases, subst,
}
use fp.Common.Lists.{In, All, All-In}
use fp.Common.Text.{text_ltb_irrefl, text_ltb_trans, text_ltb_total}
use fp.Im.Rendezvous.{is_better, pick_from, pick}

module _ (weight : String → String → ℕ) where
  -- No node of the list is better.
  abbrev pub IsBest : String → List String → String → Type 0
  IsBest key nodes best = All (λ n. is_better weight key n best ≡ false) nodes

  better_irrefl : (key a : String) → is_better weight key a a ≡ false
  unfolding is_better
  better_irrefl key a = ground (arith, text_ltb_irrefl a)

  better_trans :
      (key a b c : String)
      → is_better weight key a b ≡ true
      → is_better weight key b c ≡ true
      → is_better weight key a c ≡ true
  unfolding is_better
  better_trans key a b c h k = ground (arith, text_ltb_trans a b c)

  better_total :
      (key a b : String)
      → is_better weight key a b ≡ false
      → is_better weight key b a ≡ false
      → a ≡ b
  unfolding is_better
  better_total key a b h k = ground (arith, text_ltb_total a b)

  -- What the loop returns is the first candidate or a node of the list, and neither the candidate
  -- nor a node of the list is better.
  record Picked (key best : String) (ns : List String) (out : String) : Type 0 where
    result : pick_from weight key (some best) ns ≡ some out
    source : (out ≡ best) ⊎ In out ns
    first : is_better weight key best out ≡ false
    rest : IsBest key ns out

  -- A node that `best` beats or equals is not better than one that `best` does not beat.
  behind :
      (key n best out : String)
      → is_better weight key n best ≡ false
      → is_better weight key best out ≡ false
      → is_better weight key n out ≡ false
  behind key n best out h k = elim (Bool-cases (is_better weight key n out)) [
    | inr fails ↦ fails
    | inl beats ↦ elim (Bool-cases (is_better weight key out best)) [
      | inl up ↦ absurd (cc (sym h ∙ better_trans key n out best beats up))
      | inr level ↦
          absurd
            (cc (sym h ∙ ap (is_better weight key n) (better_total key best out k level) ∙ beats))
    ]
  ]

  ahead :
      (key n best out : String)
      → is_better weight key n best ≡ true
      → is_better weight key n out ≡ false
      → is_better weight key best out ≡ false
  ahead key n best out h k = elim (Bool-cases (is_better weight key best out)) [
    | inr fails ↦ fails
    | inl beats ↦ absurd (cc (sym k ∙ better_trans key n best out h beats))
  ]

  pick_from-Picked :
      (key best : String) (ns : List String) → (out : String) × Picked key best ns out
  unfolding pick_from
  pick_from-Picked key best [] =
      (best, record { result = refl; source = inl refl; first = better_irrefl key best; rest = tt })
  pick_from-Picked key best (n ∷ ns) = elim (Bool-cases (is_better weight key n best)) [
    | inl beats ↦
        let (out, p) = pick_from-Picked key n ns in
        (
          out,
          record {
            result = rw (beats, pick_from) p.result;
            source = elim p.source [ inl e ↦ inr (inl (sym e)) | inr m ↦ inr (inr m) ];
            first = ahead key n best out beats p.first;
            rest = (p.first, p.rest);
          },
        )
    | inr fails ↦
        let (out, p) = pick_from-Picked key best ns in
        (
          out,
          record {
            result = rw (fails, pick_from) p.result;
            source = elim p.source [ inl e ↦ inl e | inr m ↦ inr (inr m) ];
            first = p.first;
            rest = (behind key n best out fails p.first, p.rest);
          },
        )
  ]

  pick-IsBest :
      (key n : String) (ns : List String)
      → (out : String) × (pick weight (n ∷ ns) key ≡ some out)
        × In out (n ∷ ns)
        × IsBest key (n ∷ ns) out
  unfolding pick pick_from
  pick-IsBest key n ns =
      let (out, p) = pick_from-Picked key n ns in
      (out, p.result, elim p.source [ inl e ↦ inl (sym e) | inr m ↦ inr m ], (p.first, p.rest))

  -- Two best nodes of a list are one.
  best_is_unique :
      (key a b : String) (ns : List String)
      → In a ns
      → IsBest key ns a
      → In b ns
      → IsBest key ns b
      → a ≡ b
  best_is_unique key a b ns ma ha mb hb =
      better_total key a b (All-In _ a ns hb ma) (All-In _ b ns ha mb)

  -- `Pick` returns a node exactly if it is in the list and no node of
  -- the list has a larger weight for the key, or the same weight and an earlier name. In a list
  -- with a node it returns one, in an empty list none.
  pub pick_iff :
      (nodes : List String) (key out : String)
      → ((pick weight nodes key ≡ some out) ↔ (In out nodes × IsBest key nodes out))
        × ((pick weight nodes key ≡ none) ↔ (nodes ≡ []))
  unfolding pick pick_from
  pick_iff [] key out = ((λ e. absurd (cc e), λ h. absurd h.0), (λ _. refl, λ _. refl))
  pick_iff (n ∷ ns) key out =
      let (best, e, m, h) = pick-IsBest key n ns in
      (
        (
          λ k.
              let same : best ≡ out = cc (sym e ∙ k) in
              subst (λ x. In x (n ∷ ns) × IsBest key (n ∷ ns) x) same (m, h),
          λ k. e ∙ ap some (best_is_unique key best out (n ∷ ns) m h k.0 k.1),
        ),
        (λ k. absurd (cc (sym e ∙ k)), λ k. absurd (cc k)),
      )

  -- Callers that know the same nodes, in whatever order and however
  -- often each is listed, pick the same node.
  pub pick_order_irrelevant :
      (nodes nodes' : List String) (key out : String)
      → ((n : String) → In n nodes ↔ In n nodes')
      → pick weight nodes key ≡ some out
      → pick weight nodes' key ≡ some out
  pick_order_irrelevant nodes nodes' key out same e =
      let (m, h) = (pick_iff nodes key out).0.0 e in
      (pick_iff nodes' key out).0.1
        ((same out).0 m, tabulate nodes' (λ n k. All-In _ n nodes h ((same n).1 k)))
    where
      tabulate :
          {P : String → Type 0} (ns : List String) → ((n : String) → In n ns → P n) → All P ns
      tabulate [] f = tt
      tabulate (n ∷ ns) f = (f n (inl refl), tabulate ns (λ k m. f k (inr m)))
