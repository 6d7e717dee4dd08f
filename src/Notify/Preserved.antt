-- ===== src/Notify/Preserved.antt =====
-- Every request keeps the notifier's invariant (internal/notify/notifier.go).
use tuplespace.Base.{
  ℕ, ◌+◌, ◌<◌, ◌≡◌, ◌⊎◌, inl, inr, refl, Bool, true, false, ◌&&◌, ◌||◌, not, Option, none, some,
  List, ◌∷◌, Text, text_eq, text_eq_iff, text_eq_refl, ◌==◌, ==_iff, ==_refl, arith, Bool-cases,
  Option-cases,
}
use tuplespace.Base.Maps.{get}
use tuplespace.Notify.{
  State, update, ref_count, subs, Outcome, done, failed, panic, has_id, with_set, join, subscribe,
}
use tuplespace.Notify.Invariant.{
  IsLive, Inv, subs-with_set, subs-join, ref_count-join, length-add_id, has_id-add_id,
  add_id-Distinct,
}

module _ {handles : List ℕ} (st : State) (v : Inv handles st) where
  -- Writing to a new subscription.
  fresh_state : Text → State
  fresh_state ch = record st {
    heap =
        update st.heap st.next
          (record { channel = ch; closed = false; pending = false; shut = false });
    next = st.next + 1;
  }

  next_absent : (ch : Text) → has_id st.next (subs st ch) ≡ false
  next_absent ch = elim (Bool-cases (has_id st.next (subs st ch))) [
    | inl h ↦ let lt = v.below ch st.next h in absurd (omega arith)
    | inr h ↦ h
  ]

  heap_kept : (ch : Text) (p : ℕ) → p < st.next → (fresh_state ch).heap p ≡ st.heap p
  unfolding fresh_state
  heap_kept ch p h = ground arith

  fresh-Inv : (ch : Text) → Inv handles (fresh_state ch)
  unfolding fresh_state
  fresh-Inv ch = record {
    counts = v.counts;
    distinct = v.distinct;
    live = λ j p h. rw (heap_kept ch p (v.below j p h)) (v.live j p h);
    below = λ j p h. let lt = v.below j p h in omega arith;
    held = λ p h. let (lt, open') = v.held p h in (omega arith, rw (heap_kept ch p lt) open');
  }

-- Two states that differ in their maps only, and in these not to be seen.
module _ {handles : List ℕ} (st : State) (v : Inv handles st) where
  with_set-Inv : (ch : Text) → Inv handles (with_set ch (get ch st.subscribers) st)
  with_set-Inv ch = elim (Option-cases (get ch st.subscribers)) [
    | inr (l, e) ↦ rw e v
    | inl e ↦
        let same : (j : Text) → subs (with_set ch none st) j ≡ subs st j =
          λ j. rw e at (subs-with_set ch j st) in
        rw e (record {
          counts = λ j. rw (same j) (v.counts j);
          distinct = λ j. rw (same j) (v.distinct j);
          live = λ j p h. v.live j p (rw (same j) at h);
          below = λ j p h. v.below j p (rw (same j) at h);
          held = λ p h. let (lt, o) = v.held p h in (lt, λ c. rw (same (st.heap p).channel) (o c));
        })
  ]

  module _ (ch : Text) (p : ℕ) (absent : (j : Text) → has_id p (subs st j) ≡ false)
      (alive : IsLive (st.heap p) ch) (lt : p < st.next) where
    has_id-join :
        (j : Text) (q : ℕ)
        → has_id q (subs (join ch p st) j) ≡ ((text_eq ch j && p == q) || has_id q (subs st j))
    has_id-join j q = rw (subs-join ch j p st) (elim (Bool-cases (text_eq ch j)) [
      | inl e ↦ rw e (rw (← (text_eq_iff ch j).0 e) (has_id-add_id p q (subs st ch)))
      | inr n ↦ rw n
    ])

    join-live :
        (j : Text) (q : ℕ)
        → has_id q (subs (join ch p st) j) ≡ true
        → ((ch ≡ j) × (p ≡ q)) ⊎ (has_id q (subs st j) ≡ true)
    join-live j q h = ground (arith, has_id-join j q, text_eq_iff ch j)

    held_new : has_id p (subs (join ch p st) (st.heap p).channel) ≡ true
    held_new = rw alive.channel (rw (has_id-join ch p) (rw (text_eq_refl ch) (rw (==_refl p))))

    held_old :
        (j : Text) (q : ℕ) → has_id q (subs st j) ≡ true → has_id q (subs (join ch p st) j) ≡ true
    held_old j q h = rw (has_id-join j q) (ground arith)

    join-Inv : Inv (p ∷ handles) (join ch p st)
    unfolding join has_id
    join-Inv = record {
      counts = λ j. ground (
        arith,
        ref_count-join ch j p st,
        subs-join ch j p st,
        v.counts ch,
        v.counts j,
        length-add_id p (subs st ch) (absent ch),
      );
      distinct = λ j. rw (subs-join ch j p st) (elim (Bool-cases (text_eq ch j)) [
        | inl e ↦ rw e (add_id-Distinct p (subs st ch) (v.distinct ch))
        | inr n ↦ rw n (v.distinct j)
      ]);
      live = λ j q h. elim (join-live j q h) [
        | inl (e, e') ↦ rw (← e, ← e') alive
        | inr old ↦ v.live j q old
      ];
      below = λ j q h. elim (join-live j q h) [
        | inl (e, e') ↦ rw (← e') lt
        | inr old ↦ v.below j q old
      ];
      held = λ q h. elim (Bool-cases (p == q)) [
        | inl e ↦ rw (← (==_iff p q).0 e) (lt, λ _. held_new)
        | inr n ↦
            let (lt', o) = v.held q (rw n at h) in (lt', λ c. held_old (st.heap q).channel q (o c))
      ];
    }

heap-with_set : (ch : Text) (o : Option (List ℕ)) (st : State) → (with_set ch o st).heap ≡ st.heap
heap-with_set ch none st = refl
heap-with_set ch (some l) st = refl

next-with_set : (ch : Text) (o : Option (List ℕ)) (st : State) → (with_set ch o st).next ≡ st.next
next-with_set ch none st = refl
next-with_set ch (some l) st = refl

-- What `Subscribe` may leave: with a new subscription handed out at `p`, or with none.
abbrev pub AfterSubscribe : List ℕ → ℕ → Outcome → Type 0
AfterSubscribe handles p (done st) = Inv (p ∷ handles) st
AfterSubscribe handles p (failed st e) = Inv handles st
AfterSubscribe handles p panic = ⊥

module _ {handles : List ℕ} (ch : Text) (st : State) (v : Inv handles st) where
  abbrev ready : State
  ready = with_set ch (get ch st.subscribers) (fresh_state st v ch)

  ready-Inv : Inv handles ready
  unfolding fresh_state
  ready-Inv = with_set-Inv (fresh_state st v ch) (fresh-Inv st v ch) ch

  ready_absent : (j : Text) → has_id st.next (subs ready j) ≡ false
  unfolding fresh_state
  ready_absent j = rw (subs-with_set ch j (fresh_state st v ch)) (next_absent st v j)

  ready-IsLive : IsLive (ready.heap st.next) ch
  unfolding fresh_state
  ready-IsLive =
      rw (heap-with_set ch (get ch st.subscribers) (fresh_state st v ch))
        (record { channel = ground arith; closed = ground arith; shut = ground arith })

  ready_next : st.next < ready.next
  unfolding fresh_state
  ready_next = rw (next-with_set ch (get ch st.subscribers) (fresh_state st v ch)) (omega arith)

  joined-Inv : Inv (st.next ∷ handles) (join ch st.next ready)
  joined-Inv = join-Inv ready ready-Inv ch st.next ready_absent ready-IsLive ready_next

  -- `Subscribe` keeps the invariant, also when its LISTEN fails, and never panics.
  pub subscribe-Inv : (listened : Bool) → AfterSubscribe handles st.next (subscribe ch listened st)
  unfolding subscribe fresh_state
  subscribe-Inv listened = elim (Bool-cases ((ref_count ready ch == 0) && not listened)) [
    | inl e ↦ rw e ready-Inv
    | inr e ↦ rw e joined-Inv
  ]
