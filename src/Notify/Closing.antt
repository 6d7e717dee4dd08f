-- ===== src/Notify/Closing.antt =====
-- `unsubscribe` keeps the notifier's invariant (internal/notify/notifier.go).
use tuplespace.Base.{
  ℕ, ◌-◌, ◌≡◌, inl, inr, refl, Bool, true, false, ◌&&◌, ◌||◌, not, List, Text, text_eq, text_eq_iff,
  ◌==◌, ==_iff, ==_refl, if◌then◌else◌, arith, Bool-cases,
}
use tuplespace.Notify.{
  Subscription, State, update, ref_count, subs, Outcome, done, failed, panic, has_id, leave,
  shut_channel, unsubscribe, unlisten_failed,
}
use tuplespace.Notify.Invariant.{
  Inv, subs-leave, ref_count-leave, has_id-without_id, length-without_id, without_id-Distinct,
}

-- What `Close` of a subscription may leave.
abbrev pub AfterUnsubscribe : List ℕ → Outcome → Type 0
AfterUnsubscribe handles (done st) = Inv handles st
AfterUnsubscribe handles (failed st e) = Inv handles st
AfterUnsubscribe handles panic = ⊥

module _ {handles : List ℕ} (st : State) (v : Inv handles st) (p : ℕ)
    (member : has_id p (subs st (st.heap p).channel) ≡ true) where
  abbrev ch : Text
  ch = (st.heap p).channel

  has_id-leave :
      (j : Text) (q : ℕ)
      → has_id q (subs (leave ch p st) j) ≡ (has_id q (subs st j) && not (text_eq ch j && p == q))
  has_id-leave j q = rw (subs-leave ch j p st) (elim (Bool-cases (text_eq ch j)) [
    | inl e ↦ rw e (rw (← (text_eq_iff ch j).0 e) (has_id-without_id p q (subs st ch)))
    | inr n ↦ rw n (ground arith)
  ])

  -- `p` is in no other set.
  leave-live :
      (j : Text) (q : ℕ)
      → has_id q (subs (leave ch p st) j) ≡ true
      → (has_id q (subs st j) ≡ true) × ((p == q) ≡ false)
  leave-live j q h =
      let before : has_id q (subs st j) ≡ true = ground (arith, has_id-leave j q) in
      (
        before,
        elim (Bool-cases (p == q)) [
          | inr n ↦ n
          | inl e ↦
              let here = v.live j q before in
              let same : ch ≡ j = rw ((==_iff p q).0 e) here.channel in
              absurd (ground (arith, has_id-leave j q, (text_eq_iff ch j).1 same))
        ],
      )

  heap-leave : (q : ℕ) → (p == q) ≡ false → (leave ch p st).heap q ≡ st.heap q
  unfolding leave
  heap-leave q n = rw n

  closed-leave : ((leave ch p st).heap p).closed ≡ true
  unfolding leave
  closed-leave = rw (==_refl p)

  next-leave : (leave ch p st).next ≡ st.next
  unfolding leave
  next-leave = refl

  leave_held :
      (q : ℕ)
      → has_id q handles ≡ true
      → ((leave ch p st).heap q).closed ≡ false
      → has_id q (subs (leave ch p st) ((leave ch p st).heap q).channel) ≡ true
  leave_held q h c = elim (Bool-cases (p == q)) [
    | inl e ↦
        let gone : ((leave ch p st).heap q).closed ≡ true = rw (← (==_iff p q).0 e) closed-leave in
        absurd (ground arith)
    | inr n ↦
        let before = (v.held q h).1 (rw (heap-leave q n) at c) in
        rw (heap-leave q n) (ground (arith, has_id-leave (st.heap q).channel q))
  ]

  leave-Inv : Inv handles (leave ch p st)
  leave-Inv = record {
    counts = λ j. ground (
      arith,
      ref_count-leave ch j p st,
      subs-leave ch j p st,
      v.counts ch,
      v.counts j,
      length-without_id p (subs st ch) (v.distinct ch) member,
    );
    distinct = λ j. rw (subs-leave ch j p st) (elim (Bool-cases (text_eq ch j)) [
      | inl e ↦ rw e (without_id-Distinct p (subs st ch) (v.distinct ch))
      | inr n ↦ rw n (v.distinct j)
    ]);
    live = λ j q h. let (before, n) = leave-live j q h in rw (heap-leave q n) (v.live j q before);
    below = λ j q h. unfold leave in v.below j q (leave-live j q h).0;
    held = λ q h. (rw next-leave (v.held q h).0, leave_held q h);
  }

  -- `close(sub.ch)` comes when nothing refers to the subscription any more.
  shut_leave : ((leave ch p st).heap p).shut ≡ false
  unfolding leave
  shut_leave = rw (==_refl p) (v.live ch p member).shut

  shut-Inv :
      (s : Subscription)
      → s.closed ≡ true
      → Inv handles (record (leave ch p st) { heap = update (leave ch p st).heap p s })
  shut-Inv s gone = record {
    counts = leave-Inv.counts;
    distinct = leave-Inv.distinct;
    live = λ j q h. rw (leave-live j q h).1 (leave-Inv.live j q h);
    below = leave-Inv.below;
    held = λ q h. elim (Bool-cases (p == q)) [
      | inl e ↦ rw e ((leave-Inv.held q h).0, λ c. absurd (ground arith))
      | inr n ↦ rw n (leave-Inv.held q h)
    ];
  }

  shut_channel-Inv : AfterUnsubscribe handles (shut_channel p (leave ch p st))
  unfolding shut_channel
  shut_channel-Inv = rw shut_leave (shut-Inv _ closed-leave)

  open_case :
      (unlistened : Bool)
      → AfterUnsubscribe handles (
          if (ref_count st ch - 1 == 0) && not unlistened
          then failed (leave ch p st) (unlisten_failed ch)
          else shut_channel p (leave ch p st))
  open_case unlistened = elim (Bool-cases ((ref_count st ch - 1 == 0) && not unlistened)) [
    | inl e ↦ rw e leave-Inv
    | inr e ↦ rw e shut_channel-Inv
  ]

-- Closing a subscription that was handed out, once or again, keeps the invariant, also when its
-- UNLISTEN fails, and never panics: the channel is closed at most once.
pub unsubscribe-Inv :
    {handles : List ℕ} (p : ℕ) (unlistened : Bool) (st : State)
    → Inv handles st
    → has_id p handles ≡ true
    → AfterUnsubscribe handles (unsubscribe p unlistened st)
unfolding unsubscribe
unsubscribe-Inv p unlistened st v h = elim (Bool-cases (st.closed || (st.heap p).closed)) [
  | inl e ↦ rw e v
  | inr e ↦ let member = (v.held p h).1 (ground arith) in rw e (open_case st v p member unlistened)
]
