-- ===== src/Notify/Delivery.antt =====
-- `deliverNotification` (internal/notify/notifier.go) wakes every subscription of the channel.
use tuplespace.Base.{
  ℕ, ◌≡◌, refl, ◌∙◌, true, false, some, List, [], ◌∷◌, Text, if◌then◌else◌, arith,
}
use tuplespace.Notify.{
  Subscription, State, update, subs, done, has_id, deliver_to, deliver_all, deliver_notification,
}
use tuplespace.Notify.Invariant.{Inv}

abbrev pub Heap : Type 0
Heap = ℕ → Subscription

abbrev pub woken : List ℕ → Heap → Heap
woken l h q = if has_id q l then record (h q) { pending = true } else h q

deliver_to_open :
    (p : ℕ) (h : Heap)
    → (h p).shut ≡ false
    → deliver_to p h ≡ some (update h p (record (h p) { pending = true }))
unfolding deliver_to
deliver_to_open p h e = ground arith

deliver_all-cons :
    (p : ℕ) (ps : List ℕ) (h k : Heap)
    → deliver_to p h ≡ some k
    → deliver_all (p ∷ ps) h ≡ deliver_all ps k
unfolding deliver_all
deliver_all-cons p ps h k e = rw (e, deliver_all)

deliver_all_lem :
    (l : List ℕ) (h : Heap)
    → ((q : ℕ) → has_id q l ≡ true → (h q).shut ≡ false)
    → (h' : Heap) × (deliver_all l h ≡ some h') × ((q : ℕ) → h' q ≡ woken l h q)
unfolding has_id
deliver_all_lem [] h live = (h, unfold deliver_all in refl, λ q. refl)
deliver_all_lem (p ∷ ps) h live =
    let open' : (h p).shut ≡ false = live p (ground arith) in
    let next : Heap = update h p (record (h p) { pending = true }) in
    let (h', found, all) = deliver_all_lem ps next (λ q m. ground (arith, live q, live p)) in
    (
      h',
      deliver_all-cons p ps h next (deliver_to_open p h open') ∙ found,
      λ q. all q ∙ ground arith,
    )

-- Delivery never panics: it fills the buffer of each subscription of the channel, whether it was full
-- or not, and leaves the other subscriptions and the maps as they are.
pub deliver_notification_lem :
    {handles : List ℕ} (ch : Text) (st : State)
    → Inv handles st
    → (h' : Heap) × (deliver_notification ch st ≡ done (record st { heap = h' }))
      × ((q : ℕ) → h' q ≡ woken (subs st ch) st.heap q)
unfolding deliver_notification
deliver_notification_lem ch st v =
    let (h', found, all) = deliver_all_lem (subs st ch) st.heap (λ q m. (v.live ch q m).shut) in
    (h', rw found, all)

-- So it keeps the invariant.
pub deliver-Inv :
    {handles : List ℕ} (ch : Text) (st : State) (h' : Heap)
    → Inv handles st
    → ((q : ℕ) → h' q ≡ woken (subs st ch) st.heap q)
    → Inv handles (record st { heap = h' })
deliver-Inv ch st h' v all = record {
  counts = v.counts;
  distinct = v.distinct;
  live = λ j q m.
      let old = v.live j q m in
      record {
        channel = ground (arith, all q, old.channel);
        closed = ground (arith, all q, old.closed);
        shut = ground (arith, all q, old.shut);
      };
  below = v.below;
  held = λ q m.
      let (lt, o) = v.held q m in
      let same : (h' q).channel ≡ (st.heap q).channel = ground (arith, all q) in
      let same' : (h' q).closed ≡ (st.heap q).closed = ground (arith, all q) in
      (lt, λ c. rw same (o (rw same' at c)));
}
