-- ===== src/Connection/Outcomes.antt =====
-- A new call and a reply keep IsValid (src/jdwpy/connection.py).
use jdwpy.Prelude.{
  ==_iff, ==→eq, Bool-cases, Option-cases, ap, arith, false, if◌then◌else◌, inl, inr, none, refl,
  some, suc, sym, ℕ, ◌<◌, ◌==◌, ◌∙◌, ◌≡◌, ◌≢◌, ◌⊎◌,
}
use jdwpy.Prelude.Int.{ℤ}
use jdwpy.Struct.{ok}
use jdwpy.Dict.{insert, lookup, lookup-insert_ne, lookup-insert_self, remove, ℤ-cases}
use jdwpy.Packet.{JdwpReplyPacket}
use jdwpy.Connection.{
  JdwpPacketConnection, begin_send, is_waiting, receive_reply, resolve, result, update, waiting,
}
use jdwpy.Connection.Steps.{IsFresh, IsValid}
use jdwpy.Connection.Invariant.{Settles, Settles-IsValid, remove-IsValid}
use mathlib.Core.Path.{subst}

pub update_self {ℓ} : {A : Type ℓ} (f : ℕ → A) (k : ℕ) (a : A) (n : ℕ) → n ≡ k → update f k a n ≡ a
update_self f k a n e = rw ((==_iff n k).1 e)

pub update_other {ℓ} :
    {A : Type ℓ} (f : ℕ → A) (k : ℕ) (a : A) (n : ℕ) → n ≢ k → update f k a n ≡ f n
update_other f k a n h = elim (Bool-cases (n == k)) [
  | inl e ↦ absurd (h (==→eq n k e))
  | inr e ↦ rw e
]

-- An old future or the new one.
pub below-suc : (n k : ℕ) → n < suc k → (n ≡ k) ⊎ ((n < k) × (n ≢ k))
below-suc n k h = elim (Bool-cases (n == k)) [
  | inl e ↦ inl (==→eq n k e)
  | inr e ↦ inr (ground arith, λ q. ground arith)
]

module _ (c : JdwpPacketConnection) where
  -- The state that `begin_send` makes.
  unfoldable pub started : ℤ → JdwpPacketConnection
  started id = record c {
    pending_replies = insert id c.next_future c.pending_replies;
    next_future = suc c.next_future;
    outcome = update c.outcome c.next_future waiting;
    request_id = update c.request_id c.next_future id;
    finished = update c.finished c.next_future false;
  }

  -- What a successful `begin_send` makes.
  pub begin_send-started :
      (id : ℤ) (c' : JdwpPacketConnection) → begin_send id c ≡ ok c' → started id ≡ c'
  unfolding begin_send started
  begin_send-started id c' h = ground arith

module _ (c : JdwpPacketConnection) (v : IsValid c) where
  answer-Settles :
      (n : ℕ) (packet : JdwpReplyPacket)
      → packet.id ≡ c.request_id n
      → Settles c
          (if is_waiting (c.outcome n) then update c.outcome n (result packet) else c.outcome)
  answer-Settles n packet e = record {
    still = λ m w. ground arith;
    answers = λ m other h o. ground (arith, v.matched m other h);
  }

  receive_reply_some :
      (packet : JdwpReplyPacket) (n : ℕ)
      → lookup packet.id c.pending_replies ≡ some n
      → IsValid (
          resolve
            (some n)
            packet
            (record c { pending_replies = remove packet.id c.pending_replies }))
  unfolding resolve
  receive_reply_some packet n found =
      let (old, same, running) = v.known packet.id n found in
      remove-IsValid _ (Settles-IsValid c v _ (answer-Settles n packet (sym same))) packet.id
        λ m h f w e.
          let here : m ≡ n = v.distinct m n h old f running (sym e ∙ sym same) in ground arith

  receive_reply_none :
      (packet : JdwpReplyPacket)
      → lookup packet.id c.pending_replies ≡ none
      → IsValid
          (resolve none packet (record c { pending_replies = remove packet.id c.pending_replies }))
  unfolding resolve
  receive_reply_none packet missing =
      remove-IsValid c v packet.id λ m h f w e. cc (missing, e, v.registered m h f w)

  pub receive_reply-IsValid : (packet : JdwpReplyPacket) → IsValid (receive_reply packet c)
  unfolding receive_reply
  receive_reply-IsValid packet = elim (Option-cases (lookup packet.id c.pending_replies)) [
    | inl e ↦ rw e (receive_reply_none packet e)
    | inr (n, e) ↦ rw e (receive_reply_some packet n e)
  ]

  started-registered :
      (id : ℤ) (n : ℕ)
      → IsFresh id c
      → n < suc c.next_future
      → (started c id).finished n ≡ false
      → (started c id).outcome n ≡ waiting
      → lookup ((started c id).request_id n) (started c id).pending_replies ≡ some n
  unfolding started
  started-registered id n fresh h f w = elim (below-suc n c.next_future h) [
    | inl e ↦
        ap (λ k. lookup k (insert id c.next_future c.pending_replies))
          (update_self c.request_id c.next_future id n e)
        ∙ lookup-insert_self id id c.next_future c.pending_replies refl
        ∙ ap some (sym e)
    | inr (old, ne) ↦
        let f' = sym (update_other c.finished c.next_future false n ne) ∙ f in
        let w' = sym (update_other c.outcome c.next_future waiting n ne) ∙ w in
        ap (λ k. lookup k (insert id c.next_future c.pending_replies))
          (update_other c.request_id c.next_future id n ne)
        ∙ lookup-insert_ne id (c.request_id n) c.next_future c.pending_replies
            (λ e. fresh n old f' (sym e))
        ∙ v.registered n old f' w'
  ]

  started-known :
      (id j : ℤ) (n : ℕ)
      → lookup j (started c id).pending_replies ≡ some n
      → (n < suc c.next_future)
        × ((started c id).request_id n ≡ j)
        × ((started c id).finished n ≡ false)
  unfolding started
  started-known id j n h = elim (ℤ-cases id j) [
    | inl e ↦
        let here : c.next_future ≡ n =
          cc (h, lookup-insert_self id j c.next_future c.pending_replies e) in
        (
          omega arith,
          update_self c.request_id c.next_future id n (sym here) ∙ e,
          update_self c.finished c.next_future false n (sym here),
        )
    | inr ne ↦
        let (old, same, f) =
          v.known j n (sym (lookup-insert_ne id j c.next_future c.pending_replies ne) ∙ h) in
        let other : n ≢ c.next_future = omega arith in
        (
          omega arith,
          update_other c.request_id c.next_future id n other ∙ same,
          update_other c.finished c.next_future false n other ∙ f,
        )
  ]

  started-distinct :
      (id : ℤ) (m n : ℕ)
      → IsFresh id c
      → m < suc c.next_future
      → n < suc c.next_future
      → (started c id).finished m ≡ false
      → (started c id).finished n ≡ false
      → (started c id).request_id m ≡ (started c id).request_id n
      → m ≡ n
  unfolding started
  started-distinct id m n fresh hm hn fm fn e = elim (below-suc m c.next_future hm) [
    | inl em ↦ elim (below-suc n c.next_future hn) [
      | inl en ↦ em ∙ sym en
      | inr (old, ne) ↦ absurd (
          fresh n old (was n ne fn)
            (sym (id_at n ne) ∙ sym e ∙ update_self c.request_id c.next_future id m em))
    ]
    | inr (old, ne) ↦ elim (below-suc n c.next_future hn) [
      | inl en ↦ absurd (
          fresh m old (was m ne fm)
            (sym (id_at m ne) ∙ e ∙ update_self c.request_id c.next_future id n en))
      | inr (old', ne') ↦
          v.distinct m n old old' (was m ne fm) (was n ne' fn) (sym (id_at m ne) ∙ e ∙ id_at n ne')
    ]
  ]
    where
      was :
          (k : ℕ)
          → k ≢ c.next_future
          → update c.finished c.next_future false k ≡ false
          → c.finished k ≡ false
      was k h q = sym (update_other c.finished c.next_future false k h) ∙ q

      id_at : (k : ℕ) → k ≢ c.next_future → update c.request_id c.next_future id k ≡ c.request_id k
      id_at k h = update_other c.request_id c.next_future id k h

  started-matched :
      (id : ℤ) (n : ℕ) (packet : JdwpReplyPacket)
      → n < suc c.next_future
      → (started c id).outcome n ≡ result packet
      → packet.id ≡ (started c id).request_id n
  unfolding started
  started-matched id n packet h o = elim (below-suc n c.next_future h) [
    | inl e ↦ absurd (cc (o, update_self c.outcome c.next_future waiting n e))
    | inr (old, ne) ↦
        v.matched n packet old (sym (update_other c.outcome c.next_future waiting n ne) ∙ o)
        ∙ sym (update_other c.request_id c.next_future id n ne)
  ]

  started-IsValid : (id : ℤ) → IsFresh id c → IsValid (started c id)
  unfolding started
  started-IsValid id fresh = record {
    registered = λ n. started-registered id n fresh;
    known = started-known id;
    distinct = λ m n. started-distinct id m n fresh;
    matched = started-matched id;
  }

  pub begin_send-IsValid :
      (id : ℤ) (c' : JdwpPacketConnection) → IsFresh id c → begin_send id c ≡ ok c' → IsValid c'
  begin_send-IsValid id c' fresh h =
      subst IsValid (begin_send-started c id c' h) (started-IsValid id fresh)
