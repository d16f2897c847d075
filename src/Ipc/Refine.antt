-- ===== src/Ipc/Refine.antt =====
-- A valid queue behaves as the fair queue of its contents.
pub mod Window
use Window.{
  window, contents, length-contents, contains_sender-any, window-snoc, window-set, window-advance,
}
use gen_os.Common.{
  ℕ, zero, suc, ◌+◌, ◌-◌, ◌%◌, ◌<◌, ◌≤◌, max, ◌≡◌, refl, ap, ◌∙◌, ap₂, sym, ◌≢◌, subst, Bool, true,
  false, ◌||◌, ◌&&◌, not, ltb, Option, none, some, List, [], ◌∷◌, ◌++◌, ◌==◌, if◌then◌else◌, length,
  any, get_or, set, Bool-cases, inl, inr, ◌⊎◌, arith, any-append, length-append, length-set,
  get_or-set_self, get_or-set_ne, length-replicate,
}
use native.Mathlib.Nat.{mod-add-mod, mod-eq_of_lt, mod-eq-sub-mod}
use gen_os.Ipc.{
  UserChannelMessage, ChannelQueue, message_at, any_sender, contains_sender, push, pop, new,
  empty_message,
}
use gen_os.Ipc.FairQueue
use gen_os.Ipc.FairQueue.{Op, Reply, send, receive, accepted, delivered, sent_by, AllFair}
pub use Window.{contents}

pub record IsValid (capacity : ℕ) (q : ChannelQueue) : Type 0 where
  pub size : length q.messages ≡ capacity
  pub head_in : q.head < max capacity 1
  pub len_in : q.len ≤ capacity
  pub fair : AllFair (contents capacity q)

pub new-IsValid : (capacity : ℕ) → IsValid capacity (new capacity)
unfolding new window
new-IsValid capacity = record {
  size = length-replicate capacity empty_message;
  head_in = omega arith;
  len_in = omega arith;
  fair = tt;
}

AllFair-snoc :
    (ms : List UserChannelMessage) (m : UserChannelMessage)
    → any (sent_by m.sender_pid) ms ≡ false
    → AllFair ms
    → AllFair (ms ++ (m ∷ []))
AllFair-snoc [] m h f = (refl, tt)
AllFair-snoc (x ∷ ms) m h f = (
  ground (arith, any-append (sent_by x.sender_pid) ms (m ∷ []), f.0),
  AllFair-snoc ms m (ground arith) f.1,
)

module _ (capacity : ℕ) (q : ChannelQueue) (m : UserChannelMessage) (v : IsValid capacity q) where
  -- The queue after an accepted message.
  abbrev pushed : ChannelQueue
  pushed = record q { messages = set q.messages ((q.head + q.len) % capacity) m; len = q.len + 1 }

  contents-pushed : q.len < capacity → contents capacity pushed ≡ contents capacity q ++ (m ∷ [])
  contents-pushed h =
      let grow : q.len + 1 ≡ suc q.len = omega arith in
      ap (window capacity pushed 0) grow
      ∙ window-snoc capacity pushed 0 q.len q.len (omega arith)
      ∙ ap₂ (λ xs x. xs ++ (x ∷ [])) (window-set capacity q m q.len 0 q.len (omega arith) h)
          (get_or-set_self q.messages ((q.head + q.len) % capacity) m empty_message
            (omega (arith, v.size)))

  abbrev Pushes : Type 0
  Pushes =
      ((push capacity q m).0 ≡ (FairQueue.push capacity (contents capacity q) m).0)
      × (contents capacity (push capacity q m).1
          ≡ (FairQueue.push capacity (contents capacity q) m).1)
      × IsValid capacity (push capacity q m).1

  push_cases :
      ((capacity == 0 || (q.len == capacity || contains_sender capacity q m.sender_pid)) ≡ true)
        ⊎ ((capacity == 0 || (q.len == capacity || contains_sender capacity q m.sender_pid))
            ≡ false)
      → Pushes
  unfolding push FairQueue.push
  push_cases (inl h) =
      let refused : (ltb (length (contents capacity q)) capacity
            && not (any (sent_by m.sender_pid) (contents capacity q)))
          ≡ false =
        ground (
          arith,
          contains_sender-any capacity q m.sender_pid,
          length-contents capacity q,
          v.len_in,
        ) in
      rw (h, refused, push) (refl, refl, v)
  push_cases (inr h) =
      let admitted : (ltb (length (contents capacity q)) capacity
            && not (any (sent_by m.sender_pid) (contents capacity q)))
          ≡ true =
        ground (
          arith,
          contains_sender-any capacity q m.sender_pid,
          length-contents capacity q,
          v.len_in,
        ) in
      let room : q.len < capacity = ground (arith, v.len_in) in
      let single : any (sent_by m.sender_pid) (contents capacity q) ≡ false =
        ground (arith, contains_sender-any capacity q m.sender_pid) in
      rw (h, admitted, push)
        (
          refl,
          contents-pushed room,
          record {
            size = length-set q.messages ((q.head + q.len) % capacity) m ∙ v.size;
            head_in = v.head_in;
            len_in = omega arith;
            fair =
                subst AllFair (sym (contents-pushed room))
                  (AllFair-snoc (contents capacity q) m single v.fair);
          },
        )

  -- `push` answers as the fair queue does, and leaves the queue holding what that holds.
  push_refines : Pushes
  push_refines = push_cases (Bool-cases _)

module _ (capacity : ℕ) (q : ChannelQueue) (v : IsValid capacity q) where
  abbrev popped : ChannelQueue
  popped = record q { head = (q.head + 1) % capacity; len = q.len - 1 }

  contents-cons :
      q.len ≢ 0
      → contents capacity q ≡ get_or q.messages q.head empty_message ∷ contents capacity popped
  unfolding window
  contents-cons h =
      let shrink : q.len ≡ suc (q.len - 1) = omega arith in
      let at : (q.head + 0) % capacity ≡ q.head =
        mod-eq_of_lt {n = q.head + 0} {m = capacity} (omega (arith, v.head_in, v.len_in))
        ∙ omega arith in
      ap (window capacity q 0) shrink
      ∙ ap₂ ◌∷◌ (ap (λ k. get_or q.messages k empty_message) at)
          (sym (window-advance capacity q (q.len - 1) 0 (q.len - 1)))

  abbrev Pops : Type 0
  Pops =
      ((pop capacity q).0 ≡ (FairQueue.pop (contents capacity q)).0)
      × (contents capacity (pop capacity q).1 ≡ (FairQueue.pop (contents capacity q)).1)
      × IsValid capacity (pop capacity q).1

  pop_cases : ((q.len == 0) ≡ true) ⊎ ((q.len == 0) ≡ false) → Pops
  unfolding pop FairQueue.pop window
  pop_cases (inl h) =
      let none_left : q.len ≡ 0 = ground arith in
      let gone : contents capacity q ≡ [] = ap (window capacity q 0) none_left in
      rw (h, pop) (rw (gone, FairQueue.pop), rw gone, v)
  pop_cases (inr h) =
      let some_left : q.len ≢ 0 = ground arith in
      let split = contents-cons some_left in
      rw (h, pop)
        (
          ap (λ ms. (FairQueue.pop ms).0) (sym split),
          ap (λ ms. (FairQueue.pop ms).1) (sym split),
          record {
            size = v.size;
            head_in = omega (arith, v.len_in);
            len_in = omega (arith, v.len_in);
            fair = (subst AllFair split v.fair).1;
          },
        )

  -- `pop` delivers the oldest message, as the fair queue does.
  pop_refines : Pops
  pop_refines = pop_cases (Bool-cases (q.len == 0))

-- What a client sees of a sequence of calls.
unfoldable pub run : ℕ → ChannelQueue → List Op → List Reply
run capacity q [] = []
run capacity q (send m ∷ ops) =
    accepted (push capacity q m).0 ∷ run capacity (push capacity q m).1 ops
run capacity q (receive ∷ ops) = delivered (pop capacity q).0 ∷ run capacity (pop capacity q).1 ops

-- No sequence of calls tells a valid queue from the fair queue of its contents.
pub run_refines :
    (capacity : ℕ) (ops : List Op) (q : ChannelQueue)
    → IsValid capacity q
    → run capacity q ops ≡ FairQueue.run capacity (contents capacity q) ops
unfolding run FairQueue.run
run_refines capacity [] q v = refl
run_refines capacity (send m ∷ ops) q v =
    let r = push_refines capacity q m v in
    ap₂ (λ b rest. accepted b ∷ rest) r.0
      (run_refines capacity ops (push capacity q m).1 r.2
        ∙ ap (λ ms. FairQueue.run capacity ms ops) r.1)
run_refines capacity (receive ∷ ops) q v =
    let r = pop_refines capacity q v in
    ap₂ (λ o rest. delivered o ∷ rest) r.0
      (run_refines capacity ops (pop capacity q).1 r.2
        ∙ ap (λ ms. FairQueue.run capacity ms ops) r.1)

-- The queue after a sequence of calls.
pub after : ℕ → ChannelQueue → List Op → ChannelQueue
after capacity q [] = q
after capacity q (send m ∷ ops) = after capacity (push capacity q m).1 ops
after capacity q (receive ∷ ops) = after capacity (pop capacity q).1 ops

-- Every sequence of calls keeps the array's size, the head and the length within it, and at most
-- one waiting message from each sender.
pub after-IsValid :
    (capacity : ℕ) (ops : List Op) (q : ChannelQueue)
    → IsValid capacity q
    → IsValid capacity (after capacity q ops)
unfolding after
after-IsValid capacity [] q v = v
after-IsValid capacity (send m ∷ ops) q v =
    after-IsValid capacity ops (push capacity q m).1 (push_refines capacity q m v).2
after-IsValid capacity (receive ∷ ops) q v =
    after-IsValid capacity ops (pop capacity q).1 (pop_refines capacity q v).2
