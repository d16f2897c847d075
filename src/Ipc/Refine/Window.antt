-- ===== src/Ipc/Refine/Window.antt =====
-- The messages at consecutive offsets from the head, round the array.
use gen_os.Common.{
  ℕ, zero, suc, ◌+◌, ◌-◌, ◌%◌, ◌<◌, ◌≤◌, ◌≡◌, refl, ap, ◌∙◌, ap₂, sym, ◌≢◌, ◌||◌, List, [], ◌∷◌,
  ◌++◌, ◌==◌, length, any, get_or, set, dec_lt, arith, get_or-set_ne,
}
use native.Mathlib.Nat.{mod-add-mod, mod-eq_of_lt, mod-eq-sub-mod}
use gen_os.Ipc.{
  UserChannelMessage, ChannelQueue, message_at, any_sender, contains_sender, empty_message,
}
use gen_os.Ipc.FairQueue.{sent_by}

module _ (capacity : ℕ) where
  unfoldable pub window : ChannelQueue → ℕ → ℕ → List UserChannelMessage
  window q offset zero = []
  window q offset (suc n) = message_at capacity q offset ∷ window q (offset + 1) n

  -- Oldest first.
  abbrev pub contents : ChannelQueue → List UserChannelMessage
  contents q = window q 0 q.len

  length-window : (q : ChannelQueue) (offset n : ℕ) → length (window q offset n) ≡ n
  unfolding window
  length-window q offset zero = refl
  length-window q offset (suc n) = ap suc (length-window q (offset + 1) n)

  pub length-contents : (q : ChannelQueue) → length (contents q) ≡ q.len
  length-contents q = length-window q 0 q.len

  any_sender-any :
      (q : ChannelQueue) (pid offset n : ℕ)
      → any_sender capacity q pid offset n ≡ any (sent_by pid) (window q offset n)
  unfolding window any_sender
  any_sender-any q pid offset zero = refl
  any_sender-any q pid offset (suc n) =
      ap (◌||◌ ((message_at capacity q offset).sender_pid == pid))
        (any_sender-any q pid (offset + 1) n)

  pub contains_sender-any :
      (q : ChannelQueue) (pid : ℕ) → contains_sender capacity q pid ≡ any (sent_by pid) (contents q)
  unfolding contains_sender
  contains_sender-any q pid = any_sender-any q pid 0 q.len

  -- A longer window ends in one more message.
  pub window-snoc :
      (q : ChannelQueue) (offset n end : ℕ)
      → offset + n ≡ end
      → window q offset (suc n) ≡ window q offset n ++ (message_at capacity q end ∷ [])
  unfolding window
  window-snoc q offset zero end e =
      let at : offset ≡ end = omega arith in ap (λ k. message_at capacity q k ∷ []) at
  window-snoc q offset (suc n) end e =
      ap (◌∷◌ (message_at capacity q offset)) (window-snoc q (offset + 1) n end (omega arith))

  -- Fewer than `capacity` steps round the array do not lead back.
  mod-add-ne : (x d : ℕ) → 0 < d → d < capacity → x % capacity ≢ (x + d) % capacity
  mod-add-ne x d pos small e = elim (dec_lt (x % capacity + d) capacity) [
    | yes p ↦ omega (arith, mod-add-mod x capacity d, mod-eq_of_lt p)
    | no p ↦ omega (
      arith,
      mod-add-mod x capacity d,
      mod-eq-sub-mod {n = x % capacity + d} {m = capacity} (omega arith),
      mod-eq_of_lt {n = x % capacity + d - capacity} {m = capacity} (omega arith),
    )
  ]

  -- A write at offset `k` is not seen through a window that ends before `k`.
  pub window-set :
      (q : ChannelQueue) (m : UserChannelMessage) (k offset n : ℕ)
      → offset + n ≤ k
      → k < capacity
      → window
          (record q { messages = set q.messages ((q.head + k) % capacity) m; len = q.len + 1 })
          offset
          n
        ≡ window q offset n
  unfolding window
  window-set q m k offset zero h small = refl
  window-set q m k offset (suc n) h small =
      ap₂ ◌∷◌
        (get_or-set_ne q.messages ((q.head + k) % capacity) ((q.head + offset) % capacity) m
          empty_message apart)
        (window-set q m k (offset + 1) n (omega arith) small)
    where
      whole : q.head + offset + (k - offset) ≡ q.head + k
      whole = omega arith

      apart : (q.head + k) % capacity ≢ (q.head + offset) % capacity
      apart e =
          mod-add-ne (q.head + offset) (k - offset) (omega arith) (omega arith)
            (sym e ∙ sym (ap (λ (t : ℕ). t % capacity) whole))

  -- Advancing the head by one shifts the window by one.
  pub window-advance :
      (q : ChannelQueue) (left offset n : ℕ)
      → window (record q { head = (q.head + 1) % capacity; len = left }) offset n
        ≡ window q (offset + 1) n
  unfolding window
  window-advance q left offset zero = refl
  window-advance q left offset (suc n) =
      ap₂ ◌∷◌ (ap (λ k. get_or q.messages k empty_message) shift)
        (window-advance q left (offset + 1) n)
    where
      shift : ((q.head + 1) % capacity + offset) % capacity ≡ (q.head + (offset + 1)) % capacity
      shift = mod-add-mod (q.head + 1) capacity offset ∙ ap (λ (t : ℕ). t % capacity) (omega arith)
