-- ===== src/Ipc/FairQueue.antt =====
-- What an endpoint's queue promises: the waiting messages, oldest first, at most `capacity` of
-- them and at most one from each sender.
use gen_os.Common.{
  ℕ, ◌≡◌, Bool, true, false, ◌&&◌, not, ltb, Option, none, some, List, [], ◌∷◌, ◌++◌, ◌==◌,
  if◌then◌else◌, length, any,
}
use gen_os.Ipc.{UserChannelMessage}

abbrev pub sent_by : ℕ → UserChannelMessage → Bool
sent_by sender_pid m = m.sender_pid == sender_pid

unfoldable pub push :
    ℕ → List UserChannelMessage → UserChannelMessage → Bool × List UserChannelMessage
push capacity ms m =
    if ltb (length ms) capacity && not (any (sent_by m.sender_pid) ms)
    then (true, ms ++ (m ∷ []))
    else (false, ms)

unfoldable pub pop : List UserChannelMessage → Option UserChannelMessage × List UserChannelMessage
pop [] = (none, [])
pop (m ∷ ms) = (some m, ms)

pub data Op : Type 0 where
  send : UserChannelMessage → Op
  receive : Op

pub data Reply : Type 0 where
  accepted : Bool → Reply
  delivered : Option UserChannelMessage → Reply

unfoldable pub run : ℕ → List UserChannelMessage → List Op → List Reply
run capacity ms [] = []
run capacity ms (send m ∷ ops) =
    accepted (push capacity ms m).0 ∷ run capacity (push capacity ms m).1 ops
run capacity ms (receive ∷ ops) = delivered (pop ms).0 ∷ run capacity (pop ms).1 ops

-- No sender has two waiting messages, and the bound is kept.
abbrev pub AllFair : List UserChannelMessage → Type 0
AllFair [] = Unit {0}
AllFair (m ∷ ms) = (any (sent_by m.sender_pid) ms ≡ false) × AllFair ms
