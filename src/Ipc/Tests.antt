-- ===== src/Ipc/Tests.antt =====
-- Runs of a message queue round the end of its array, and the theorems at those queues.
use gen_os.Common.{ℕ, ◌≡◌, refl, true, false, some, none, List, [], ◌∷◌, arith}
use gen_os.Ipc.{UserChannelMessage, ChannelQueue, any_sender, contains_sender, push, pop}
use gen_os.Ipc.FairQueue
use gen_os.Ipc.FairQueue.{Op, send, receive, accepted, delivered}
use gen_os.Ipc.Refine.{IsValid, contents, run, run_refines}
use gen_os.Ipc.Refine.Window.{window}

abbrev from : ℕ → ℕ → UserChannelMessage
from sender_pid value = record { sender_pid = sender_pid; value = value }

-- Senders 2 and 3 wait, the newer message at the start of the array.
abbrev wrapped : ChannelQueue
wrapped = record { messages = from 3 30 ∷ from 1 10 ∷ from 2 20 ∷ []; head = 2; len = 2 }

wrapped-IsValid : IsValid 3 wrapped
unfolding window
wrapped-IsValid = record {
  size = refl;
  head_in = omega arith;
  len_in = omega arith;
  fair = (refl, (refl, tt));
}

abbrev script : List Op
script =
    send (from 2 21)
    ∷ send (from 1 11)
    ∷ send (from 4 40)
    ∷ receive
    ∷ receive
    ∷ receive
    ∷ receive
    ∷ []

run-wrapped :
    run 3 wrapped script
    ≡ accepted false
      ∷ accepted true
      ∷ accepted false
      ∷ delivered (some (from 2 20))
      ∷ delivered (some (from 3 30))
      ∷ delivered (some (from 1 11))
      ∷ delivered none
      ∷ []
unfolding run push pop contains_sender any_sender
run-wrapped = refl

run_refines_example : run 3 wrapped script ≡ FairQueue.run 3 (contents 3 wrapped) script
run_refines_example = run_refines 3 script wrapped wrapped-IsValid
