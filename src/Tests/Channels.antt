-- ===== src/Tests/Channels.antt =====
-- A copy of one message by the two goroutines, step by step.
use umleitung.Base.{◌≡◌, refl, none, some, List, [], ◌∷◌, arith}
use umleitung.Base.Text.{codes}
use umleitung.Key.{FullMessage}
use umleitung.Mirror.Pipeline.{PendingCopy, by_uid}
use umleitung.Mirror.Channel.{
  Channel, open_channel, send, end_stream, receive, leave, Run, here, next,
}
use umleitung.Mirror.Channel.Order.{IsSequential, Run-IsSequential}
use umleitung.Safety.{Behind}
use umleitung.Safety.Interleaved.{Run-Behind}
use umleitung.Tests.Toy.{
  message_one, content, key_of, key_at, toy, options, Holds, toy-DestLaws, toy-SourceLaws, start,
  start-Behind,
}

abbrev candidate : PendingCopy
candidate = record { uid = 1; key = content message_one; dest_folder = codes "All" }

abbrev pend : List PendingCopy
pend = candidate ∷ []

abbrev messages : List FullMessage
messages = message_one ∷ []

abbrev Runs : Channel toy → Type 0
Runs = Run toy options pend (open_channel toy options pend messages none start)

found : by_uid pend 1 ≡ some candidate
unfolding by_uid
found = refl

-- the message is sent, and taken before the stream ends
abbrev halfway : (s : Channel toy) × Runs s
halfway = (
  _,
  next (next here (send message_one [] candidate refl refl found (omega arith)))
      (receive (record { full = message_one; pc = candidate }) [] refl),
)

abbrev ended : (s : Channel toy) × Runs s
ended = (_, next (next halfway.1 (end_stream refl refl)) (leave none refl refl refl))

Run-IsSequential_example : IsSequential toy options pend messages start ended.0
Run-IsSequential_example = Run-IsSequential toy options pend messages none start ended.1 refl

Run-Behind_example : Behind {E = toy} Holds halfway.0.pipe.world
Run-Behind_example =
    Run-Behind toy options Holds content key_of toy-DestLaws key_at toy-SourceLaws pend start
      (refl, tt) start-Behind none halfway.1
