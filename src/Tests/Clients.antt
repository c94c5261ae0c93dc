-- ===== src/Tests/Clients.antt =====
-- The properties of the clients and of a session over them, applied.
use umleitung.Base.{◌≡◌, ◌<◌, Bool, ◌&&◌, ◌||◌, List, [], ◌∷◌, arith, length}
use umleitung.Base.Text.{Text, codes, ◌==◌}
use umleitung.State.Tables.{has_row}
use umleitung.Safety.{Behind, DestLaws}
use umleitung.Imap.Client.{dialled}
use umleitung.Imap.Criteria.{or_message_id_criteria}
use umleitung.Imap.Criteria.Laws.{matches, any, matches-or_message_id_criteria}
use umleitung.Imap.Pass.{HoldsAt}
use umleitung.Imap.Laws.Provide.{stored_key, imap-DestLaws}
use umleitung.Session.{supervise}
use umleitung.Session.Safe.{supervise-Behind}
use umleitung.Tests.Toy.{hex, toy}
use umleitung.Tests.ToyWire.{
  toy_wire, HoldsKey, sent_key, key_of, key_at, toy_wire-WireDestLaws, toy_wire-WireSourceLaws,
  wire_env, wire_start,
}
use umleitung.Tests.ToyConfig.{mirror}

wire_start-Behind : Behind (HoldsAt {W = toy_wire} HoldsKey) wire_start
unfolding has_row dialled
wire_start-Behind k e = ground arith

supervise-Behind_example :
    Behind
      (HoldsAt {W = toy_wire} HoldsKey)
      (supervise toy_wire toy.names hex toy.faults toy.done toy.now mirror
        (3 ∷ 1 ∷ [])
        wire_start).1
supervise-Behind_example =
    supervise-Behind toy_wire toy.names hex toy.faults toy.done toy.now HoldsKey key_of sent_key
      toy_wire-WireDestLaws key_at toy_wire-WireSourceLaws mirror (3 ∷ 1 ∷ []) wire_start
      wire_start-Behind

imap-DestLaws_example :
    DestLaws wire_env (HoldsAt {W = toy_wire} HoldsKey) (stored_key sent_key) key_of
imap-DestLaws_example =
    imap-DestLaws toy_wire hex HoldsKey key_of sent_key toy_wire-WireDestLaws toy.names toy.faults
      toy.done toy.now

abbrev ids : List Text
ids = codes "a@x" ∷ codes "b@x" ∷ codes "c@x" ∷ []

ids-length : 0 < length ids
ids-length = omega arith

-- a message with the Message-ID b@x and the subject a@x
abbrev field_b : Text → Text → Bool
field_b key value =
    (key == codes "Message-Id" && value == codes "b@x")
    || (key == codes "Subject" && value == codes "a@x")

matches-or_message_id_criteria_example :
    matches field_b (or_message_id_criteria ids) ≡ any (field_b (codes "Message-Id")) ids
matches-or_message_id_criteria_example = matches-or_message_id_criteria field_b ids ids-length
