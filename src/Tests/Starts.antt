-- ===== src/Tests/Starts.antt =====
-- A mirror that is run on the file of its first version.
use umleitung.Base.{◌≡◌, refl, true, none, some, [], ◌∷◌, arith}
use umleitung.Base.Text.{Text, codes}
use umleitung.Base.Hoare.{After}
use umleitung.State.Tables.{has_row}
use umleitung.State.Migrate.{File, FileConn}
use umleitung.State.Migrate.Schema.{rows, unversioned, Unmoved}
use umleitung.Safety.{Behind}
use umleitung.Imap.Client.{dialled}
use umleitung.Imap.Pass.{HoldsAt}
use umleitung.Session.{env}
use umleitung.Session.Start.{run_mirror, run_mirror-Behind}
use umleitung.Tests.Toy.{hex, toy}
use umleitung.Tests.ToyWire.{
  toy_wire, HoldsKey, sent_key, key_of, key_at, toy_wire-WireDestLaws, toy_wire-WireSourceLaws,
  wire_start,
}
use umleitung.Tests.ToyConfig.{mirror}

-- a label, and a message that was copied
abbrev labelled : File
labelled = record {
  user_version = 0;
  copied = some wire_start.conn.db.copied;
  meta = none;
  labels = some ((codes "one@x", codes "Work") ∷ []);
  folders = none;
  members = none;
  pending = none;
}

abbrev on_disk : FileConn
on_disk = record { file = labelled; calls = 0 }

still_there :
    (k : Text)
    → has_row k (rows labelled.copied) ≡ true
    → HoldsAt {W = toy_wire} HoldsKey k wire_start.dst
unfolding has_row dialled
still_there k e = ground arith

run_mirror-Behind_example :
    After
      (λ w d.
        Behind {E = env toy_wire toy.names hex toy.faults toy.done toy.now mirror}
          (HoldsAt {W = toy_wire} HoldsKey)
          w)
      (Unmoved labelled)
      (run_mirror toy_wire toy.names hex toy.faults toy.done toy.now mirror
        (2 ∷ [])
        1
        wire_start.src
        wire_start.dst
        on_disk)
run_mirror-Behind_example =
    run_mirror-Behind toy_wire toy.names hex toy.faults toy.done toy.now HoldsKey key_of sent_key
      toy_wire-WireDestLaws key_at toy_wire-WireSourceLaws mirror (2 ∷ []) 1 wire_start.src
      wire_start.dst on_disk (unversioned refl refl refl) still_there
