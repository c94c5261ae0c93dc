-- ===== src/Session/Start.antt =====
-- internal/mirror/mirror.go: `Run` from the opening of the store on.
use mathlib.Core.Path.{subst}
use umleitung.Base.{ℕ, ◌≡◌, Bool, true, false, Option, List}
use umleitung.Base.Text.{Text, ℤ}
use umleitung.Base.Exec.{Result, ok, err}
use umleitung.Base.Hoare.{After}
use umleitung.State.Tables.{Db, has_row}
use umleitung.State.Store.{Conn}
use umleitung.State.Migrate.{FileConn}
use umleitung.State.Migrate.Schema.{rows, second_schema, IsEarlier, Unmoved}
use umleitung.State.Open.{tables_of, open_store, open_store_lem}
use umleitung.Env.{Env, ImapNames, Summary, World}
use umleitung.Config.{Mirror}
use umleitung.Imap.Wire.{Wire}
use umleitung.Imap.Client.{Client}
use umleitung.Imap.Laws.{WireDestLaws, WireSourceLaws}
use umleitung.Imap.Laws.Provide.{date_of}
use umleitung.Imap.Pass.{HoldsAt}
use umleitung.Safety.{Behind}
use umleitung.Session.{env, supervise}
use umleitung.Session.Safe.{supervise-Behind}

abbrev no_summary : Summary
no_summary = record {
  uid_validity_changed = false;
  candidates = 0;
  copied = 0;
  skipped_dup = 0;
  moved_to_archive = 0;
  moved_to_inbox = 0;
  moved_to_sent = 0;
  keywords_set = 0;
  keywords_updated = 0;
}

module _ (W : Wire) (names : ImapNames) (hex_sha256 : Text → Text) (faults done : ℕ → Bool)
    (now : ℕ → ℕ) (m : Mirror) where
  abbrev E : Env
  E = env W names hex_sha256 faults done now m

  abbrev pub first_world : Client W → Client W → Conn → World E
  first_world src dst conn = record {
    conn = conn;
    src = src;
    dst = dst;
    sum = no_summary;
    polls = 0;
  }

  -- what `Run` does with the answer of `state.Open`; it returns no error, however sessions end
  abbrev pub started :
      List ℕ → Client W → Client W → Result Conn × FileConn → Result (World E) × FileConn
  started ns src dst (ok conn, c) =
      (ok (supervise W names hex_sha256 faults done now m ns (first_world src dst conn)).1, c)
  started ns src dst (err e, c) = (err e, c)

  -- `Run`, with its first sessions, each with a number of rounds
  unfoldable pub run_mirror :
      List ℕ → ℕ → Client W → Client W → FileConn → Result (World E) × FileConn
  run_mirror ns next src dst c = started ns src dst (open_store faults next c)

module _ (W : Wire) (names : ImapNames) (hex : Text → Text) (faults done : ℕ → Bool) (now : ℕ → ℕ)
    (Holds : Text → W.Conn → Type 0) (key_of : W.Command → Text) (sent_key : Text → Option ℤ → Text)
    (D : WireDestLaws W hex Holds key_of sent_key) (key_at : W.Conn → ℕ → Text)
    (L : WireSourceLaws W hex key_at sent_key date_of) (m : Mirror) where
  -- If the wire to both servers meets `WireDestLaws` and `WireSourceLaws`, and the file of the state is
  -- one that an earlier version has left, with every recorded key on the destination server, then a
  -- mirror that is run, for any number of sessions, keeps every recorded key there; or it fails since
  -- its store cannot be opened, and the file is as it was or under the first schema.
  pub run_mirror-Behind :
      (ns : List ℕ) (next : ℕ) (src dst : Client W) (c : FileConn)
      → IsEarlier c.file
      → ((k : Text) → has_row k (rows c.file.copied) ≡ true → HoldsAt {W = W} Holds k dst)
      → After
          (λ w d. Behind {E = env W names hex faults done now m} (HoldsAt {W = W} Holds) w)
          (Unmoved c.file)
          (run_mirror W names hex faults done now m ns next src dst c)
  unfolding run_mirror
  run_mirror-Behind ns next src dst c earlier there =
      go (open_store faults next c) (open_store_lem faults next c earlier)
    where
      go :
          (x : Result Conn × FileConn)
          → After
              (λ conn (d : FileConn). conn.db ≡ tables_of next (second_schema c.file))
              (Unmoved c.file)
              x
          → After
              (λ w (d : FileConn).
                Behind {E = env W names hex faults done now m} (HoldsAt {W = W} Holds) w)
              (Unmoved c.file)
              (started W names hex faults done now m ns src dst x)
      go (ok conn, d) h =
          supervise-Behind W names hex faults done now Holds key_of sent_key D key_at L m ns
            (first_world W names hex faults done now m src dst conn)
            (λ k e. there k (subst (λ (b : Db). has_row k b.copied ≡ true) h e))
      go (err e, d) h = h
