-- ===== src/Imap/Pass.antt =====
-- A pass of the reconciler over the clients of internal/imapx.
use umleitung.Base.{ℕ, Bool, Option}
use umleitung.Base.Text.{Text, ℤ}
use umleitung.Env.{Options, World, ImapNames}
use umleitung.Reconcile.{run}
use umleitung.Safety.{Behind}
use umleitung.Safety.Pass.{run-Behind}
use umleitung.Imap.Wire.{Wire}
use umleitung.Imap.Client.{Client}
use umleitung.Imap.Link.{imap_env}
use umleitung.Imap.Laws.{WireDestLaws, WireSourceLaws}
use umleitung.Imap.Laws.Provide.{stored_key, date_of, imap-DestLaws, imap-SourceLaws}

abbrev pub HoldsAt : {W : Wire} → (Text → W.Conn → Type 0) → Text → Client W → Type 0
HoldsAt Holds k cl = Holds k cl.c

module _ (W : Wire) (names : ImapNames) (hex : Text → Text) (faults done : ℕ → Bool) (now : ℕ → ℕ)
    (Holds : Text → W.Conn → Type 0) (key_of : W.Command → Text) (sent_key : Text → Option ℤ → Text)
    (D : WireDestLaws W hex Holds key_of sent_key) (key_at : W.Conn → ℕ → Text)
    (L : WireSourceLaws W hex key_at sent_key date_of) where
  -- If the wire to both servers meets `WireDestLaws` and `WireSourceLaws`, a pass over the clients
  -- that starts with every recorded key on the destination server ends so, whether it returns or
  -- fails.
  pub imap_env-run-Behind :
      (o : Options) (w : World (imap_env W names hex faults done now))
      → Behind (HoldsAt {W = W} Holds) w
      → Behind (HoldsAt {W = W} Holds) (run (imap_env W names hex faults done now) o w).1
  imap_env-run-Behind o w h =
      run-Behind (imap_env W names hex faults done now) o (HoldsAt {W = W} Holds)
        (stored_key sent_key) key_of
        (imap-DestLaws W hex Holds key_of sent_key D names faults done now) (λ cl u. key_at cl.c u)
        (imap-SourceLaws W hex key_at sent_key L names faults done now) w h
