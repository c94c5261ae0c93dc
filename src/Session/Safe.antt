-- ===== src/Session/Safe.antt =====
-- The record of copied messages through the sessions of a mirror.
use umleitung.Base.{ℕ, zero, suc, Bool, Option, List, [], ◌∷◌, if◌then◌else◌}
use umleitung.Base.Text.{Text, ℤ}
use umleitung.Base.Exec.{Result, ok, err, cancelled, Exec, pure, each, ◌>>=◌}
use umleitung.Base.Keeps.{Keeps, Keeps-bind, Keeps-then, Keeps-if, Keeps-pure, Keeps-each}
use umleitung.Env.{Env, Options, World, ImapNames, on_src, on_dst}
use umleitung.Config.{Mirror}
use umleitung.Safety.{Behind}
use umleitung.Safety.History.{maybe_seed-Behind}
use umleitung.Reconcile.{run}
use umleitung.Runtime.{maybe_seed}
use umleitung.Imap.Wire.{Wire}
use umleitung.Imap.Client.{
  Client, on_conn, dial, ensure_named_folder, select_folder, resolve_special_use,
}
use umleitung.Imap.Laws.{WireDestLaws, WireSourceLaws}
use umleitung.Imap.Laws.Keep.{
  HasKey, Keeps-select_named_folder, Keeps-ensure_named_folder, Keeps-dial,
}
use umleitung.Imap.Laws.Provide.{stored_key, date_of, imap-DestLaws, imap-SourceLaws}
use umleitung.Imap.Pass.{HoldsAt, imap_env-run-Behind}
use umleitung.Session.{
  dest_folders, sent_source, seed_mode, prepare_dest, env, prepare, ctx_done, rounds, run_session,
  after_session, supervise,
}

module _ (W : Wire) (names : ImapNames) (hex : Text → Text) (faults done : ℕ → Bool) (now : ℕ → ℕ)
    (Holds : Text → W.Conn → Type 0) (key_of : W.Command → Text) (sent_key : Text → Option ℤ → Text)
    (D : WireDestLaws W hex Holds key_of sent_key) (key_at : W.Conn → ℕ → Text)
    (L : WireSourceLaws W hex key_at sent_key date_of) (m : Mirror) where
  abbrev E : Env
  E = env W names hex faults done now m

  abbrev I : World E → Type 0
  I = Behind {E = E} (HoldsAt {W = W} Holds)

  Behind-on_src : {A : Type 0} (a : Exec (Client W) A) → Keeps I (on_src {E = E} a)
  Behind-on_src a = record { at = λ w h. h }

  Behind-on_dst :
      {A : Type 0} (a : Exec (Client W) A)
      → ((k : Text) → Keeps (HasKey W hex Holds key_of sent_key D k) a)
      → Keeps I (on_dst {E = E} a)
  Behind-on_dst a keeps = record { at = λ w h k e. (keeps k).at w.dst (h k e) }

  Keeps-prepare_dest :
      (k : Text) → Keeps (HasKey W hex Holds key_of sent_key D k) (prepare_dest W m)
  unfolding prepare_dest select_folder
  Keeps-prepare_dest k =
      Keeps-then (each (dest_folders m) (ensure_named_folder W)) _
        (Keeps-each (dest_folders m) (ensure_named_folder W)
          (Keeps-ensure_named_folder W hex Holds key_of sent_key D k))
        (Keeps-bind (select_folder W) _
          (record {
            at = λ cl. (Keeps-select_named_folder W hex Holds key_of sent_key D k cl.folder).at cl;
          })
          (λ st. Keeps-pure tt))

  Behind-prepare : Keeps I (prepare W names hex faults done now m)
  unfolding prepare
  Behind-prepare =
      Keeps-then (on_src {E = E} (dial W m.source.folder)) _
        (Behind-on_src (dial W m.source.folder))
        (Keeps-bind (on_src {E = E} (resolve_special_use W)) _
          (Behind-on_src (resolve_special_use W))
          λ src.
            Keeps-bind (on_src {E = E} (sent_source W m)) _ (Behind-on_src (sent_source W m))
              λ sent.
                Keeps-then (on_dst {E = E} (dial W m.dest.folder)) _
                  (Behind-on_dst (dial W m.dest.folder)
                    (λ k. Keeps-dial W hex Holds key_of sent_key D k m.dest.folder))
                  (Keeps-then (on_dst {E = E} (prepare_dest W m)) _
                    (Behind-on_dst (prepare_dest W m) Keeps-prepare_dest) (Keeps-pure _)))

  Behind-run : (o : Options) → Keeps I (run E o)
  Behind-run o = record {
    at = imap_env-run-Behind W names hex faults done now Holds key_of sent_key D key_at L o;
  }

  Behind-ctx_done : Keeps I (ctx_done W names hex faults done now m)
  Behind-ctx_done = record { at = λ w h. h }

  Behind-unless_done :
      (a : Exec (World E) (Unit {0}))
      → Keeps I a
      → Keeps I
          (do stopped ← ctx_done W names hex faults done now m; if stopped then pure tt else a)
  Behind-unless_done a k =
      Keeps-bind (ctx_done W names hex faults done now m) _ Behind-ctx_done
        (λ stopped. Keeps-if stopped (pure tt) a (Keeps-pure tt) k)

  Behind-rounds : (n : ℕ) (o : Options) → Keeps I (rounds W names hex faults done now m n o)
  unfolding rounds
  Behind-rounds zero o = Keeps-pure tt
  Behind-rounds (suc n) o = Behind-unless_done _ (
      Keeps-then (on_src {E = E} (on_conn W.idle)) _ (Behind-on_src (on_conn W.idle))
        (Behind-unless_done _ (Keeps-then (run E o) _ (Behind-run o) (Behind-rounds n o))))

  Behind-run_session : (n : ℕ) → Keeps I (run_session W names hex faults done now m n)
  unfolding run_session
  Behind-run_session n = Keeps-bind (prepare W names hex faults done now m) _ Behind-prepare λ o.
      Keeps-then (maybe_seed E o (seed_mode m.seed)) _
        (maybe_seed-Behind E o (HoldsAt {W = W} Holds) (stored_key sent_key) key_of
          (imap-DestLaws W hex Holds key_of sent_key D names faults done now)
          (λ cl u. key_at cl.c u) (imap-SourceLaws W hex key_at sent_key L names faults done now)
          (seed_mode m.seed))
        (Keeps-then (run E o) _ (Behind-run o) (Behind-rounds n o))

  after_session-Behind :
      (rest : Exec (World E) (Unit {0})) (x : Result (Unit {0}) × World E)
      → Keeps I rest
      → I x.1
      → I (after_session W names hex faults done now m rest x).1
  after_session-Behind rest (ok u, w) k h = h
  after_session-Behind rest (err e, w) k h =
      elim e as (λ x. I (after_session W names hex faults done now m rest (err x, w)).1) [
        | cancelled ↦ h
        | _ ↦ k.at w h
      ]

  Behind-supervise : (ns : List ℕ) → Keeps I (supervise W names hex faults done now m ns)
  unfolding supervise
  Behind-supervise [] = Keeps-pure tt
  Behind-supervise (n ∷ ns) = Behind-unless_done _ (record {
    at = λ w h.
        after_session-Behind (supervise W names hex faults done now m ns)
          (run_session W names hex faults done now m n w) (Behind-supervise ns)
          ((Behind-run_session n).at w h);
  })

  -- If the wire to both servers meets `WireDestLaws` and `WireSourceLaws`, a mirror that starts with
  -- every recorded key on the destination server ends so after any number of sessions: each connects,
  -- resolves and creates its folders, seeds the record and makes any number of passes, and may fail
  -- anywhere.
  pub supervise-Behind :
      (ns : List ℕ) (w : World E) → I w → I (supervise W names hex faults done now m ns w).1
  supervise-Behind ns = (Behind-supervise ns).at
