-- ===== src/Session.antt =====
-- internal/mirror/mirror.go: the sessions of one mirror.
pub mod Choices
pub mod Safe
pub mod Start
use umleitung.Base.{ℕ, zero, suc, ◌+◌, Bool, List, [], ◌∷◌, ◌++◌, if◌then◌else◌}
use umleitung.Base.Text.{Text, codes, ◌==◌}
use umleitung.Base.Exec.{Result, ok, err, cancelled, Exec, pure, gets, each, ◌>>=◌, ◌>>◌}
use umleitung.Env.{Env, Options, World, ImapNames, on_src, on_dst}
use umleitung.Config.{Mirror}
use umleitung.Imap.Wire.{Wire}
use umleitung.Imap.Client.{
  Client, on_conn, dial, resolve_folder, resolve_special_use, ensure_named_folder, select_folder,
}
use umleitung.Imap.Link.{imap_env}
use umleitung.Windows.{new}
use umleitung.Reconcile.{run}
use umleitung.Runtime.{SeedMode, seed_empty, seed_always, seed_never, maybe_seed}

unfoldable pub dest_folders : Mirror → List Text
dest_folders m =
    (m.dest.folder ∷ [])
    ++ ((if m.archive.enabled then m.archive.folder ∷ [] else [])
        ++ (if m.sent.enabled then m.sent.folder ∷ [] else []))

-- the options, with the resolved source folder and the resolved source folder of sent mail
unfoldable pub options_of : Mirror → Text → Text → Options
options_of m src_folder sent_src_folder = record {
  uid_batch = m.uid_batch;
  dest_guard = m.dest_guard;
  carry_seen = m.carry_seen;
  sync_labels = m.labels.enabled;
  source_folder = src_folder;
  label_exclude = m.labels.exclude;
  dest_folder = m.dest.folder;
  archive_routing = m.archive.enabled;
  source_inbox = m.source.inbox;
  archive_folder = m.archive.folder;
  sent_routing = m.sent.enabled;
  sent_src_folder = sent_src_folder;
  sent_folder = m.sent.folder;
  label_propagate = m.labels.propagate;
  keyword_prefix = m.labels.keyword_prefix;
  keyword_replacement = m.labels.keyword_replacement;
}

-- the mode that `maybeSeed` acts on; any other text seeds nothing
unfoldable pub seed_mode : Text → SeedMode
seed_mode s =
    if s == codes "always"
    then seed_always
    else if s == codes "empty"
    then seed_empty
    else seed_never

module _ (W : Wire) where
  unfoldable pub sent_source : Mirror → Exec (Client W) Text
  sent_source m = if m.sent.enabled then resolve_folder W m.sent.source_folder else pure (codes "")

  -- each folder is created unless it is there; the client's own is selected
  unfoldable pub prepare_dest : Mirror → Exec (Client W) (Unit {0})
  prepare_dest m = do each (dest_folders m) (ensure_named_folder W); st ← select_folder W; pure tt

module _ (W : Wire) (names : ImapNames) (hex_sha256 : Text → Text) (faults done : ℕ → Bool)
    (now : ℕ → ℕ) (m : Mirror) where
  abbrev pub env : Env
  env = imap_env W names hex_sha256 faults done now

  -- up to the creation of the reconciler
  unfoldable pub prepare : Exec (World env) Options
  prepare = do
    on_src {E = env} (dial W m.source.folder)
    src_folder ← on_src {E = env} (resolve_special_use W)
    sent_src_folder ← on_src {E = env} (sent_source W m)
    on_dst {E = env} (dial W m.dest.folder)
    on_dst {E = env} (prepare_dest W m)
    pure (new (options_of m src_folder sent_src_folder))

  -- `ctx.Err() != nil`
  abbrev pub ctx_done : Exec (World env) Bool
  ctx_done w = (ok (done w.polls), record w { polls = w.polls + 1 })

  -- the body of the loop, with what the rest of the loop does
  abbrev pub one_round : Options → Exec (World env) (Unit {0}) → Exec (World env) (Unit {0})
  one_round o rest = do
    on_src {E = env} (on_conn W.idle)
    stopped ← ctx_done
    if stopped then pure tt else run env o >> rest

  -- the first so many rounds of the loop
  unfoldable pub rounds : ℕ → Options → Exec (World env) (Unit {0})
  rounds zero o = pure tt
  rounds (suc n) o =
      let rest = rounds n o in do stopped ← ctx_done; if stopped then pure tt else one_round o rest

  -- a session, with the first so many rounds of its loop
  unfoldable pub run_session : ℕ → Exec (World env) (Unit {0})
  run_session n = do o ← prepare; maybe_seed env o (seed_mode m.seed); run env o; rounds n o

  -- what follows a session that has ended
  abbrev pub after_session :
      Exec (World env) (Unit {0}) → Result (Unit {0}) × World env → Result (Unit {0}) × World env
  after_session rest (ok u, w) = (ok tt, w)
  after_session rest (err cancelled, w) = (ok tt, w)
  after_session rest (err e, w) = rest w

  -- The supervision loop of `Run`: its first sessions, each with a number of rounds. The delays are
  -- those of `Runtime`.
  unfoldable pub supervise : List ℕ → Exec (World env) (Unit {0})
  supervise [] = pure tt
  supervise (n ∷ ns) =
      let rest = supervise ns in
      do stopped ← ctx_done; if stopped then pure tt else λ w. after_session rest (run_session n w)
