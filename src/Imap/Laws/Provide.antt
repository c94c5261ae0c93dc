-- ===== src/Imap/Laws/Provide.antt =====
-- The clients provide what the reconciler relies on of its two servers.
use mathlib.Core.Path.{subst}
use umleitung.Base.{
  ℕ, ◌≡◌, refl, Bool, false, Option, none, some, List, [], ◌∷◌, All, All-map, if◌then◌else◌,
}
use umleitung.Base.Text.{Text, ℤ, ◌==◌}
use umleitung.Base.Exec.{Error, Result, ok, err, pure, continue}
use umleitung.Base.Hoare.{After}
use umleitung.Key.{MsgMeta, FullMessage, dedup_key}
use umleitung.Env.{ImapNames}
use umleitung.Imap.Wire.{Wire, FetchBuffer, uid_range}
use umleitung.Imap.Client.{Client, on_conn}
use umleitung.Imap.Fetch.{
  bodies_of, meta_of, metas_of, sorted_metas, fetch_metas, fetch_meta_range, fetch_full_stream,
}
use umleitung.Imap.Search.{search_message_ids_in}
use umleitung.Imap.Append.{is_zero, append_time, after_write, begin_append, wait_append, append_to}
use umleitung.Imap.Link.{imap_env}
use umleitung.Imap.Laws.{WireDestLaws, WireSourceLaws}
use umleitung.Imap.Laws.Keep.{
  Keeps-select_named_folder, Keeps-fetch_metas, Keeps-begin_append, Keeps-wait_append,
  Keeps-append_to, Keeps-move_message_id, Keeps-move_uids, Keeps-store_keyword,
  Keeps-store_keywords_uids,
}
use umleitung.Imap.Laws.Hold.{
  All-sort_by_uid, All-metas_of, Listed-fetch_metas, Sound-search_message_ids_in,
}
use umleitung.Imap.Laws.Rounds.{Keeps-search_message_ids_in}
use umleitung.Safety.{DestLaws, SourceLaws}

ok-injective : {A : Type 0} (a b : A) → ok a ≡ ok b → a ≡ b
ok-injective a b e = cc

After-ok :
    {S A : Type 0} (Q : A → S → Type 0) (X : S → Type 0) (x : Result A × S) (a : A)
    → x.0 ≡ ok a
    → After Q X x
    → Q a x.1
After-ok Q X (ok b, s) a e h = subst (λ c. Q c s) (ok-injective b a e) h
After-ok Q X (err f, s) a e h = let n : ⊥ = cc in elim n [ ]

-- the key of a message that an APPEND of the client has stored
abbrev pub stored_key : (Text → Option ℤ → Text) → FullMessage → Text
stored_key sent_key m = sent_key m.raw (append_time m)

-- the date of an APPEND, from what FETCH says of the message
abbrev pub date_of : ℤ → Option ℤ
date_of d = if is_zero d then none else some d

module _ (W : Wire) (hex : Text → Text) (Holds : Text → W.Conn → Type 0) (key_of : W.Command → Text)
    (sent_key : Text → Option ℤ → Text) (D : WireDestLaws W hex Holds key_of sent_key) where
  ended :
      (cmd t : W.Command) (r : Result (Unit {0})) (cl : Client W)
      → (continue r (λ u. pure cmd) cl).0 ≡ ok t
      → cmd ≡ t
  ended cmd t (ok u) cl e = ok-injective cmd t e
  ended cmd t (err f) cl e = let n : ⊥ = cc in elim n [ ]

  written :
      (cmd t : W.Command) (k : Text) (x : Result W.Command × Client W)
      → ((a : W.Command) → x.0 ≡ ok a → key_of a ≡ k)
      → (after_write W cmd x).0 ≡ ok t
      → key_of t ≡ k
  written cmd t k (ok a, cl) h e =
      subst (λ c. key_of c ≡ k) (ended a t (on_conn (W.close a) cl).0 (on_conn (W.close a) cl).1 e)
        (h a refl)
  written cmd t k (err f, cl) h e = let n : ⊥ = cc in elim n [ ]

  begun_key :
      (f : Text) (m : FullMessage) (flags : List Text) (cl : Client W) (t : W.Command)
      → (begin_append W f m flags cl).0 ≡ ok t
      → key_of t ≡ stored_key sent_key m
  unfolding begin_append
  begun_key f m flags cl t e =
      let x = W.append f _ flags (append_time m) cl.c in
      written x.0 t (stored_key sent_key m) (on_conn (W.write x.0 m.raw) (record cl { c = x.1 }))
        (D.carried f _ flags (append_time m) m.raw cl.c) e

  waited_holds :
      (t : W.Command) (cl : Client W)
      → (wait_append W t cl).0 ≡ ok tt
      → Holds (key_of t) (wait_append W t cl).1.c
  unfolding wait_append
  waited_holds t cl e = D.stored t cl.c e

  appended_from :
      (k : Text) (x : Result W.Command × Client W)
      → ((t : W.Command) → x.0 ≡ ok t → key_of t ≡ k)
      → (continue x.0 (wait_append W) x.1).0 ≡ ok tt
      → Holds k (continue x.0 (wait_append W) x.1).1.c
  appended_from k (ok t, cl) h e =
      subst (λ j. Holds j (wait_append W t cl).1.c) (h t refl) (waited_holds t cl e)
  appended_from k (err f, cl) h e = let n : ⊥ = cc in elim n [ ]

  appended_holds :
      (f : Text) (m : FullMessage) (flags : List Text) (cl : Client W)
      → (append_to W f m flags cl).0 ≡ ok tt
      → Holds (stored_key sent_key m) (append_to W f m flags cl).1.c
  unfolding append_to
  appended_holds f m flags cl e =
      appended_from (stored_key sent_key m) (begin_append W f m flags cl)
        (λ t. begun_key f m flags cl t) e

  -- If the wire meets `WireDestLaws`, the client meets what the reconciler relies on of its
  -- destination: a message with a key is one of the server behind the connection.
  pub imap-DestLaws :
      (names : ImapNames) (faults done : ℕ → Bool) (now : ℕ → ℕ)
      → DestLaws
          (imap_env W names hex faults done now)
          (λ k cl. Holds k cl.c)
          (stored_key sent_key)
          key_of
  unfolding fetch_meta_range
  imap-DestLaws names faults done now = record {
    select_keeps = λ f k. (Keeps-select_named_folder W hex Holds key_of sent_key D k f).at;
    fetch_keeps = λ a b k. (Keeps-fetch_metas W hex Holds key_of sent_key D k (uid_range a b)).at;
    search_keeps =
        λ f ids k. (Keeps-search_message_ids_in W hex Holds key_of sent_key D k f ids).at;
    append_keeps = λ f m flags k. (Keeps-append_to W hex Holds key_of sent_key D k f m flags).at;
    begin_keeps = λ f m flags k. (Keeps-begin_append W hex Holds key_of sent_key D k f m flags).at;
    wait_keeps = λ t k. (Keeps-wait_append W hex Holds key_of sent_key D k t).at;
    move_keeps = λ f g id k. (Keeps-move_message_id W hex Holds key_of sent_key D k f g id).at;
    move_uids_keeps = λ f us g k. (Keeps-move_uids W hex Holds key_of sent_key D k f us g).at;
    keyword_keeps =
        λ f id add kw k. (Keeps-store_keyword W hex Holds key_of sent_key D k f id add kw).at;
    keywords_keeps =
        λ us kws k. (Keeps-store_keywords_uids W hex Holds key_of sent_key D k us kws).at;
    begun = begun_key;
    confirmed = waited_holds;
    appended = appended_holds;
    found = λ f ids cl ks e.
        After-ok (λ (ks : List Text) (cl : Client W). All (λ k. Holds k cl.c) ks) (λ cl. Unit)
          (search_message_ids_in W f ids cl) ks e
          (Sound-search_message_ids_in W hex Holds key_of sent_key D f ids cl);
    listed = λ a b cl ms e.
        All-map ms (λ m h. h.1)
          (After-ok _ (λ cl. Unit) (fetch_metas W (uid_range a b) cl) ms e
            (Listed-fetch_metas W hex Holds key_of sent_key D (uid_range a b) cl));
  }

module _ (W : Wire) (hex : Text → Text) (key_at : W.Conn → ℕ → Text)
    (sent_key : Text → Option ℤ → Text) (L : WireSourceLaws W hex key_at sent_key date_of) where
  abbrev IsAt : Client W → MsgMeta → Type 0
  IsAt cl m = dedup_key hex m ≡ key_at cl.c m.uid

  sorted_metas-IsAt :
      (x : List FetchBuffer × Option Error) (cl : Client W) (ms : List MsgMeta)
      → All (λ b. dedup_key hex (meta_of W b) ≡ key_at cl.c b.uid) x.0
      → sorted_metas W x ≡ ok ms
      → All (IsAt cl) ms
  unfolding meta_of
  sorted_metas-IsAt (bufs, some f) cl ms h e = let n : ⊥ = cc in elim n [ ]
  sorted_metas-IsAt (bufs, none) cl ms h e =
      subst (All (IsAt cl)) (ok-injective _ _ e)
        (All-sort_by_uid (IsAt cl) (metas_of W bufs) (All-metas_of W (IsAt cl) bufs h))

  abbrev IsBodyAt : W.Conn → FetchBuffer → Type 0
  IsBodyAt c b =
      (b.section == []) ≡ false → sent_key b.section (date_of b.internal_date) ≡ key_at c b.uid

  bodies_at :
      (c : W.Conn) (bufs : List FetchBuffer)
      → All (IsBodyAt c) bufs
      → All (λ m. stored_key sent_key m ≡ key_at c m.uid) (bodies_of bufs)
  unfolding bodies_of append_time ◌==◌
  bodies_at c [] h = tt
  bodies_at c (b ∷ bufs) h = go b.section h.0 (bodies_at c bufs h.1)
    where
      go :
          (raw : Text)
          → IsBodyAt c (record b { section = raw })
          → All (λ m. stored_key sent_key m ≡ key_at c m.uid) (bodies_of bufs)
          → All
              (λ m. stored_key sent_key m ≡ key_at c m.uid)
              (bodies_of ((record b { section = raw }) ∷ bufs))
      go [] k r = r
      go (x ∷ raw) k r = (k refl, r)

  streamed_at :
      (us : List ℕ) (cl : Client W)
      → All (λ m. stored_key sent_key m ≡ key_at cl.c m.uid) (fetch_full_stream W us cl).0.0
  unfolding fetch_full_stream
  streamed_at [] cl = tt
  streamed_at (u ∷ us) cl = bodies_at cl.c _ (L.bodies (u ∷ us) cl.c)

  -- If the wire meets `WireSourceLaws`, the client meets what the reconciler relies on of its source.
  pub imap-SourceLaws :
      (names : ImapNames) (faults done : ℕ → Bool) (now : ℕ → ℕ)
      → SourceLaws
          (imap_env W names hex faults done now)
          (λ cl u. key_at cl.c u)
          (stored_key sent_key)
  unfolding fetch_meta_range fetch_metas
  imap-SourceLaws names faults done now = record {
    fetched = λ a b cl ms e.
        let x = W.fetch_headers (uid_range a b) cl.c in
        sorted_metas-IsAt x.0 (record cl { c = x.1 }) ms (L.shown (uid_range a b) cl.c) e;
    streamed = streamed_at;
  }
