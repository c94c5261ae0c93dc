-- ===== src/Imap/Laws/Keep.antt =====
-- The client's calls keep the messages of the server.
use umleitung.Base.{ℕ, Bool, true, false, Option, List, [], ◌∷◌, length}
use umleitung.Base.Text.{Text, ℤ, ◌==◌}
use umleitung.Base.Exec.{Error, Result, ok, err, Exec, pure, gets, ◌>>=◌}
use umleitung.Base.Keeps.{Keeps, Keeps-bind, Keeps-then, Keeps-if, Keeps-pure, Keeps-gets}
use umleitung.Key.{FullMessage}
use umleitung.Env.{FolderStatus}
use umleitung.Imap.Wire.{Wire, SelectData, UidSet, Criteria, header}
use umleitung.Imap.Criteria.{message_id_key}
use umleitung.Imap.Client.{
  dialled, dial, after_connect, Client, on_conn, after_select, select_named_folder, ensure_selected,
  existing, after_create, ensure_named_folder,
}
use umleitung.Imap.Fetch.{fetch_metas}
use umleitung.Imap.Append.{after_write, begin_append, wait_append, append_to, append_time}
use umleitung.Imap.Actions.{
  search_message_id, move_hits, move_message_id, move_uids, store_flags, store_hits,
  store_keyword_by_message_id, store_keywords_uids,
}
use umleitung.Imap.Laws.{WireDestLaws}

module _ (W : Wire) (hex : Text → Text) (Holds : Text → W.Conn → Type 0) (key_of : W.Command → Text)
    (sent_key : Text → Option ℤ → Text) (D : WireDestLaws W hex Holds key_of sent_key)
    (k : Text) where
  abbrev pub HasKey : Client W → Type 0
  HasKey cl = Holds k cl.c

  Keeps-on_conn :
      {A : Type 0} (m : Exec W.Conn A)
      → ((c : W.Conn) → Holds k c → Holds k (m c).1)
      → Keeps HasKey (on_conn m)
  Keeps-on_conn m h = record { at = λ cl. h cl.c }

  HasKey-after_select :
      (f : Text) (x : Result SelectData × Client W) → HasKey x.1 → HasKey (after_select W f x).1
  HasKey-after_select f (ok d, cl) h = h
  HasKey-after_select f (err e, cl) h = h

  pub Keeps-select_named_folder : (f : Text) → Keeps HasKey (select_named_folder W f)
  unfolding select_named_folder
  Keeps-select_named_folder f = record {
    at = λ cl h. HasKey-after_select f (on_conn (W.select f) cl) (D.select_keeps f k cl.c h);
  }

  HasKey-after_connect :
      (f : Text) (x : Result (Unit {0}) × Client W) → HasKey x.1 → HasKey (after_connect W f x).1
  unfolding dialled
  HasKey-after_connect f (ok u, cl) h = h
  HasKey-after_connect f (err e, cl) h = h

  pub Keeps-dial : (f : Text) → Keeps HasKey (dial W f)
  unfolding dial
  Keeps-dial f = record {
    at = λ cl h. HasKey-after_connect f (on_conn W.connect cl) (D.connect_keeps k cl.c h);
  }

  HasKey-existing :
      (e : Error) (x : Result FolderStatus × Client W) → HasKey x.1 → HasKey (existing W e x).1
  HasKey-existing e (ok st, cl) h = h
  HasKey-existing e (err f, cl) h = h

  HasKey-after_create :
      (f : Text) (x : Result (Unit {0}) × Client W) → HasKey x.1 → HasKey (after_create W f x).1
  HasKey-after_create f (ok u, cl) h = h
  HasKey-after_create f (err e, cl) h =
      HasKey-existing e (select_named_folder W f cl) ((Keeps-select_named_folder f).at cl h)

  pub Keeps-ensure_named_folder : (f : Text) → Keeps HasKey (ensure_named_folder W f)
  unfolding ensure_named_folder
  Keeps-ensure_named_folder f = record {
    at = λ cl h. HasKey-after_create f (on_conn (W.create f) cl) (D.create_keeps f k cl.c h);
  }

  pub Keeps-ensure_selected : (f : Text) → Keeps HasKey (ensure_selected W f)
  unfolding ensure_selected
  Keeps-ensure_selected f =
      Keeps-bind (gets (λ (cl : Client W). cl.selected)) _
        (Keeps-gets (λ (cl : Client W). cl.selected))
        (λ now.
          Keeps-if (now == f) (pure tt) (do st ← select_named_folder W f; pure tt) (Keeps-pure tt)
            (Keeps-bind (select_named_folder W f) _ (Keeps-select_named_folder f)
              (λ st. Keeps-pure tt)))

  pub Keeps-fetch_metas : (us : UidSet) → Keeps HasKey (fetch_metas W us)
  unfolding fetch_metas
  Keeps-fetch_metas us = record { at = λ cl. D.headers_keeps us k cl.c }

  pub Keeps-uid_search : (q : Criteria) → Keeps HasKey (on_conn (W.uid_search q))
  Keeps-uid_search q = Keeps-on_conn (W.uid_search q) (D.search_keeps q k)

  Keeps-close : (a : W.Command) → Keeps HasKey (on_conn (W.close a))
  Keeps-close a = Keeps-on_conn (W.close a) (D.close_keeps a k)

  HasKey-after_write :
      (a : W.Command) (x : Result W.Command × Client W) → HasKey x.1 → HasKey (after_write W a x).1
  HasKey-after_write a (ok b, cl) h =
      (Keeps-then (on_conn (W.close b)) (pure b) (Keeps-close b) (Keeps-pure b)).at cl h
  HasKey-after_write a (err e, cl) h = (Keeps-close a).at cl h

  pub Keeps-begin_append :
      (f : Text) (m : FullMessage) (flags : List Text) → Keeps HasKey (begin_append W f m flags)
  unfolding begin_append
  Keeps-begin_append f m flags = record {
    at = λ cl h.
        let x = W.append f (length m.raw) flags (append_time m) cl.c in
        HasKey-after_write x.0 (on_conn (W.write x.0 m.raw) (record cl { c = x.1 })) (
          D.write_keeps x.0 m.raw k x.1
            (D.append_keeps f (length m.raw) flags (append_time m) k cl.c h));
  }

  pub Keeps-wait_append : (a : W.Command) → Keeps HasKey (wait_append W a)
  unfolding wait_append
  Keeps-wait_append a = Keeps-on_conn (W.wait a) (D.wait_keeps a k)

  pub Keeps-append_to :
      (f : Text) (m : FullMessage) (flags : List Text) → Keeps HasKey (append_to W f m flags)
  unfolding append_to
  Keeps-append_to f m flags =
      Keeps-bind (begin_append W f m flags) _ (Keeps-begin_append f m flags) Keeps-wait_append

  Keeps-move : (us : List ℕ) (f : Text) → Keeps HasKey (on_conn (W.move us f))
  Keeps-move us f = Keeps-on_conn (W.move us f) (D.move_keeps us f k)

  Keeps-search_message_id : (f id : Text) → Keeps HasKey (search_message_id W f id)
  unfolding search_message_id
  Keeps-search_message_id f id =
      Keeps-then (ensure_selected W f) _ (Keeps-ensure_selected f)
        (Keeps-uid_search (header message_id_key id))

  Keeps-move_hits : (f : Text) (us : List ℕ) → Keeps HasKey (move_hits W f us)
  Keeps-move_hits f [] = Keeps-pure false
  Keeps-move_hits f (u ∷ us) =
      Keeps-then (on_conn (W.move (u ∷ us) f)) _ (Keeps-move (u ∷ us) f) (Keeps-pure true)

  pub Keeps-move_message_id : (f g id : Text) → Keeps HasKey (move_message_id W f g id)
  unfolding move_message_id
  Keeps-move_message_id f g id =
      Keeps-bind (search_message_id W f id) _ (Keeps-search_message_id f id) (Keeps-move_hits g)

  pub Keeps-move_uids : (f : Text) (us : List ℕ) (g : Text) → Keeps HasKey (move_uids W f us g)
  unfolding move_uids
  Keeps-move_uids f [] g = Keeps-pure tt
  Keeps-move_uids f (u ∷ us) g = Keeps-then (ensure_selected W f) _ (Keeps-ensure_selected f) (
      Keeps-then (on_conn (W.move (u ∷ us) g)) _ (Keeps-move (u ∷ us) g)
        (record { at = λ cl h. h }))

  Keeps-store_flags :
      (us : List ℕ) (add : Bool) (flags : List Text) → Keeps HasKey (store_flags W us add flags)
  unfolding store_flags
  Keeps-store_flags us add flags =
      Keeps-on_conn (W.store us add flags) (D.store_keeps us add flags k)

  Keeps-store_hits : (add : Bool) (kw : Text) (us : List ℕ) → Keeps HasKey (store_hits W add kw us)
  Keeps-store_hits add kw [] = Keeps-pure false
  Keeps-store_hits add kw (u ∷ us) =
      Keeps-then (store_flags W (u ∷ us) add (kw ∷ [])) _ (Keeps-store_flags (u ∷ us) add (kw ∷ []))
        (Keeps-pure true)

  pub Keeps-store_keyword :
      (f id : Text) (add : Bool) (kw : Text)
      → Keeps HasKey (store_keyword_by_message_id W f id add kw)
  unfolding store_keyword_by_message_id
  Keeps-store_keyword f id add kw =
      Keeps-bind (search_message_id W f id) _ (Keeps-search_message_id f id)
        (Keeps-store_hits add kw)

  pub Keeps-store_keywords_uids :
      (us : List ℕ) (kws : List Text) → Keeps HasKey (store_keywords_uids W us kws)
  unfolding store_keywords_uids
  Keeps-store_keywords_uids [] kws = Keeps-pure tt
  Keeps-store_keywords_uids (u ∷ us) [] = Keeps-pure tt
  Keeps-store_keywords_uids (u ∷ us) (kw ∷ kws) = Keeps-store_flags (u ∷ us) true (kw ∷ kws)
