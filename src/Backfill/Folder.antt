-- ===== src/Backfill/Folder.antt =====
-- internal/reconcile/membership.go: the scan of a backfill of one folder.
use umleitung.Base.{
  ℕ, ◌+◌, ◌≤◌, ◌<◌, ◌≡◌, refl, ap, ◌∙◌, true, false, ◌||◌, List, [], ◌∷◌, ltb, ltb→lt, ltb→le,
  Bool-cases, inl, inr, arith,
}
use umleitung.Base.Text.{Text, ◌==◌, eq_refl}
use umleitung.Base.Exec.{Result, ok, err}
use umleitung.Base.Hoare.{
  After, After-both, Triple, Triple-Keeps, Triple-bind, Triple-gives, Triple-first,
}
use umleitung.Key.{MsgMeta}
use umleitung.State.Tables.{Db, is_member}
use umleitung.Env.{Env, Options, World, on_dst, check_ctx, inside}
use umleitung.Windows.{u32, batch_of, window_stop, scan_window, scan_windows}
use umleitung.Windows.Tiling.{stop_in_range}
use umleitung.Windows.Rule.{Triple-scan_windows}
use umleitung.Routing.Laws.{home}
use umleitung.Membership.Batches.{Among}
use umleitung.Backfill.{Found, check_metas}
use umleitung.Backfill.Frame.{reads_member, reads_folders, check_metas-Keeps}
use umleitung.Backfill.Groups.{in_group}
use umleitung.Backfill.Misplaced.{misplaced, check_metas-misplaced}

-- A folder of the destination that has the messages `Shows`, a UID with a key each, while it is
-- selected. A folder that says it has no message has none.
pub record DestView (E : Env) (folder : Text) (next : ℕ) (Shows : ℕ → Text → Type 0)
    (Selected : E.Dst → Type 0) : Type 0 where
  pub in_range : (u : ℕ) (k : Text) → Shows u k → (0 < u) × (u < next)
  pub select :
      Triple
        (λ s. Unit {0})
        (E.dst_select_named_folder folder)
        (λ st s.
          ((st.uid_next ≡ next) × ((st.num_messages ≡ 0) → (u : ℕ) (k : Text) → Shows u k → ⊥))
          × Selected s)
        (λ s. Unit {0})
  pub fetch :
      (a b : ℕ)
      → Triple Selected
          (E.dst_fetch_meta_range a b)
          (λ ms s.
            ((u : ℕ) (k : Text) → Shows u k → a ≤ u → u ≤ b → Among E.hex_sha256 u k ms)
            × Selected s)
          (λ s. Unit {0})

-- where a message with this key belongs, by the stored memberships
abbrev pub place : Options → Db → Text → Text
place o db k =
    home o (is_member o.source_inbox k db.members) (is_member o.sent_src_folder k db.members)

misplaced-Among :
    (E : Env) (o : Options) (db : Db) (folder : Text) (u : ℕ) (k : Text) (ms : List MsgMeta)
    → (place o db k == folder) ≡ false
    → Among E.hex_sha256 u k ms
    → misplaced E o db folder (place o db k) u ms ≡ true
misplaced-Among E o db folder u k [] ne h = elim h [ ]
misplaced-Among E o db folder u k (m ∷ ms) ne (inl h) =
    rw (h.1, ne, eq_refl (place o db k)) (ground (arith, h.0))
misplaced-Among E o db folder u k (m ∷ ms) ne (inr h) =
    ground (arith, misplaced-Among E o db folder u k ms ne h)

abbrev pub Anywhere : {A : Type 0} → A → Type 0
Anywhere s = Unit {0}

abbrev pub nothing : Found
nothing = record { wrong = []; keywords = [] }

-- the misplaced messages below `a` are noted
abbrev pub NotedBelow : Options → Db → Text → (ℕ → Text → Type 0) → ℕ → Found → Type 0
NotedBelow o db folder Shows a f =
    (u : ℕ) (k : Text)
    → Shows u k
    → u < a
    → (place o db k == folder) ≡ false
    → in_group (place o db k) u f.wrong ≡ true

module _ (E : Env) (o : Options) (db : Db) (folder : Text) (next : ℕ) (Shows : ℕ → Text → Type 0)
    (Selected : E.Dst → Type 0) (V : DestView E folder next Shows Selected)
    (quiet : (n : ℕ) → E.faults n ≡ false) (routed : (o.archive_routing || o.sent_routing) ≡ true)
    (positive : 0 < batch_of o) (room : next + batch_of o ≤ u32) where
  abbrev Still : Db → E.Dst → Type 0
  Still c d = (c ≡ db) × Selected d

  abbrev Looking : ℕ → World E × Found → Type 0
  Looking a s = NotedBelow o db folder Shows a s.1 × Still s.0.conn.db s.0.dst

  look_through :
      (a stop : ℕ) (ms : List MsgMeta)
      → ((u : ℕ) (k : Text) → Shows u k → a ≤ u → u ≤ stop → Among E.hex_sha256 u k ms)
      → Triple (Looking a) (check_metas E o folder stop ms) (λ r. Looking (stop + 1)) Anywhere
  look_through a stop ms has = record {
    run = λ s h.
        After-both (Looking (stop + 1)) (λ r. Looking (stop + 1)) Anywhere
          (check_metas E o folder stop ms s)
          (
            λ u k there l ne.
                let e =
                  (check_metas-misplaced E o folder (place o db k) u stop ms s.0 s.1 quiet routed).1
                  ∙ ap
                      (λ (c : Db).
                        in_group (place o db k) u s.1.wrong
                        || misplaced E o c folder (place o db k) u ms)
                      h.1.0 in
                elim (Bool-cases (ltb u a)) [
                  | inl early ↦ let x = h.0 u k there (ltb→lt u a early) ne in e ∙ rw x refl
                  | inr late ↦
                      let x =
                        misplaced-Among E o db folder u k ms ne
                          (has u k there (ltb→le u a late) (omega arith)) in
                      e ∙ ground (arith, x)
                ],
            (check_metas-Keeps E o (λ w. Still w.conn.db w.dst) (reads_member E o Still)
                  (reads_folders E o Still) folder stop ms).at
                s h.1,
          )
          (λ r c. c) (λ c. tt);
  }

  fetched :
      (a stop : ℕ)
      → Triple
          (Looking a)
          (inside (on_dst (E.dst_fetch_meta_range a stop)))
          (λ ms s.
            ((u : ℕ) (k : Text) → Shows u k → a ≤ u → u ≤ stop → Among E.hex_sha256 u k ms)
            × Looking a s)
          Anywhere
  fetched a stop = record {
    run =
        λ s h. go s h (E.dst_fetch_meta_range a stop s.0.dst) ((V.fetch a stop).run s.0.dst h.1.1);
  }
    where
      go :
          (s : World E × Found)
          → Looking a s
          → (x : Result (List MsgMeta) × E.Dst)
          → After
              (λ ms d.
                ((u : ℕ) (k : Text) → Shows u k → a ≤ u → u ≤ stop → Among E.hex_sha256 u k ms)
                × Selected d)
              Anywhere
              x
          → After
              (λ ms s.
                ((u : ℕ) (k : Text) → Shows u k → a ≤ u → u ≤ stop → Among E.hex_sha256 u k ms)
                × Looking a s)
              Anywhere
              (x.0, (record s.0 { dst = x.1 }, s.1))
      go s h (ok ms, d) q = (q.0, (h.0, (h.1.0, q.1)))
      go s h (err e, d) q = tt

  window-Looking :
      (a : ℕ)
      → a < next
      → Triple
          (Looking a)
          (scan_window
            (inside check_ctx)
            (batch_of o)
            next
            (λ start stop. inside (on_dst (E.dst_fetch_meta_range start stop)))
            (check_metas E o folder)
            a)
          (λ r. Looking (a + batch_of o))
          Anywhere
  unfolding scan_window
  window-Looking a l =
      let stop = window_stop (batch_of o) a next in
      let e = stop_in_range (batch_of o) a next l positive room in
      Triple-bind {R = λ r. Looking a} _ _
        (Triple-Keeps (inside check_ctx) (record { at = λ s h. h }) (λ s h. tt) (λ r s h. h))
        λ r. Triple-bind _ _ (fetched a stop) λ ms. record {
          run = λ s h.
              (Triple-gives
                  (λ u v c. (
                    λ u k there p ne.
                        let q = (V.in_range u k there).1 in
                        c.0 u k there (ground (arith, e, p, q)) ne,
                    c.1,
                  ))
                  (look_through a stop ms h.0)).run
                s h.1;
        }

  pub scanned :
      Triple
        (λ s. (s.1 ≡ nothing) × Still s.0.conn.db s.0.dst)
        (scan_windows
          (inside check_ctx)
          o
          1
          next
          (λ start stop. inside (on_dst (E.dst_fetch_meta_range start stop)))
          (check_metas E o folder))
        (λ r. Looking next)
        Anywhere
  scanned =
      Triple-first
        (λ s h. (λ u k there l ne. absurd (let q = (V.in_range u k there).0 in omega arith), h.1))
        (Triple-scan_windows (inside check_ctx) o next _ _ Looking (Looking next) Anywhere room
          (λ a s c. tt) (λ a s l c. (λ u k there p ne. c.0 u k there (omega arith) ne, c.1))
          window-Looking 1)
