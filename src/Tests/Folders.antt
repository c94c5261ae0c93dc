-- ===== src/Tests/Folders.antt =====
-- A folder of two messages, scanned again after one was removed and one has come.
use umleitung.Base.{
  ℕ, ◌<◌, ◌≡◌, ◌⊎◌, refl, ap, sym, ◌∙◌, inl, inr, Bool, true, some, List, [], ◌∷◌, ◌++◌, ◌+◌, ◌≤◌,
  if◌then◌else◌, ◌==◌ as nat_eq, leb, ◌&&◌, Bool-cases, arith,
}
use umleitung.Base.Text.{Text, codes, trim_space, pos, ◌==◌, eq_iff, eq_refl}
use umleitung.Base.Exec.{ok, pure}
use umleitung.Base.Hoare.{After}
use umleitung.Key.{MsgMeta, dedup_key}
use umleitung.State.Tables.{lookup_folder}
use umleitung.State.Members.{uid_at, Keyed}
use umleitung.Env.{Env, World}
use umleitung.Windows.{u32, batch_of}
use umleitung.Membership.{
  Watched, has_uid, sync_watched_folder, list_labels, routing_folders, sync_membership,
}
use umleitung.Membership.Batches.{Among}
use umleitung.Membership.Tracks.{FolderView, mark_of, Tracks, IsSnapshot, SameOthers}
use umleitung.Routing.{dest_folder_for}
use umleitung.Routing.Laws.{home}
use umleitung.Membership.Whole.{ServerView, TracksAll, Snapshots, sync_membership-Snapshots}
use umleitung.Membership.Routed.{sync_membership-home}
use umleitung.Membership.Snapshot.{sync_watched_folder-IsSnapshot}
use umleitung.Tests.Toy.{hex, keep, toy, options, start}

abbrev pub message : ℕ → Text → MsgMeta
message u id = record {
  uid = u;
  message_id = id;
  from = [];
  subject = [];
  internal_date = pos 0;
  size = 0;
  flags = [];
}

abbrev kept : Text
kept = codes "one@x"

abbrev come : Text
come = codes "two@x"

abbrev removed : Text
removed = codes "gone@x"

-- the UID 2 is that of the message that was removed
abbrev key_of_uid : ℕ → Text
key_of_uid u = if nat_eq u 1 then kept else if nat_eq u 2 then removed else come

abbrev metas : List MsgMeta
metas = message 1 kept ∷ message 3 come ∷ []

abbrev shown : ℕ → ℕ → List MsgMeta
shown a b = keep (λ m. leb a m.uid && leb m.uid b) metas

abbrev server : Env
server = record toy {
  src_select_named_folder = λ f. pure (record { uid_validity = 7; uid_next = 4; num_messages = 2 });
  src_search_all_uids = pure (1 ∷ 3 ∷ []);
  src_fetch_meta_range = λ a b. pure (shown a b);
}

-- the folder's messages
abbrev Shows : ℕ → Text → Type 0
Shows u k = ((u ≡ 1) × (k ≡ kept)) ⊎ ((u ≡ 3) × (k ≡ come))

abbrev inbox : Text
inbox = codes "INBOX"

abbrev scanned_before : World server
scanned_before = record {
  conn = record start.conn {
    db = record start.conn.db {
      members =
          record { folder = inbox; key = removed; uid = 2 }
          ∷ record { folder = inbox; key = kept; uid = 1 }
          ∷ [];
      folders = record { name = inbox; uid_validity = 7; last_uid = 2 } ∷ [];
    };
  };
  src = start.src;
  dst = start.dst;
  sum = start.sum;
  polls = start.polls;
}

Among-keep :
    (q : ℕ → Bool) (u : ℕ) (k : Text) (ms : List MsgMeta)
    → Among hex u k (keep (λ m. q m.uid) ms)
    → Among hex u k ms
Among-keep q u k [] h = h
Among-keep q u k (m ∷ ms) h = elim (Bool-cases (q m.uid)) [
  | inl e ↦
      let x : Among hex u k (m ∷ keep (λ m. q m.uid) ms) = rw e at h in
      elim x [ inl this ↦ inl this | inr later ↦ inr (Among-keep q u k ms later) ]
  | inr e ↦ inr (Among-keep q u k ms (rw e at h))
]

pub keep-Among :
    (q : ℕ → Bool) (u : ℕ) (k : Text) (ms : List MsgMeta)
    → q u ≡ true
    → Among hex u k ms
    → Among hex u k (keep (λ m. q m.uid) ms)
keep-Among q u k [] e h = h
keep-Among q u k (m ∷ ms) e (inl h) = let f : q m.uid ≡ true = ap q h.0 ∙ e in rw f (inl h)
keep-Among q u k (m ∷ ms) e (inr h) =
    let rest = keep-Among q u k ms e h in
    elim (Bool-cases (q m.uid)) [ inl f ↦ rw f (inr rest) | inr f ↦ rw f rest ]

Among-Shows : (u : ℕ) (k : Text) → Among hex u k metas → Shows u k
unfolding dedup_key trim_space ◌==◌
Among-Shows u k (inl h) = inl (sym h.0, sym h.1)
Among-Shows u k (inr (inl h)) = inr (sym h.0, sym h.1)
Among-Shows u k (inr (inr h)) = elim h [ ]

Shows-Among : (u : ℕ) (k : Text) → Shows u k → Among hex u k metas
unfolding dedup_key trim_space ◌==◌
Shows-Among u k (inl h) = inl (sym h.0, sym h.1)
Shows-Among u k (inr h) = inr (inl (sym h.0, sym h.1))

abbrev first : Text → ℕ
first [] = 0
first (c ∷ s) = c

one_key : (k : Text) → k ≡ kept → k ≡ come → ⊥
one_key k p q = absurd (let e = ap first (sym p ∙ q) in omega arith)

one_uid : (u w : ℕ) (k : Text) → Shows u k → Shows w k → u ≡ w
one_uid u w k (inl a) (inl b) = a.0 ∙ sym b.0
one_uid u w k (inl a) (inr b) = absurd (one_key k a.1 b.1)
one_uid u w k (inr a) (inl b) = absurd (one_key k b.1 a.1)
one_uid u w k (inr a) (inr b) = a.0 ∙ sym b.0

same_content : (u : ℕ) (k : Text) → Shows u k → key_of_uid u ≡ k
same_content u k (inl h) = rw h.0 (sym h.1)
same_content u k (inr h) = rw h.0 (sym h.1)

in_range : (u : ℕ) (k : Text) → Shows u k → (0 < u) × (u < 4)
in_range u k (inl h) = omega arith
in_range u k (inr h) = omega arith

searched : (u : ℕ) → has_uid (1 ∷ 3 ∷ []) u ≡ true → (k : Text) × Shows u k
unfolding has_uid
searched u h = elim (Bool-cases (nat_eq 1 u)) [
  | inl e ↦ (kept, inl (ground (arith, e), refl))
  | inr e ↦ (come, inr (ground (arith, e, h), refl))
]

shown_uid : (u : ℕ) (k : Text) → Shows u k → has_uid (1 ∷ 3 ∷ []) u ≡ true
unfolding has_uid
shown_uid u k (inl h) = rw h.0 refl
shown_uid u k (inr h) = rw h.0 refl

server-FolderView : (f : Text) → FolderView server f 7 4 Shows key_of_uid (λ s. Unit {0})
server-FolderView f = record {
  in_range = in_range;
  same_content = same_content;
  one_uid = one_uid;
  select = record { run = λ s h. ((refl, refl), tt) };
  search = record { run = λ s h. ((shown_uid, searched), tt) };
  fetch = λ a b. record {
    run = λ s h. (
      (
        λ u k x. Among-Shows u k (Among-keep (λ v. leb a v && leb v b) u k metas x),
        λ u k x l r.
            keep-Among (λ v. leb a v && leb v b) u k metas (ground (arith, l, r))
              (Shows-Among u k x),
      ),
      tt,
    );
  };
}

stored :
    (k : Text) (u : ℕ)
    → uid_at inbox k scanned_before.conn.db.members ≡ some u
    → (0 < u) × (key_of_uid u ≡ k)
unfolding uid_at
stored k u h = elim (Bool-cases (removed == k)) [
  | inl e ↦
      let p : u ≡ 2 = ground (arith, e, h, eq_refl inbox) in
      rw p (omega arith, (eq_iff removed k).0 e)
  | inr n ↦ elim (Bool-cases (kept == k)) [
    | inl e ↦
        let p : u ≡ 1 = ground (arith, e, n, h, eq_refl inbox) in
        rw p (omega arith, (eq_iff kept k).0 e)
    | inr m ↦ absurd (ground (arith, n, m, h, eq_refl inbox))
  ]
]

scanned : uid_at inbox kept scanned_before.conn.db.members ≡ some 1
unfolding uid_at ◌==◌
scanned = refl

validity : lookup_folder inbox scanned_before.conn.db.folders ≡ (7, 2)
unfolding lookup_folder ◌==◌
validity = refl

keyed : Keyed scanned_before.conn.db.members
unfolding uid_at ◌==◌
keyed = (refl, (refl, tt))

before-Tracks : Tracks inbox 7 Shows key_of_uid scanned_before.conn.db
before-Tracks = record {
  keyed = keyed;
  sound = λ k u e h. stored k u h;
  complete = λ u k e h l.
      let p = ap (λ (i : ℕ × ℕ). i.1) validity in
      elim h [
        | inl one ↦ rw (one.0, one.1) scanned
        | inr two ↦ absurd (let q = two.0 in omega arith)
      ];
}

batch : batch_of options ≡ 2
unfolding batch_of
batch = refl

sync_watched_folder-IsSnapshot_example :
    After
      (λ u x.
        ((Tracks inbox 7 Shows key_of_uid x.conn.db
            × SameOthers inbox scanned_before.conn.db x.conn.db)
          × ((mark_of inbox x.conn.db).0 ≡ 7))
        × IsSnapshot inbox Shows x.conn.db)
      (λ x.
        Tracks inbox 7 Shows key_of_uid x.conn.db
        × SameOthers inbox scanned_before.conn.db x.conn.db)
      (sync_watched_folder server options
        (record { name = inbox; kind = codes "move" })
        scanned_before)
sync_watched_folder-IsSnapshot_example =
    sync_watched_folder-IsSnapshot (server-FolderView inbox) options (codes "move")
      (rw batch (omega arith)) (rw batch (omega arith)) scanned_before before-Tracks

-- the same folders, never scanned
abbrev fresh : World server
fresh = record {
  conn = start.conn;
  src = start.src;
  dst = start.dst;
  sum = start.sum;
  polls = start.polls;
}

abbrev Everywhere : Text → ℕ → Text → Type 0
Everywhere f = Shows

server-ServerView :
    ServerView server (λ f. 7) (λ f. 4) Everywhere (λ f. key_of_uid) (λ f s. Unit {0})
server-ServerView = record { folder = server-FolderView }

fresh-Tracks : (f : Text) → Tracks f 7 Shows key_of_uid fresh.conn.db
unfolding uid_at lookup_folder
fresh-Tracks f = record {
  keyed = tt;
  sound = λ k u e h. absurd (let x : 0 ≡ 7 = e in omega arith);
  complete = λ u k e h l. absurd (let x : 0 ≡ 7 = e in omega arith);
}

room : (f : Text) → 4 + batch_of options ≤ u32
room f = rw batch (omega arith)

positive : 0 < batch_of options
positive = rw batch (omega arith)

sync_membership-Snapshots_example :
    After
      (λ u x.
        TracksAll server-ServerView options positive room x.conn.db
        × (labels : List Watched) × ((list_labels server options fresh).0 ≡ ok labels)
        × Snapshots server-ServerView options positive room
            (labels ++ routing_folders server options)
            x.conn.db)
      (λ x. TracksAll server-ServerView options positive room x.conn.db)
      (sync_membership server options fresh)
sync_membership-Snapshots_example =
    sync_membership-Snapshots server-ServerView options positive room fresh fresh-Tracks

sync_membership-home_example :
    After
      (λ u x. (dest_folder_for server options kept x).0 ≡ ok (home options true true))
      (λ x. Unit {0})
      (sync_membership server options fresh)
sync_membership-home_example =
    sync_membership-home server-ServerView options positive room fresh fresh-Tracks (λ n. refl) kept
      true true (λ e. (1, inl (refl, refl)), λ h. refl) (λ e. (1, inl (refl, refl)), λ h. refl)
