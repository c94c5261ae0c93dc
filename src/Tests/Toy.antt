-- ===== src/Tests/Toy.antt =====
-- A source with two messages, and a destination that keeps the keys of what is appended to it.
use mathlib.Core.Path.{subst}
use umleitung.Base.{
  ℕ, ◌≡◌, refl, Bool, true, false, ◌&&◌, none, List, [], ◌∷◌, All, leb, ◌==◌ as nat_eq, arith,
  if◌then◌else◌,
}
use umleitung.Base.Text.{Text, codes, contains, pos, eq_refl}
use umleitung.Base.Exec.{ok, pure}
use umleitung.Key.{MsgMeta, FullMessage, dedup_key}
use umleitung.State.Tables.{empty_db, has_row}
use umleitung.Env.{Env, Options, World}
use umleitung.Safety.{DestLaws, SourceLaws, Behind}

-- a hash with no collision: the text itself
abbrev pub hex : Text → Text
hex s = s

abbrev pub keep : {A : Type 0} → (A → Bool) → List A → List A
keep p [] = []
keep p (x ∷ xs) = if p x then x ∷ keep p xs else keep p xs

pub All-keep :
    {A : Type 0} (P : A → Type 0) (p : A → Bool) (xs : List A)
    → ((x : A) → p x ≡ true → P x)
    → All P (keep p xs)
All-keep P p [] h = tt
All-keep P p (x ∷ xs) h = go (p x) (h x) (All-keep P p xs h)
  where
    go :
        (b : Bool)
        → (b ≡ true → P x)
        → All P (keep p xs)
        → All P (if b then x ∷ keep p xs else keep p xs)
    go true f r = (f refl, r)
    go false f r = r

pub keep-All :
    {A : Type 0} (P : A → Type 0) (p : A → Bool) (xs : List A) → All P xs → All P (keep p xs)
keep-All P p [] h = tt
keep-All P p (x ∷ xs) h = go (p x) (keep-All P p xs h.1)
  where
    go : (b : Bool) → All P (keep p xs) → All P (if b then x ∷ keep p xs else keep p xs)
    go true r = (h.0, r)
    go false r = r

pub ok-injective : {A : Type 0} (a b : A) → ok a ≡ ok b → a ≡ b
ok-injective a b e = cc

-- the raw text is the Message-ID
abbrev pub message_one : FullMessage
message_one = record { uid = 1; raw = codes "one@x"; flags = []; internal_date = pos 10 }

abbrev pub message_two : FullMessage
message_two = record { uid = 2; raw = codes "two@x"; flags = []; internal_date = pos 20 }

abbrev pub meta_of : FullMessage → MsgMeta
meta_of m = record {
  uid = m.uid;
  message_id = m.raw;
  from = [];
  subject = [];
  internal_date = m.internal_date;
  size = 0;
  flags = m.flags;
}

abbrev pub content : FullMessage → Text
content m = dedup_key hex (meta_of m)

abbrev pub key_of : FullMessage → Text
key_of = content

abbrev pub key_at : Unit {0} → ℕ → Text
key_at s u = if nat_eq u 1 then content message_one else content message_two

abbrev metas : List MsgMeta
metas = meta_of message_one ∷ meta_of message_two ∷ []

abbrev in_range : ℕ → ℕ → MsgMeta → Bool
in_range a b m = leb a m.uid && leb m.uid b

-- the destination lists those of the two messages that it has
abbrev listed_in : List Text → MsgMeta → Bool
listed_in s m = contains s (dedup_key hex m)

abbrev wanted : List ℕ → FullMessage → Bool
wanted [] m = false
wanted (u ∷ us) m = if nat_eq u m.uid then true else wanted us m

abbrev pub toy : Env
toy = record {
  Src = Unit {0};
  Dst = List Text;
  Ticket = FullMessage;
  names = record { excluded_attrs = []; flag_seen = codes "\\Seen" };
  hex_sha256 = hex;
  faults = λ n. false;
  done = λ n. false;
  now = λ n. n;
  src_select_folder = pure (record { uid_validity = 7; uid_next = 3; num_messages = 2 });
  src_select_named_folder = λ f. pure (record { uid_validity = 7; uid_next = 3; num_messages = 2 });
  src_list_folders = pure [];
  src_search_all_uids = pure (1 ∷ 2 ∷ []);
  src_fetch_meta_range = λ a b. pure (keep (in_range a b) metas);
  src_fetch_full_stream = λ us s. ((keep (wanted us) (message_one ∷ message_two ∷ []), none), s);
  dst_select_named_folder = λ f. pure (record { uid_validity = 9; uid_next = 3; num_messages = 2 });
  dst_fetch_meta_range = λ a b s. (ok (keep (listed_in s) metas), s);
  dst_search_message_ids_in = λ f ids s. (ok (keep (contains s) ids), s);
  dst_append_to = λ f m flags s. (ok tt, content m ∷ s);
  dst_begin_append = λ f m flags. pure m;
  dst_wait = λ m s. (ok tt, content m ∷ s);
  dst_move_message_id = λ f g id. pure true;
  dst_move_uids = λ f us g. pure tt;
  dst_store_keyword_by_message_id = λ f id add kw. pure true;
  dst_store_keywords_uids = λ us kws. pure tt;
}

abbrev pub Holds : Text → List Text → Type 0
Holds k s = contains s k ≡ true

pub Holds-more : (x k : Text) (s : List Text) → Holds k s → Holds k (x ∷ s)
Holds-more x k s h = ground arith

pub Holds-first : (k : Text) (s : List Text) → Holds k (k ∷ s)
Holds-first k s = rw (eq_refl k)

begun_key : (m t : FullMessage) → ok m ≡ ok t → key_of t ≡ content m
begun_key m t e = subst (λ (x : FullMessage). key_of x ≡ content m) (ok-injective m t e) refl

pub toy-DestLaws : DestLaws toy Holds content key_of
toy-DestLaws = record {
  select_keeps = λ f k s h. h;
  fetch_keeps = λ a b k s h. h;
  search_keeps = λ f ids k s h. h;
  append_keeps = λ f m flags k s. Holds-more (content m) k s;
  begin_keeps = λ f m flags k s h. h;
  wait_keeps = λ t k s. Holds-more (content t) k s;
  move_keeps = λ f g id k s h. h;
  move_uids_keeps = λ f us g k s h. h;
  keyword_keeps = λ f id add kw k s h. h;
  keywords_keeps = λ us kws k s h. h;
  begun = λ f m flags s t e. begun_key m t e;
  confirmed = λ t s e. Holds-first (content t) s;
  appended = λ f m flags s e. Holds-first (content m) s;
  found = λ f ids s ks e.
      subst (All (λ k. Holds k s)) (ok-injective _ _ e)
        (All-keep (λ k. Holds k s) (contains s) ids (λ k h. h));
  listed = λ a b s ms e.
      subst (All (λ m. Holds (dedup_key hex m) s)) (ok-injective _ _ e)
        (All-keep _ (listed_in s) metas (λ m h. h));
}

abbrev IsAt : Unit {0} → MsgMeta → Type 0
IsAt s m = dedup_key hex m ≡ key_at s m.uid

pub toy-SourceLaws : SourceLaws toy key_at content
toy-SourceLaws = record {
  fetched = λ a b s ms e.
      subst (All (IsAt s)) (ok-injective _ _ e)
        (keep-All (IsAt s) (in_range a b) metas (refl, (refl, tt)));
  streamed = λ us s.
      keep-All (λ (m : FullMessage). content m ≡ key_at s m.uid) (wanted us)
        (message_one ∷ message_two ∷ []) (refl, (refl, tt));
}

abbrev pub options : Options
options = record {
  uid_batch = pos 2;
  dest_guard = true;
  carry_seen = false;
  sync_labels = false;
  source_folder = codes "All";
  label_exclude = [];
  dest_folder = codes "INBOX";
  archive_routing = true;
  source_inbox = codes "Inbox";
  archive_folder = codes "Archive";
  sent_routing = false;
  sent_src_folder = codes "Sent";
  sent_folder = codes "Sent";
  label_propagate = false;
  keyword_prefix = codes "L-";
  keyword_replacement = codes "_";
}

-- the first message has been copied, the second has not
abbrev pub start : World toy
start = record {
  conn = record {
    db = record empty_db {
      copied = record { key = content message_one; uid = 1; copied_at = 0 } ∷ [];
    };
    calls = 0;
  };
  src = tt;
  dst = content message_one ∷ [];
  sum = record {
    uid_validity_changed = false;
    candidates = 0;
    copied = 0;
    skipped_dup = 0;
    moved_to_archive = 0;
    moved_to_inbox = 0;
    moved_to_sent = 0;
    keywords_set = 0;
    keywords_updated = 0;
  };
  polls = 0;
}

pub start-Behind : Behind {E = toy} Holds start
unfolding has_row
start-Behind k e = ground arith
