-- ===== src/Imap/Search/Found.antt =====
-- What the search for Message-IDs relies on of the wire, and lemmas on its lists.
use umleitung.Base.{
  ℕ, zero, suc, ◌-◌, ◌≤◌, ◌≡◌, refl, ap, Bool, true, false, not, ◌&&◌, ◌||◌, none, some, List, [],
  ◌∷◌, ◌++◌, length, take, drop, ◌==◌ as nat_eq, arith,
}
use umleitung.Base.Text.{Text, codes, contains, ◌==◌, eq_refl}
use umleitung.Base.Exec.{Error, Result, ok, err, diverged}
use umleitung.Key.{MsgMeta}
use umleitung.Imap.Wire.{Wire, Criteria, uid_list}
use umleitung.Imap.Criteria.Laws.{matches, any}
use umleitung.Imap.Fetch.{insert_by_uid, sort_by_uid, metas_of}
use umleitung.Imap.Search.{message_ids}

abbrev pub is_diverged : Error → Bool
is_diverged diverged = true
is_diverged _ = false

abbrev pub returns : {A : Type 0} → Result A → Bool
returns (ok a) = true
returns (err e) = not (is_diverged e)

abbrev pub has_uid_of : List ℕ → ℕ → Bool
has_uid_of [] u = false
has_uid_of (v ∷ us) u = nat_eq v u || has_uid_of us u

-- A field of a message with this Message-ID contains the text, for sure: the field is Message-Id and
-- the text the whole of it.
abbrev pub names_id : Text → Text → Text → Bool
names_id id key value = key == codes "Message-Id" && value == id

-- `Has id u c`: the message under the UID u of the selected folder has the Message-ID id. SEARCH
-- finds it by any criteria that its Message-Id meets, FETCH shows it, neither changes it.
pub record SearchLaws (W : Wire) (Has : Text → ℕ → W.Conn → Type 0) : Type 0 where
  pub finds :
      (q : Criteria) (id : Text) (u : ℕ) (c : W.Conn) (us : List ℕ)
      → Has id u c
      → matches (names_id id) q ≡ true
      → (W.uid_search q c).0 ≡ ok us
      → has_uid_of us u ≡ true
  pub search_keeps :
      (q : Criteria) (id : Text) (u : ℕ) (c : W.Conn) → Has id u c → Has id u (W.uid_search q c).1
  pub shows :
      (us : List ℕ) (id : Text) (u : ℕ) (c : W.Conn)
      → Has id u c
      → has_uid_of us u ≡ true
      → (W.fetch_headers (uid_list us) c).0.1 ≡ none
      → contains (message_ids (metas_of W (W.fetch_headers (uid_list us) c).0.0)) id ≡ true
  pub headers_keeps :
      (us : List ℕ) (id : Text) (u : ℕ) (c : W.Conn)
      → Has id u c
      → Has id u (W.fetch_headers (uid_list us) c).1
  -- `diverged` is no error of a connection
  pub select_returns : (f : Text) (c : W.Conn) → returns (W.select f c).0 ≡ true
  pub search_returns : (q : Criteria) (c : W.Conn) → returns (W.uid_search q c).0 ≡ true
  pub headers_return :
      (us : List ℕ) (c : W.Conn) (e : Error)
      → (W.fetch_headers (uid_list us) c).0.1 ≡ some e
      → is_diverged e ≡ false

pub contains-any :
    (xs : List Text) (k : Text) → any (names_id k (codes "Message-Id")) xs ≡ contains xs k
contains-any [] k = refl
contains-any (x ∷ xs) k =
    rw (eq_refl (codes "Message-Id")) (ap (λ b. x == k || b) (contains-any xs k))

-- sorting keeps the Message-IDs
message_ids-insert_by_uid :
    (m : MsgMeta) (ms : List MsgMeta) (k : Text)
    → contains (message_ids (insert_by_uid m ms)) k ≡ contains (message_ids (m ∷ ms)) k
unfolding message_ids insert_by_uid
message_ids-insert_by_uid m [] k = refl
message_ids-insert_by_uid m (n ∷ ms) k = let ih = message_ids-insert_by_uid m ms k in ground arith

pub message_ids-sort_by_uid :
    (ms : List MsgMeta) (k : Text)
    → contains (message_ids (sort_by_uid ms)) k ≡ contains (message_ids ms) k
unfolding sort_by_uid message_ids
message_ids-sort_by_uid [] k = refl
message_ids-sort_by_uid (m ∷ ms) k =
    let first = message_ids-insert_by_uid m (sort_by_uid ms) k in
    let ih = message_ids-sort_by_uid ms k in ground arith

take-nil : (n : ℕ) → take {A = Text} n [] ≡ []
take-nil zero = refl
take-nil (suc n) = refl

pub take-append-span :
    (xs : List Text) (i j : ℕ) → i ≤ j → take j xs ≡ take i xs ++ take (j - i) (drop i xs)
take-append-span xs zero j h = let e : j - 0 ≡ j = omega arith in rw e refl
take-append-span xs (suc i) zero h = let n : ⊥ = omega arith in elim n [ ]
take-append-span [] (suc i) (suc j) h = rw (take-nil (suc j - suc i)) refl
take-append-span (x ∷ xs) (suc i) (suc j) h =
    let e : suc j - suc i ≡ j - i = omega arith in
    rw e (ap (λ ys. x ∷ ys) (take-append-span xs i j (omega arith)))

pub take_all : (n : ℕ) (xs : List Text) → length xs ≤ n → take n xs ≡ xs
take_all zero [] h = refl
take_all (suc n) [] h = refl
take_all zero (x ∷ xs) h = let n : ⊥ = omega arith in elim n [ ]
take_all (suc n) (x ∷ xs) h = ap (λ ys. x ∷ ys) (take_all n xs (omega arith))
