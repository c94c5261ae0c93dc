-- ===== src/Imap/Listing/Sorted.antt =====
-- internal/imapx/client.go: the sorting of `fetchMetas`.
use umleitung.Base.{◌≤◌, ◌≡◌, ◌⊎◌, List, [], ◌∷◌, All, All-map, leb, Bool-cases, inl, inr, arith}
use umleitung.Key.{MsgMeta}
use umleitung.Imap.Fetch.{insert_by_uid, sort_by_uid}
use umleitung.Imap.Laws.Hold.{All-insert_by_uid}

abbrev pub In : {A : Type 0} → A → List A → Type 0
In x [] = ⊥
In x (y ∷ ys) = (y ≡ x) ⊎ In x ys

-- by ascending UID
abbrev pub Ascending : List MsgMeta → Type 0
Ascending [] = Unit {0}
Ascending (m ∷ ms) = All (λ n. m.uid ≤ n.uid) ms × Ascending ms

-- sorting keeps the items and puts them in order
In-insert_by_uid : (x m : MsgMeta) (ms : List MsgMeta) → In x (m ∷ ms) → In x (insert_by_uid m ms)
unfolding insert_by_uid
In-insert_by_uid x m [] h = h
In-insert_by_uid x m (n ∷ ms) h = elim (Bool-cases (leb m.uid n.uid)) [
  | inl e ↦ rw e h
  | inr e ↦ rw e (elim h [
    | inl here ↦ inr (In-insert_by_uid x m ms (inl here))
    | inr (inl next) ↦ inl next
    | inr (inr later) ↦ inr (In-insert_by_uid x m ms (inr later))
  ])
]

insert_by_uid-In : (x m : MsgMeta) (ms : List MsgMeta) → In x (insert_by_uid m ms) → In x (m ∷ ms)
unfolding insert_by_uid
insert_by_uid-In x m [] h = h
insert_by_uid-In x m (n ∷ ms) h = elim (Bool-cases (leb m.uid n.uid)) [
  | inl e ↦ rw e at h
  | inr e ↦
      let i : In x (n ∷ insert_by_uid m ms) = rw e at h in
      elim i [
        | inl next ↦ inr (inl next)
        | inr rest ↦ elim (insert_by_uid-In x m ms rest) [
          | inl here ↦ inl here
          | inr later ↦ inr (inr later)
        ]
      ]
]

pub In-sort_by_uid : (x : MsgMeta) (ms : List MsgMeta) → In x ms → In x (sort_by_uid ms)
unfolding sort_by_uid
In-sort_by_uid x [] h = h
In-sort_by_uid x (m ∷ ms) (inl h) = In-insert_by_uid x m (sort_by_uid ms) (inl h)
In-sort_by_uid x (m ∷ ms) (inr h) =
    In-insert_by_uid x m (sort_by_uid ms) (inr (In-sort_by_uid x ms h))

pub sort_by_uid-In : (x : MsgMeta) (ms : List MsgMeta) → In x (sort_by_uid ms) → In x ms
unfolding sort_by_uid
sort_by_uid-In x [] h = h
sort_by_uid-In x (m ∷ ms) h = elim (insert_by_uid-In x m (sort_by_uid ms) h) [
  | inl here ↦ inl here
  | inr later ↦ inr (sort_by_uid-In x ms later)
]

Ascending-insert_by_uid :
    (m : MsgMeta) (ms : List MsgMeta) → Ascending ms → Ascending (insert_by_uid m ms)
unfolding insert_by_uid
Ascending-insert_by_uid m [] h = (tt, tt)
Ascending-insert_by_uid m (n ∷ ms) h = elim (Bool-cases (leb m.uid n.uid)) [
  | inl e ↦ rw e ((ground (arith, e), All-map ms (λ k l. ground (arith, e, l)) h.0), h)
  | inr e ↦ rw e (
    All-insert_by_uid (λ k. n.uid ≤ k.uid) m ms (ground (arith, e)) h.0,
    Ascending-insert_by_uid m ms h.1,
  )
]

pub Ascending-sort_by_uid : (ms : List MsgMeta) → Ascending (sort_by_uid ms)
unfolding sort_by_uid
Ascending-sort_by_uid [] = tt
Ascending-sort_by_uid (m ∷ ms) =
    Ascending-insert_by_uid m (sort_by_uid ms) (Ascending-sort_by_uid ms)
