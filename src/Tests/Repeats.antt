-- ===== src/Tests/Repeats.antt =====
-- What is not copied again, applied to the servers in memory.
use mathlib.Core.Path.{subst}
use umleitung.Base.{
  ◌≡◌, refl, ap, ap, Bool, true, ◌&&◌, List, [], ◌∷◌, All, Bool-cases, inl, inr, arith,
}
use umleitung.Base.Text.{Text, codes, contains, trim_space, has_prefix, eq_iff, ◌==◌}
use umleitung.Base.Exec.{ok}
use umleitung.Base.Hoare.{After}
use umleitung.Key.{dedup_key, is_real_message_id}
use umleitung.State.Tables.{has_row}
use umleitung.Routing.{dest_bucket_folders}
use umleitung.Mirror.{mirror_window, guard}
use umleitung.Mirror.Pipeline.{PendingCopy}
use umleitung.Mirror.Repeat.{IsSame, mirror_window-IsSame}
use umleitung.Mirror.Guarded.{GuardLaws, IsDropped, guard-IsDropped}
use umleitung.Tests.Toy.{keep, ok-injective, toy, options, start, meta_of, message_one}

recorded :
    All
      (λ m. has_row (dedup_key toy.hex_sha256 m) start.conn.db.copied ≡ true)
      (meta_of message_one ∷ [])
unfolding has_row dedup_key trim_space ◌==◌
recorded = (refl, tt)

mirror_window-IsSame_example :
    IsSame toy options start.conn.db start.src start.dst
      (mirror_window toy options (meta_of message_one ∷ []) start).1
mirror_window-IsSame_example =
    mirror_window-IsSame toy options (meta_of message_one ∷ []) start recorded

-- each folder shows all that the destination has
abbrev InToy : Text → Text → List Text → Type 0
InToy f k s = contains s k ≡ true

contains-keep :
    (p : Text → Bool) (ids : List Text) (k : Text)
    → contains (keep p ids) k ≡ (contains ids k && p k)
contains-keep p [] k = refl
contains-keep p (x ∷ ids) k = elim (Bool-cases (x == k)) [
  | inl e ↦
      let ih = contains-keep p ids k in
      let same = (eq_iff x k).0 e in let kept = ap p same in ground arith
  | inr e ↦ let ih = contains-keep p ids k in ground arith
]

toy_found :
    (k : Text) (ids ks s : List Text)
    → contains s k ≡ true
    → contains ids k ≡ true
    → ok (keep (contains s) ids) ≡ ok ks
    → contains ks k ≡ true
toy_found k ids ks s h c e =
    let l = contains-keep (contains s) ids k in
    subst (λ xs. contains xs k ≡ true) (ok-injective (keep (contains s) ids) ks e) (ground arith)

toy-GuardLaws : GuardLaws toy InToy
toy-GuardLaws = record {
  keeps = λ f g k ids s h. h;
  finds = λ f k ids ks s h c e. toy_found k ids ks s h c e;
}

abbrev both : List PendingCopy
both =
    record { uid = 1; key = codes "one@x"; dest_folder = codes "INBOX" }
    ∷ record { uid = 2; key = codes "two@x"; dest_folder = codes "INBOX" }
    ∷ []

one-real : is_real_message_id (codes "one@x") ≡ true
unfolding is_real_message_id has_prefix ◌==◌
one-real = refl

inbox-bucket : contains (dest_bucket_folders options) (codes "INBOX") ≡ true
unfolding dest_bucket_folders ◌==◌
inbox-bucket = refl

one-stored : InToy (codes "INBOX") (codes "one@x") start.dst
unfolding dedup_key trim_space ◌==◌
one-stored = refl

guard-IsDropped_example :
    After
      (IsDropped toy options InToy toy-GuardLaws (codes "INBOX") (codes "one@x"))
      (λ v. Unit)
      (guard toy options both start)
guard-IsDropped_example =
    guard-IsDropped toy options InToy toy-GuardLaws (codes "INBOX") (codes "one@x") both start
      one-real inbox-bucket one-stored
