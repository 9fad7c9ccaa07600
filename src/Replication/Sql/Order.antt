-- ===== src/Replication/Sql/Order.antt =====
-- The order of texts is total, and the sorted list of keys does not depend on their order.
use mathlib.Core.List.{Permᴰ}
use cloud_comp_project.Base.{
  ◌≡◌, inl, inr, refl, sym, ap, ◌∙◌, true, false, Bool-cases, List, [], ◌∷◌, arith, Text,
  if◌then◌else◌,
}
use cloud_comp_project.Replication.Sql.{text_leb, insert, sort}

text_leb-antisym : (s t : Text) → text_leb s t ≡ true → text_leb t s ≡ true → s ≡ t
unfolding text_leb
text_leb-antisym [] [] h h' = refl
text_leb-antisym [] (b ∷ t) h h' = cc
text_leb-antisym (a ∷ s) [] h h' = cc
text_leb-antisym (a ∷ s) (b ∷ t) h h' = ground (arith, text_leb-antisym s t)

text_leb-total : (s t : Text) → text_leb s t ≡ false → text_leb t s ≡ true
unfolding text_leb
text_leb-total [] t h = cc
text_leb-total (a ∷ s) [] h = refl
text_leb-total (a ∷ s) (b ∷ t) h = ground (arith, text_leb-total s t)

text_leb_trans : (s t u : Text) → text_leb s t ≡ true → text_leb t u ≡ true → text_leb s u ≡ true
unfolding text_leb
text_leb_trans [] t u h h' = refl
text_leb_trans (a ∷ s) [] u h h' = cc
text_leb_trans (a ∷ s) (b ∷ t) [] h h' = cc
text_leb_trans (a ∷ s) (b ∷ t) (c ∷ u) h h' = ground (arith, text_leb_trans s t u)

-- Two keys at the head of a sorted list may be inserted in either order.
insert_heads :
    (k l : Text) (ls : List Text)
    → (if text_leb k l then k ∷ l ∷ ls else l ∷ k ∷ ls)
      ≡ (if text_leb l k then l ∷ k ∷ ls else k ∷ l ∷ ls)
insert_heads k l ls = elim (Bool-cases (text_leb k l)) [
  | inl le ↦ elim (Bool-cases (text_leb l k)) [
    | inl ge ↦ let same = text_leb-antisym k l le ge in rw (le, ge) cc
    | inr lt ↦ rw (le, lt) refl
  ]
  | inr gt ↦ rw (gt, text_leb-total k l gt) refl
]

insert_le : (k m : Text) (ls : List Text) → text_leb k m ≡ true → insert k (m ∷ ls) ≡ k ∷ m ∷ ls
unfolding insert
insert_le k m ls h = rw h refl

insert_gt :
    (k m : Text) (ls : List Text) → text_leb k m ≡ false → insert k (m ∷ ls) ≡ m ∷ insert k ls
unfolding insert
insert_gt k m ls h = rw h refl

insert_two :
    (k l m : Text) (ls : List Text)
    → text_leb k m ≡ true
    → insert k (l ∷ m ∷ ls) ≡ (if text_leb k l then k ∷ l ∷ m ∷ ls else l ∷ k ∷ m ∷ ls)
insert_two k l m ls h = elim (Bool-cases (text_leb k l)) [
  | inl le ↦ rw (insert_le k l (m ∷ ls) le, le) refl
  | inr gt ↦ rw (insert_gt k l (m ∷ ls) gt, gt, insert_le k m ls h) refl
]

not_before : (k l m : Text) → text_leb k m ≡ true → text_leb l m ≡ false → text_leb l k ≡ false
not_before k l m km lm = elim (Bool-cases (text_leb l k)) [
  | inl le ↦ let lt = text_leb_trans l k m le km in cc
  | inr gt ↦ gt
]

insert_between :
    (k l m : Text) (ls : List Text)
    → text_leb k m ≡ true
    → text_leb l m ≡ false
    → insert k (insert l (m ∷ ls)) ≡ insert l (insert k (m ∷ ls))
insert_between k l m ls km lm =
    rw
      (
        insert_gt l m ls lm,
        insert_le k m (insert l ls) km,
        insert_le k m ls km,
        insert_gt l k (m ∷ ls) (not_before k l m km lm),
        insert_gt l m ls lm,
      )
      refl

insert_comm : (k l : Text) (ls : List Text) → insert k (insert l ls) ≡ insert l (insert k ls)
unfolding insert
insert_comm k l [] = insert_heads k l []
insert_comm k l (m ∷ ls) = elim (Bool-cases (text_leb k m)) [
  | inl km ↦ elim (Bool-cases (text_leb l m)) [
    | inl lm ↦
        ap (insert k) (insert_le l m ls lm)
        ∙ insert_two k l m ls km
        ∙ insert_heads k l (m ∷ ls)
        ∙ sym (insert_two l k m ls lm)
        ∙ ap (insert l) (sym (insert_le k m ls km))
    | inr lm ↦ insert_between k l m ls km lm
  ]
  | inr km ↦ elim (Bool-cases (text_leb l m)) [
    | inl lm ↦ sym (insert_between l k m ls lm km)
    | inr lm ↦
        ap (insert k) (insert_gt l m ls lm)
        ∙ insert_gt k m (insert l ls) km
        ∙ ap (λ t. m ∷ t) (insert_comm k l ls)
        ∙ sym (insert_gt l m (insert k ls) lm)
        ∙ ap (insert l) (sym (insert_gt k m ls km))
  ]
]

-- The sorted list does not depend on the order of the given one.
pub sort-Perm : {ks ls : List Text} → Permᴰ ks ls → sort ks ≡ sort ls
unfolding sort
sort-Perm Permᴰ.nil = refl
sort-Perm (Permᴰ.cons e d) = rw (e, sort-Perm d) refl
sort-Perm (Permᴰ.swap {a} {b} {a'} {b'} {l} e e') = rw (e, e') (insert_comm b' a' (sort l))
sort-Perm (Permᴰ.trans d d') = sort-Perm d ∙ sort-Perm d'
