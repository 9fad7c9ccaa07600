-- ===== src/Replication/Sql/Meaning/Entries.antt =====
-- The sorted keys of a row with their values are the entries of the row.
use mathlib.Core.List.{Permᴰ, Nodup, Nodup-cons, Mem, mem-cons_self, mem-cons_of_mem}
use mathlib.Core.List.Permᴰ
use cloud_comp_project.Base.{
  ◌≡◌, refl, sym, ap, ◌∙◌, subst, Bool, true, false, Bool-cases, inl, inr, List, [], ◌∷◌, Text,
  text_eq, text_eq_self, text_eq-eq, if◌then◌else◌,
}
use cloud_comp_project.Interfaces.{Value, Row}
use cloud_comp_project.Replication.Sql.{insert, sort, sorted_keys, lookup, text_leb}
use cloud_comp_project.Replication.Sql.Rows.{keys}
use cloud_comp_project.Replication.Sql.Reading.Loops.{pairs}
use cloud_comp_project.Replication.Sql.Meaning.Builders.{entries}

same_order : {A : Type 0} (ks : List A) → Permᴰ ks ks
same_order [] = Permᴰ.nil
same_order (k ∷ ks) = Permᴰ.cons refl (same_order ks)

inserted-Perm :
    (k l : Text) (ls rest : List Text) (b : Bool)
    → Permᴰ rest (k ∷ ls)
    → Permᴰ (if b then k ∷ l ∷ ls else l ∷ rest) (k ∷ l ∷ ls)
inserted-Perm k l ls rest true d = same_order (k ∷ l ∷ ls)
inserted-Perm k l ls rest false d = Permᴰ.trans (Permᴰ.cons refl d) (Permᴰ.swap refl refl)

insert-Perm : (k : Text) (ls : List Text) → Permᴰ (insert k ls) (k ∷ ls)
unfolding insert
insert-Perm k [] = same_order (k ∷ [])
insert-Perm k (l ∷ ls) = inserted-Perm k l ls (insert k ls) (text_leb k l) (insert-Perm k ls)

sort-Perm : (ks : List Text) → Permᴰ (sort ks) ks
unfolding sort
sort-Perm [] = Permᴰ.nil
sort-Perm (k ∷ ks) = Permᴰ.trans (insert-Perm k (sort ks)) (Permᴰ.cons refl (sort-Perm ks))

other_keys :
    (k : Text) (v : Value) (row : Row) (ks : List Text)
    → (Mem k ks → ⊥)
    → pairs (lookup ((k, v) ∷ row)) ks ≡ pairs (lookup row) ks
unfolding lookup
other_keys k v row [] h = refl
other_keys k v row (j ∷ ks) h = elim (Bool-cases (text_eq k j)) [
  | inl same ↦ absurd (h (subst (λ i. Mem i (j ∷ ks)) (sym (text_eq-eq k j same)) mem-cons_self))
  | inr other ↦
      rw other
        (ap (λ l. (j, lookup row j) ∷ l) (other_keys k v row ks (λ m. h (mem-cons_of_mem j m))))
]

own_entries : (row : Row) → Nodup (keys row) → pairs (lookup row) (keys row) ≡ row
unfolding lookup
own_entries [] h = refl
own_entries ((k, v) ∷ row) h =
    let rest = other_keys k v row (keys row) (Nodup-cons.0 h).0 in
    rw (text_eq_self k) (ap (λ l. (k, v) ∷ l) (rest ∙ own_entries row (Nodup-cons.0 h).1))

pub entries-Perm : (row : Row) → Nodup (keys row) → Permᴰ (entries row) row
unfolding sorted_keys
entries-Perm row h =
    subst (λ l. Permᴰ (entries row) l) (own_entries row h)
      (Permᴰ.map (λ k. (k, lookup row k)) (sort-Perm (keys row)))
