-- ===== src/Replication/Sql/Rows.antt =====
-- The statement for an event does not depend on the order in which a map gives its entries, which
-- Go leaves open.
use mathlib.Core.List.{Permᴰ, Nodup, Nodup-cons, Mem, mem-cons_self}
use mathlib.Core.List.Perm
use mathlib.Core.List.Permᴰ
use cloud_comp_project.Base.{
  ℕ, ◌≡◌, ◌≢◌, inl, inr, refl, sym, ◌∙◌, subst, Bool-cases, List, [], ◌∷◌, map, Text, text_eq,
  text_eq-eq, is_empty,
}
use cloud_comp_project.Interfaces.{
  Value, Row, ChangeEvent, Operation, operation_insert, operation_update, operation_delete,
  operation_other, Result, ok, err,
}
use cloud_comp_project.Replication.Sql.{
  SqlError, lookup, sorted_keys, build_insert_sql, build_where_clause, build_update_sql,
  build_delete_sql, choose_predicate_row, build_dml, after_set, statement_for, after_table,
}
use cloud_comp_project.Replication.Sql.Order.{sort-Perm}

abbrev pub keys : Row → List Text
keys row = map (λ entry. entry.0) row

-- The rows are the same map, given in two orders.
pub record SameMap (row row' : Row) : Type 0 where
  pub distinct : Nodup (keys row)
  pub reordered : Permᴰ row row'

lookup_swap :
    (k l : Text) (v w : Value) (row : Row) (key : Text)
    → k ≢ l
    → lookup ((k, v) ∷ (l, w) ∷ row) key ≡ lookup ((l, w) ∷ (k, v) ∷ row) key
unfolding lookup
lookup_swap k l v w row key h = elim (Bool-cases (text_eq k key)) [
  | inl is_k ↦ elim (Bool-cases (text_eq l key)) [
    | inl is_l ↦ absurd (h (text_eq-eq k key is_k ∙ sym (text_eq-eq l key is_l)))
    | inr other ↦ rw (is_k, other) refl
  ]
  | inr other ↦ rw other refl
]

keys_distinct : {row row' : Row} → Permᴰ row row' → Nodup (keys row) → Nodup (keys row')
keys_distinct d h = Perm.nodup (Perm.map (λ entry. entry.0) ∣ d ∣₁) h

lookup_same :
    {row row' : Row}
    → Permᴰ row row'
    → Nodup (keys row)
    → (key : Text) → lookup row key ≡ lookup row' key
unfolding lookup
lookup_same Permᴰ.nil h key = refl
lookup_same (Permᴰ.cons {a} {b} e d) h key = rw (e, lookup_same d (Nodup-cons.0 h).1 key) refl
lookup_same (Permᴰ.swap {a} {b} {l = l} e e') h key =
    rw (← e, ← e')
      (lookup_swap a.0 b.0 a.1 b.1 l key
        (λ p. (Nodup-cons.0 h).0 (subst (λ k. Mem k (b.0 ∷ keys l)) (sym p) mem-cons_self)))
lookup_same (Permᴰ.trans d d') h key = lookup_same d h key ∙ lookup_same d' (keys_distinct d h) key

emptiness_same : {row row' : Row} → Permᴰ row row' → is_empty row ≡ is_empty row'
emptiness_same Permᴰ.nil = refl
emptiness_same (Permᴰ.cons e d) = refl
emptiness_same (Permᴰ.swap e e') = refl
emptiness_same (Permᴰ.trans d d') = emptiness_same d ∙ emptiness_same d'

keys_same : {row row' : Row} → Permᴰ row row' → sorted_keys row ≡ sorted_keys row'
unfolding sorted_keys
keys_same d = sort-Perm (Permᴰ.map (λ entry. entry.0) d)

module _ {row row' : Row} (same : SameMap row row') where
  lookup_eq : lookup row ≡ lookup row'
  lookup_eq i key = lookup_same same.reordered same.distinct key i

  where_eq : (n : ℕ) → build_where_clause row n ≡ build_where_clause row' n
  unfolding build_where_clause
  where_eq n = rw (lookup_eq, keys_same same.reordered) refl

  insert_eq : (table : Text) → build_insert_sql table row ≡ build_insert_sql table row'
  unfolding build_insert_sql
  insert_eq table = rw (emptiness_same same.reordered, lookup_eq, keys_same same.reordered) refl

  delete_eq : (table : Text) → build_delete_sql table row ≡ build_delete_sql table row'
  unfolding build_delete_sql
  delete_eq table = rw (emptiness_same same.reordered, where_eq 1) refl

  after_set_eq :
      (table : Text) (n : ℕ) (r : Result SqlError (List Text × List Value))
      → after_set table row n r ≡ after_set table row' n r
  unfolding after_set
  after_set_eq table n (err e) = refl
  after_set_eq table n (ok (clauses, args)) = rw (where_eq n) refl

update_eq :
    {new new' old old' : Row}
    → SameMap new new'
    → SameMap old old'
    → (table : Text) → build_update_sql table new old ≡ build_update_sql table new' old'
unfolding build_update_sql
update_eq same same' table =
    rw
      (
        emptiness_same same.reordered,
        emptiness_same same'.reordered,
        lookup_eq same,
        keys_same same.reordered,
        after_set_eq same',
      )
      refl

choose_same :
    {new new' old old' : Row}
    → SameMap new new'
    → SameMap old old'
    → SameMap (choose_predicate_row old new) (choose_predicate_row old' new')
unfolding choose_predicate_row
choose_same {old = []} {old' = []} same same' = same
choose_same {old = []} {old' = _ ∷ _} same same' = let e = emptiness_same same'.reordered in cc
choose_same {old = _ ∷ _} {old' = []} same same' = let e = emptiness_same same'.reordered in cc
choose_same {old = _ ∷ _} {old' = _ ∷ _} same same' = same'

statement_eq :
    (table : Text) (op : Operation) {new new' old old' : Row}
    → SameMap new new'
    → SameMap old old'
    → statement_for table op old new ≡ statement_for table op old' new'
unfolding statement_for
statement_eq table operation_insert same same' = insert_eq same table
statement_eq table operation_update same same' = update_eq same (choose_same same same') table
statement_eq table operation_delete same same' = delete_eq (choose_same same same') table
statement_eq table (operation_other op) same same' = refl

table_eq :
    (event : ChangeEvent) (table : Result Text Text) (old new : Row)
    → SameMap event.new_row new
    → SameMap event.old_row old
    → after_table event table ≡ after_table (record event { old_row = old; new_row = new }) table
unfolding after_table
table_eq event (err name) old new same same' = refl
table_eq event (ok table) old new same same' = statement_eq table event.operation same same'

-- If the keys of each row are distinct, as those of a map are, then the statement for an event and
-- its arguments, or the error, are the same for every order of the entries of its rows.
pub build_dml-SameMap :
    (event : ChangeEvent) (old new : Row)
    → SameMap event.new_row new
    → SameMap event.old_row old
    → build_dml event ≡ build_dml (record event { old_row = old; new_row = new })
unfolding build_dml
build_dml-SameMap event old new same same' = table_eq event _ old new same same'
