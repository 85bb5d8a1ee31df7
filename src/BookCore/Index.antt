-- ===== src/BookCore/Index.antt =====
-- exchange/matcher/book_core.cc: the index from a client's order number to the resting order.
use yquant_system.Base.{
  ℕ, ◌<◌, ◌≡◌, ◌≢◌, ◌⊎◌, Option, none, some, refl, sym, ◌∙◌, ap, update, update_self, update_ne,
  ne→==, subst, ◌==◌, Bool-cases, inl, inr, ==→eq, ==→ne, eq→==, Option-cases, lt→ltb,
}
use yquant_system.Types.{max_num_clients, max_order_ids}
use yquant_system.BookCore.{
  BookCore, OrderIdTable, ClientOrderIdTable, unindex_order, index_order, table_or_new,
}
use yquant_system.BookCore.Inv.{lookup}

-- The table once the entry of an order number is cleared, or set.
abbrev pub cleared : ClientOrderIdTable → ℕ → ℕ → ClientOrderIdTable
cleared orders c oid = elim (orders c) [
  | none ↦ orders
  | some table ↦ update orders c (some (update table oid none))
]

abbrev pub entered_at : ClientOrderIdTable → ℕ → ℕ → ℕ → ClientOrderIdTable
entered_at orders c oid i = update orders c (some (update (table_or_new (orders c)) oid (some i)))

pub unindex_order-eq :
    (c oid : ℕ) (b : BookCore)
    → c < max_num_clients
    → oid < max_order_ids
    → unindex_order c oid b ≡ some (record b { orders = cleared b.orders c oid })
unfolding unindex_order
unindex_order-eq c oid b h g = elim (Option-cases (b.orders c)) [
  | inl e ↦ rw (lt→ltb c max_num_clients h, e, cleared)
  | inr (table, e) ↦ rw (lt→ltb c max_num_clients h, e, cleared) (rw (lt→ltb oid max_order_ids g))
]

pub index_order-eq :
    (c oid i : ℕ) (b : BookCore)
    → c < max_num_clients
    → oid < max_order_ids
    → index_order c oid i b ≡ some (record b { orders = entered_at b.orders c oid i })
unfolding index_order
index_order-eq c oid i b h g = rw (lt→ltb c max_num_clients h, lt→ltb oid max_order_ids g)

-- A lookup after the table of a client was replaced.
lookup_same :
    (orders : ClientOrderIdTable) (c c' oid : ℕ) (f : OrderIdTable)
    → c' ≡ c
    → lookup (update orders c (some f)) c' oid ≡ f oid
lookup_same orders c c' oid f e = rw (eq→== c' c e)

lookup_other :
    (orders : ClientOrderIdTable) (c c' oid : ℕ) (f : OrderIdTable)
    → c' ≢ c
    → lookup (update orders c (some f)) c' oid ≡ lookup orders c' oid
lookup_other orders c c' oid f e = rw (ne→== c' c e)

lookup_table :
    (orders : ClientOrderIdTable) (c c' oid : ℕ) (table : Option OrderIdTable)
    → orders c ≡ table
    → c' ≡ c
    → lookup orders c' oid ≡ table_or_new table oid
lookup_table orders c c' oid table e f =
    ap (λ n. lookup orders n oid) f ∙ ap (λ n. table_or_new n oid) e

cleared_table :
    (table : OrderIdTable) (oid oid' j : ℕ)
    → update table oid none oid' ≡ some j
    → (table oid' ≡ some j) × (oid' ≢ oid)
cleared_table table oid oid' j h = elim (Bool-cases (oid' == oid)) [
  | inl e ↦
      let k = ap (update table oid none) (==→eq oid' oid e) ∙ update_self table oid none in
      cc (sym k ∙ h)
  | inr e ↦ (sym (update_ne table oid oid' none (==→ne oid' oid e)) ∙ h, ==→ne oid' oid e)
]

-- What the index still says after one number was cleared was said before, and is of another number.
pub lookup-cleared :
    (orders : ClientOrderIdTable) (c oid c' oid' j : ℕ)
    → lookup (cleared orders c oid) c' oid' ≡ some j
    → (lookup orders c' oid' ≡ some j) × ((c' ≡ c) → (oid' ≢ oid))
lookup-cleared orders c oid c' oid' j h = elim (Option-cases (orders c)) [
  | inl e ↦
      let same : cleared orders c oid ≡ orders = rw (e, cleared) in
      let h' = subst (λ o. lookup o c' oid' ≡ some j) same h in
      (h', λ f g. cc (sym (lookup_table orders c c' oid' none e f) ∙ h'))
  | inr (table, e) ↦
      let same : cleared orders c oid ≡ update orders c (some (update table oid none)) =
        rw (e, cleared) in
      let h' = subst (λ o. lookup o c' oid' ≡ some j) same h in
      elim (Bool-cases (c' == c)) [
        | inl f ↦
            let m = ==→eq c' c f in
            let (a, d) =
              cleared_table table oid oid' j
                (sym (lookup_same orders c c' oid' (update table oid none) m) ∙ h') in
            (lookup_table orders c c' oid' (some table) e m ∙ a, λ _. d)
        | inr f ↦
            let m = ==→ne c' c f in
            (sym (lookup_other orders c c' oid' (update table oid none) m) ∙ h', λ g. absurd (m g))
      ]
]

-- What the index says after one number was entered is that entry, or was said before.
pub lookup-entered_at :
    (orders : ClientOrderIdTable) (c oid i c' oid' j : ℕ)
    → lookup (entered_at orders c oid i) c' oid' ≡ some j
    → ((c' ≡ c) × (oid' ≡ oid) × (j ≡ i)) ⊎ (lookup orders c' oid' ≡ some j)
lookup-entered_at orders c oid i c' oid' j h =
    let f = update (table_or_new (orders c)) oid (some i) in
    elim (Bool-cases (c' == c)) [
      | inl e ↦
          let m = ==→eq c' c e in
          let k = sym (lookup_same orders c c' oid' f m) ∙ h in
          elim (Bool-cases (oid' == oid)) [
            | inl g ↦
                let n = ==→eq oid' oid g in
                let s : some i ≡ some j =
                  sym (ap f n ∙ update_self (table_or_new (orders c)) oid (some i)) ∙ k in
                inl (m, n, cc s)
            | inr g ↦ inr (
                lookup_table orders c c' oid' (orders c) refl m
                ∙ sym (update_ne (table_or_new (orders c)) oid oid' (some i) (==→ne oid' oid g))
                ∙ k)
          ]
      | inr e ↦ inr (sym (lookup_other orders c c' oid' f (==→ne c' c e)) ∙ h)
    ]
