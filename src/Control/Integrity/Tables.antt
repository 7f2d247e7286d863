-- ===== src/Control/Integrity/Tables.antt =====
-- Tables whose rows stand under their ids, and whose rows do not clash.
use webperf_selfhosted.Base.{
  ℕ, ltb, String, ◌≡◌, refl, sym, ap, ◌∙◌, Bool, true, false, none, some, List, [], ◌∷◌, map_keys,
  includes, includes-map_keys-map_set, Unique, All, ◌=ₛ◌, eq_iff, arith, Bool-cases, inl, inr,
  map_get, map_set,
}
use webperf_selfhosted.Queue.Types.{Stored, sealed, corrupt}
use webperf_selfhosted.Control.Store.{
  get_entity, save_entity, delete_entity, decoded, insert_latest, latest_first,
}
use webperf_selfhosted.Control.Store.Laws.{get_entity-save_entity, get_entity-delete_entity}

pub All-map {ℓ κ κ'} :
    {A : Type ℓ} (P : A → Type κ) (Q : A → Type κ')
    → ((a : A) → P a → Q a)
    → (xs : List A) → All P xs
    → All Q xs
All-map P Q f [] h = tt
All-map P Q f (x ∷ xs) h = (f x h.0, All-map P Q f xs h.1)

module _ {E : Type 0} where
  abbrev pub Keyed : (E → String) → List (String × Stored E) → Type 0
  Keyed id_of rows = (k : String) (e : E) → get_entity k rows ≡ some e → id_of e ≡ k

  -- Rows that clash are one row.
  abbrev pub Apart : (E → E → Bool) → List (String × Stored E) → Type 0
  Apart clash rows =
      (i j : String) (d e : E)
      → get_entity i rows ≡ some d
      → get_entity j rows ≡ some e
      → clash d e ≡ true
      → i ≡ j

  -- Reading after a write: what was written, or what was there.
  pub read_saved :
      (k j : String) (v e : E) (rows : List (String × Stored E))
      → get_entity j (save_entity k v rows) ≡ some e
      → (k =ₛ j) ≡ true
      → v ≡ e
  read_saved k j v e rows h t = ground (arith, get_entity-save_entity k j v rows)

  pub read_other :
      (k j : String) (v e : E) (rows : List (String × Stored E))
      → get_entity j (save_entity k v rows) ≡ some e
      → (k =ₛ j) ≡ false
      → get_entity j rows ≡ some e
  read_other k j v e rows h t = ground (arith, get_entity-save_entity k j v rows)

  pub read_left :
      (k j : String) (e : E) (rows : List (String × Stored E))
      → get_entity j (delete_entity k rows) ≡ some e
      → get_entity j rows ≡ some e
  read_left k j e rows h = ground (arith, get_entity-delete_entity k j rows)

  pub Keyed-save_entity :
      (id_of : E → String) (v : E) (rows : List (String × Stored E))
      → Keyed id_of rows
      → Keyed id_of (save_entity (id_of v) v rows)
  Keyed-save_entity id_of v rows h k e g = elim (Bool-cases (id_of v =ₛ k)) [
    | inl t ↦
        let same = read_saved (id_of v) k v e rows g t in
        ap id_of (sym same) ∙ (eq_iff (id_of v) k).0 t
    | inr t ↦ h k e (read_other (id_of v) k v e rows g t)
  ]

  pub Keyed-delete_entity :
      (id_of : E → String) (id : String) (rows : List (String × Stored E))
      → Keyed id_of rows
      → Keyed id_of (delete_entity id rows)
  Keyed-delete_entity id_of id rows h k e g = h k e (read_left id k e rows g)

  pub Apart-delete_entity :
      (clash : E → E → Bool) (id : String) (rows : List (String × Stored E))
      → Apart clash rows
      → Apart clash (delete_entity id rows)
  Apart-delete_entity clash id rows h i j d e g f =
      h i j d e (read_left id i d rows g) (read_left id j e rows f)

  -- A row may be written that clashes only with the row in its place.
  pub Apart-save_entity :
      (clash : E → E → Bool) (k : String) (v : E) (rows : List (String × Stored E))
      → Apart clash rows
      → ((j : String) (e : E) → get_entity j rows ≡ some e → clash e v ≡ true → j ≡ k)
      → ((d e : E) → clash d e ≡ clash e d)
      → Apart clash (save_entity k v rows)
  Apart-save_entity clash k v rows h new symmetric i j d e g f c = elim (Bool-cases (k =ₛ i)) [
    | inl s ↦ elim (Bool-cases (k =ₛ j)) [
      | inl t ↦ sym ((eq_iff k i).0 s) ∙ (eq_iff k j).0 t
      | inr t ↦
          let same = read_saved k i v d rows g s in
          let clashes = ap (clash e) same ∙ symmetric e d ∙ c in
          sym ((eq_iff k i).0 s) ∙ sym (new j e (read_other k j v e rows f t) clashes)
    ]
    | inr s ↦ elim (Bool-cases (k =ₛ j)) [
      | inl t ↦
          let same = read_saved k j v e rows f t in
          new i d (read_other k i v d rows g s) (ap (clash d) same ∙ c) ∙ (eq_iff k j).0 t
      | inr t ↦ h i j d e (read_other k i v d rows g s) (read_other k j v e rows f t) c
    ]
  ]

  absent_after_set :
      (k j : String) (v : E) (rows : List (String × Stored E))
      → (j =ₛ k) ≡ false
      → includes j (map_keys rows) ≡ false
      → includes j (map_keys (map_set k (sealed v) rows)) ≡ false
  absent_after_set k j v rows t h =
      ground (arith, eq_iff k j, eq_iff j k, includes-map_keys-map_set k j (sealed v) rows)

  pub Unique-save_entity :
      (k : String) (v : E) (rows : List (String × Stored E))
      → Unique (map_keys rows)
      → Unique (map_keys (save_entity k v rows))
  unfolding save_entity map_set map_keys includes
  Unique-save_entity k v [] h = (refl, tt)
  Unique-save_entity k v ((j, w) ∷ rows) h = elim (Bool-cases (j =ₛ k)) [
    | inl t ↦ rw t h
    | inr t ↦
        let fresh = absent_after_set k j v rows t h.0 in
        rw t (fresh, Unique-save_entity k v rows h.1)
  ]

  includes-delete_entity :
      (k j : String) (rows : List (String × Stored E))
      → includes j (map_keys rows) ≡ false
      → includes j (map_keys (delete_entity k rows)) ≡ false
  unfolding delete_entity map_keys includes
  includes-delete_entity k j [] h = refl
  includes-delete_entity k j ((i, w) ∷ rows) h = ground (arith, h, includes-delete_entity k j rows)

  pub Unique-delete_entity :
      (k : String) (rows : List (String × Stored E))
      → Unique (map_keys rows)
      → Unique (map_keys (delete_entity k rows))
  unfolding delete_entity map_keys
  Unique-delete_entity k [] h = tt
  Unique-delete_entity k ((i, w) ∷ rows) h = elim (Bool-cases (i =ₛ k)) [
    | inl t ↦ rw t (Unique-delete_entity k rows h.1)
    | inr t ↦ rw t (includes-delete_entity k i rows h.0, Unique-delete_entity k rows h.1)
  ]

  absent :
      (j : String) (rows : List (String × Stored E))
      → includes j (map_keys rows) ≡ false
      → get_entity j rows ≡ none
  unfolding get_entity map_get map_keys includes
  absent j [] h = refl
  absent j ((k, w) ∷ rows) h = ground (arith, h, absent j rows)

  abbrev AtItsKey : (E → String) → List (String × Stored E) → E → Type 0
  AtItsKey id_of rows e = get_entity (id_of e) rows ≡ some e

  read_below :
      (k j : String) (w : Stored E) (e : E) (rows : List (String × Stored E))
      → includes k (map_keys rows) ≡ false
      → get_entity j rows ≡ some e
      → get_entity j ((k, w) ∷ rows) ≡ some e
  unfolding get_entity map_get
  read_below k j w e rows f g = ground (arith, absent k rows, eq_iff k j, f, g)

  read_first :
      (k j : String) (e : E) (rows : List (String × Stored E))
      → j ≡ k
      → get_entity j ((k, sealed e) ∷ rows) ≡ some e
  unfolding get_entity map_get
  read_first k j e rows same = ground (arith, eq_iff k j)

  -- Where no key stands twice, every row that decodes is what is read under its id.
  pub decoded-AtItsKey :
      (id_of : E → String) (rows : List (String × Stored E))
      → Unique (map_keys rows)
      → Keyed id_of rows
      → All (AtItsKey id_of rows) (decoded rows)
  unfolding decoded map_keys
  decoded-AtItsKey id_of [] u h = tt
  decoded-AtItsKey id_of ((k, corrupt) ∷ rows) u h =
      let tail : Keyed id_of rows = λ j e g. h j e (read_below k j corrupt e rows u.0 g) in
      All-map (AtItsKey id_of rows) (AtItsKey id_of ((k, corrupt) ∷ rows))
        (λ e g. read_below k (id_of e) corrupt e rows u.0 g) (decoded rows)
        (decoded-AtItsKey id_of rows u.1 tail)
  decoded-AtItsKey id_of ((k, sealed d) ∷ rows) u h =
      let tail : Keyed id_of rows = λ j e g. h j e (read_below k j (sealed d) e rows u.0 g) in
      let own = h k d (read_first k k d rows refl) in
      (
        read_first k (id_of d) d rows own,
        All-map (AtItsKey id_of rows) (AtItsKey id_of ((k, sealed d) ∷ rows))
            (λ e g. read_below k (id_of e) (sealed d) e rows u.0 g) (decoded rows)
            (decoded-AtItsKey id_of rows u.1 tail),
      )

  All-insert_latest {κ} :
      (P : E → Type κ) (at : E → ℕ) (e : E) (es : List E)
      → P e
      → All P es
      → All P (insert_latest at e es)
  unfolding insert_latest
  All-insert_latest P at e [] p h = (p, tt)
  All-insert_latest P at e (d ∷ es) p h = elim (Bool-cases (ltb (at e) (at d))) [
    | inl t ↦ rw t (h.0, All-insert_latest P at e es p h.1)
    | inr t ↦ rw t (p, h)
  ]

  pub All-latest_first {κ} :
      (P : E → Type κ) (at : E → ℕ) (es : List E) → All P es → All P (latest_first at es)
  unfolding latest_first
  All-latest_first P at [] h = tt
  All-latest_first P at (e ∷ es) h =
      All-insert_latest P at e (latest_first at es) h.0 (All-latest_first P at es h.1)
