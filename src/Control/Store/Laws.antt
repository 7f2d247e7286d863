-- ===== src/Control/Store/Laws.antt =====
-- What is read of a table after a write, and what holds of the rows that decode.
use webperf_selfhosted.Base.{
  ℕ, String, ◌≡◌, refl, Bool, true, false, ◌||◌, none, some, List, [], ◌∷◌, map_get,
  map_get-map_set, any, if◌then◌else◌, ◌=ₛ◌, eq_iff, arith,
}
use webperf_selfhosted.Queue.Types.{Stored, sealed, corrupt}
use webperf_selfhosted.Control.Store.{
  get_entity, save_entity, delete_entity, decoded, insert_latest, latest_first,
}

module _ {E : Type 0} where
  pub get_entity-save_entity :
      (k j : String) (e : E) (rows : List (String × Stored E))
      → get_entity j (save_entity k e rows) ≡ (if k =ₛ j then some e else get_entity j rows)
  unfolding get_entity save_entity
  get_entity-save_entity k j e rows = ground (arith, map_get-map_set k j (sealed e) rows)

  pub get_entity-delete_entity :
      (k j : String) (rows : List (String × Stored E))
      → get_entity j (delete_entity k rows) ≡ (if j =ₛ k then none else get_entity j rows)
  unfolding get_entity delete_entity map_get
  get_entity-delete_entity k j [] = ground arith
  get_entity-delete_entity k j ((i, e) ∷ rows) =
      ground (arith, eq_iff i k, eq_iff i j, eq_iff j k, get_entity-delete_entity k j rows)

  -- What is read passes every test that all decoded rows pass.
  pub any-decoded :
      (q : E → Bool) (id : String) (rows : List (String × Stored E)) (e : E)
      → get_entity id rows ≡ some e
      → q e ≡ true
      → any q (decoded rows) ≡ true
  unfolding get_entity decoded map_get
  any-decoded q id [] e h t = absurd (cc)
  any-decoded q id ((k, sealed d) ∷ rows) e h t = ground (arith, h, t, any-decoded q id rows e)
  any-decoded q id ((k, corrupt) ∷ rows) e h t = ground (arith, h, t, any-decoded q id rows e)

  any-insert_latest :
      (q : E → Bool) (at : E → ℕ) (e : E) (es : List E)
      → any q (insert_latest at e es) ≡ (q e || any q es)
  unfolding insert_latest
  any-insert_latest q at e [] = refl
  any-insert_latest q at e (d ∷ es) = ground (arith, any-insert_latest q at e es)

  pub any-latest_first :
      (q : E → Bool) (at : E → ℕ) (es : List E) → any q (latest_first at es) ≡ any q es
  unfolding latest_first
  any-latest_first q at [] = refl
  any-latest_first q at (e ∷ es) =
      ground (arith, any-insert_latest q at e (latest_first at es), any-latest_first q at es)

  -- No row that is read passes a test that no listed row passes.
  pub none_listed :
      (q : E → Bool) (at : E → ℕ) (id : String) (rows : List (String × Stored E)) (e : E)
      → any q (latest_first at (decoded rows)) ≡ false
      → get_entity id rows ≡ some e
      → q e ≡ false
  none_listed q at id rows e n h =
      ground (arith, n, any-latest_first q at (decoded rows), any-decoded q id rows e)
