-- ===== src/Control/Integrity/Writes.antt =====
-- What a write that was not refused has checked.
use webperf_selfhosted.Base.{
  ℕ, String, ◌≡◌, refl, sym, ◌∙◌, Bool, true, false, ◌&&◌, Option, none, some, List, [], ◌∷◌, any,
  filter, eq_iff, arith,
}
use webperf_selfhosted.Queue.Types.{Stored}
use webperf_selfhosted.Control.Types.{Attempt, done, thrown}
use webperf_selfhosted.Control.Store.{get_entity, decoded, latest_first}
use webperf_selfhosted.Control.Store.Laws.{none_listed}
use webperf_selfhosted.Control.Inputs.{Platform, ◌>>=◌, is_other, unless_any, same_name}
use webperf_selfhosted.Control.Handlers.{or_of, id_of, is_none}
use webperf_selfhosted.Control.Integrity.Tables.{Keyed}

-- A chain that was done has done its first step and the rest.
pub done_bind {ℓ} :
    {A B : Type 0} {P : Type ℓ} (m : Attempt A) (f : A → Attempt B) (b : B)
    → ((a : A) → m ≡ done a → f a ≡ done b → P)
    → (m >>= f) ≡ done b
    → P
done_bind (done a) f b k h = k a refl h
done_bind (thrown e) f b k h = absurd (cc)

pub done_same : {A : Type 0} (a b : A) → done a ≡ done b → a ≡ b
done_same a b h = cc

pub none_clashes :
    {A : Type 0} (platform : Platform) (q : A → Bool) (xs : List A) (u : Unit {0})
    → unless_any platform q xs ≡ done u
    → any q xs ≡ false
none_clashes platform q xs u h = ground (arith, h)

own_id :
    (platform : Platform) (own : Option String) (id : String)
    → is_other platform own id ≡ false
    → own ≡ some id
own_id platform none id h = absurd (cc)
own_id platform (some own) id h = ground (arith, h, eq_iff id own)

written_id :
    {E : Type 0} (f : E → String) (existing : Option E) (fresh id : String)
    → id_of f existing ≡ some id
    → or_of existing f fresh ≡ id
written_id f none fresh id h = absurd (cc)
written_id f (some e) fresh id h = cc

and_true : (a b : Bool) → (a && b) ≡ false → b ≡ true → a ≡ false
and_true a b h t = ground (arith, h, t)

module _ {E : Type 0} (platform : Platform) (f : E → String) (rows : List (String × Stored E)) where
  -- A row that clashes with what is written is the row in its place.
  pub clash_in_place :
      (clash : E → Bool) (at : E → ℕ) (existing : Option E) (fresh : String)
      → Keyed f rows
      → any
          (λ e. is_other platform (id_of f existing) (f e) && clash e)
          (latest_first at (decoded rows))
        ≡ false
      → (j : String) (e : E) → get_entity j rows ≡ some e
      → clash e ≡ true
      → j ≡ or_of existing f fresh
  clash_in_place clash at existing fresh keys n j e g c =
      let alone =
        none_listed (λ e. is_other platform (id_of f existing) (f e) && clash e) at j rows e n g in
      let own =
        own_id platform (id_of f existing) (f e)
          (and_true (is_other platform (id_of f existing) (f e)) (clash e) alone c) in
      sym (keys j e g) ∙ sym (written_id f existing fresh (f e) own)

any-filter :
    {A : Type 0} (q : A → Bool) (xs : List A) → is_none (filter q xs) ≡ true → any q xs ≡ false
any-filter q [] h = refl
any-filter q (x ∷ xs) h = ground (arith, h, any-filter q xs)

-- No row that is read is one of those that the handler looked for and did not find.
pub none_found :
    {E : Type 0} (q : E → Bool) (at : E → ℕ) (rows : List (String × Stored E))
    → is_none (filter q (latest_first at (decoded rows))) ≡ true
    → (id : String) (e : E) → get_entity id rows ≡ some e
    → q e ≡ false
none_found q at rows n id e g =
    none_listed q at id rows e (any-filter q (latest_first at (decoded rows)) n) g

pub same_name_sym :
    (platform : Platform) (a b : String) → same_name platform a b ≡ same_name platform b a
same_name_sym platform a b = ground (
  arith,
  eq_iff (platform.lower_case a) (platform.lower_case b),
  eq_iff (platform.lower_case b) (platform.lower_case a),
)
