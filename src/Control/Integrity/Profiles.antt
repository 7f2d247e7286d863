-- ===== src/Control/Integrity/Profiles.antt =====
-- The requests on check profiles keep the entities consistent.
use webperf_selfhosted.Base.{
  ℕ, zero, String, ◌≡◌, refl, sym, ap, ◌∙◌, true, ◌&&◌, Option, none, some, ◌=ₛ◌, eq_iff, arith,
  Bool-cases, inl, inr, subst,
}
use webperf_selfhosted.Queue.Types.{Database}
use webperf_selfhosted.Control.Types.{
  Property, RouteSet, CheckProfile, CheckProfileInput, Store, Attempt, done, thrown,
}
use webperf_selfhosted.Control.Store.{get_entity, list_check_profiles, save_check_profile}
use webperf_selfhosted.Control.Store.Laws.{get_entity-save_entity}
use webperf_selfhosted.Control.Inputs.{
  Platform, require_trimmed_text, normalize_custom_request_config, ensure_unique_check_profile,
  same_name,
}
use webperf_selfhosted.Control.ProfileInputs.{and_then, normalize_alert_config}
use webperf_selfhosted.Control.Handlers.{id_of}
use webperf_selfhosted.Control.Profiles.{build_check_profile, check_profile_saved, of_property}
use webperf_selfhosted.Control.Integrity.{IsConsistent, profile_clash, property_id_of}
use webperf_selfhosted.Control.Integrity.Tables.{
  Keyed-save_entity, Apart-save_entity, Unique-save_entity, read_saved, read_other,
}
use webperf_selfhosted.Control.Integrity.Writes.{
  done_bind, done_same, none_clashes, clash_in_place, same_name_sym,
}

clash_sym :
    (platform : Platform) (p q : CheckProfile)
    → profile_clash platform p q ≡ profile_clash platform q p
clash_sym platform p q = ground (
  arith,
  same_name_sym platform p.name q.name,
  eq_iff p.property_id q.property_id,
  eq_iff q.property_id p.property_id,
)

-- What the consistency of the entities reads of a profile.
abbrev pub Alike : CheckProfile → CheckProfile → Type 0
Alike p q =
    (p.id ≡ q.id)
    × (p.property_id ≡ q.property_id)
    × (p.route_set_id ≡ q.route_set_id)
    × (p.name ≡ q.name)

-- The profile that is stored under the id is the same, but for what a run or a review changes.
abbrev pub IsCurrent : Store → CheckProfile → Type 0
IsCurrent store p = (q : CheckProfile) × (get_entity p.id store.check_profiles ≡ some q) × Alike p q

Alike-both : (p q v : CheckProfile) → Alike v q → Alike p q → Alike p v
Alike-both p q v same alike =
    (alike.0 ∙ sym same.0, alike.1 ∙ sym same.1, alike.2 ∙ sym same.2, alike.3 ∙ sym same.3)

some_same :
    (store : Store) (i j : String) (w q : CheckProfile)
    → get_entity i store.check_profiles ≡ some w
    → get_entity j store.check_profiles ≡ some q
    → i ≡ j
    → w ≡ q
some_same store i j w q h k ids = cc (h, k, ap (λ id. get_entity id store.check_profiles) ids)

pub IsCurrent-save_check_profile :
    (store : Store) (v p : CheckProfile)
    → IsCurrent store v
    → IsCurrent store p
    → IsCurrent (save_check_profile v store) p
IsCurrent-save_check_profile store v p (w, stored, same) (q, found, alike) =
    elim (Bool-cases (v.id =ₛ p.id)) [
      | inl t ↦
          let one = some_same store v.id p.id w q stored found ((eq_iff v.id p.id).0 t) in
          let like = Alike-both p q v (subst (Alike v) one same) alike in
          (v, get_entity-save_entity v.id p.id v store.check_profiles ∙ rw t refl, like)
      | inr t ↦ (q, get_entity-save_entity v.id p.id v store.check_profiles ∙ rw t found, alike)
    ]

Alike-clash :
    (platform : Platform) (e v q : CheckProfile)
    → Alike v q
    → profile_clash platform e q ≡ profile_clash platform e v
Alike-clash platform e v q same = cc (same.1, same.3)

module _ (platform : Platform) (store : Store) (c : IsConsistent platform store) where
  pub IsConsistent-database :
      (db : Database) → IsConsistent platform (record store { database = db })
  IsConsistent-database db = record {
    property_keys = c.property_keys;
    route_set_keys = c.route_set_keys;
    profile_keys = c.profile_keys;
    profile_once = c.profile_once;
    route_set_property = c.route_set_property;
    profile_route_set = c.profile_route_set;
    property_names = c.property_names;
    route_set_names = c.route_set_names;
    profile_names = c.profile_names;
  }

  abbrev pub IsInPlace : CheckProfile → Type 0
  IsInPlace v =
      (j : String) (e : CheckProfile)
      → get_entity j store.check_profiles ≡ some e
      → profile_clash platform e v ≡ true
      → j ≡ v.id

  pub save_check_profile-IsConsistent :
      (v : CheckProfile)
      → IsInPlace v
      → property_id_of (get_entity v.route_set_id store.route_sets) ≡ some v.property_id
      → IsConsistent platform (save_check_profile v store)
  save_check_profile-IsConsistent v new owner = record {
    property_keys = c.property_keys;
    route_set_keys = c.route_set_keys;
    profile_keys =
        Keyed-save_entity (λ (p : CheckProfile). p.id) v store.check_profiles c.profile_keys;
    profile_once = Unique-save_entity v.id v store.check_profiles c.profile_once;
    route_set_property = c.route_set_property;
    profile_route_set = λ j p g. elim (Bool-cases (v.id =ₛ j)) [
      | inl t ↦
          let same = read_saved v.id j v p store.check_profiles g t in
          subst
            (λ (w : CheckProfile).
              property_id_of (get_entity w.route_set_id store.route_sets) ≡ some w.property_id)
            same owner
      | inr t ↦ c.profile_route_set j p (read_other v.id j v p store.check_profiles g t)
    ];
    property_names = c.property_names;
    route_set_names = c.route_set_names;
    profile_names =
        Apart-save_entity (profile_clash platform) v.id v store.check_profiles c.profile_names new
          (clash_sym platform);
  }

  -- A profile may be written over one that is like it.
  pub save_current-IsConsistent :
      (v : CheckProfile) → IsCurrent store v → IsConsistent platform (save_check_profile v store)
  save_current-IsConsistent v (q, stored, same) =
      save_check_profile-IsConsistent v
        (λ j e g clash.
          c.profile_names j v.id e q g stored (Alike-clash platform e v q same ∙ clash))
        (ap (λ id. property_id_of (get_entity id store.route_sets)) same.2
          ∙ c.profile_route_set v.id q stored
          ∙ ap some (sym same.1))

  -- What is built refers to the route set, and may be written.
  abbrev IsBuilt : Property → RouteSet → CheckProfile → Type 0
  IsBuilt property route_set v =
      IsInPlace v × (v.property_id ≡ property.id) × (v.route_set_id ≡ route_set.id)

  built :
      (existing : Option CheckProfile) (input : CheckProfileInput) (property : Property)
      (route_set : RouteSet) (now : ℕ) (v : CheckProfile)
      → build_check_profile platform existing input property route_set now store ≡ done v
      → IsBuilt property route_set v
  unfolding ensure_unique_check_profile list_check_profiles
  built existing input property route_set now v =
      done_bind (require_trimmed_text platform input.name) _ v λ name named.
        done_bind
          (normalize_custom_request_config platform input.request
            (and_then existing (λ p. p.request)))
          _ v
          λ request requested.
            done_bind
              (normalize_alert_config platform input.alerts (and_then existing (λ p. p.alerts))) _ v
              λ alerts alerted.
                done_bind
                  (ensure_unique_check_profile platform (id_of (λ p. p.id) existing) property.id
                    name (list_check_profiles store))
                  _ v
                  λ u checked written. subst (IsBuilt property route_set) (done_same _ v written) (
                    clash_in_place platform (λ p. p.id) store.check_profiles
                        (λ e. e.property_id =ₛ property.id && same_name platform e.name name)
                        (λ p. p.updated_at) existing (platform.fresh "profile_" zero) c.profile_keys
                        (none_clashes platform _ (list_check_profiles store) u checked),
                    refl,
                    refl,
                  )

  pub saved-IsConsistent :
      (existing : Option CheckProfile) (input : CheckProfileInput) (property : Property)
      (route_set : RouteSet) (now : ℕ) (a : Attempt CheckProfile)
      → property_id_of (get_entity route_set.id store.route_sets) ≡ some property.id
      → build_check_profile platform existing input property route_set now store ≡ a
      → IsConsistent platform (check_profile_saved existing a store).1
  saved-IsConsistent existing input property route_set now (thrown e) owner h = c
  saved-IsConsistent existing input property route_set now (done v) owner h =
      let facts = built existing input property route_set now v h in
      save_check_profile-IsConsistent v facts.0 (
        ap (λ id. property_id_of (get_entity id store.route_sets)) facts.2
        ∙ owner
        ∙ ap some (sym facts.1))

  pub of_property_owner :
      (id : String) (property : Property) (found : Option RouteSet) (route_set : RouteSet)
      → get_entity id store.route_sets ≡ found
      → of_property property found ≡ some route_set
      → property_id_of (get_entity route_set.id store.route_sets) ≡ some property.id
  of_property_owner id property none route_set h k = absurd (cc)
  of_property_owner id property (some r) route_set h k =
      let same : (r ≡ route_set) × (r.property_id ≡ property.id) =
        (ground (arith, k), ground (arith, k, eq_iff r.property_id property.id)) in
      let key = c.route_set_keys id r h in
      ap (λ (s : RouteSet). property_id_of (get_entity s.id store.route_sets)) (sym same.0)
      ∙ ap (λ k. property_id_of (get_entity k store.route_sets)) key
      ∙ ap property_id_of h
      ∙ ap some same.1
