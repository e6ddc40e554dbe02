-- ===== src/Daemon/Persist/Accepted.antt =====
-- What `validate_persisted_state` of src/daemon/persist.rs has checked of the state that it accepts.
use browserkit.Common.{
  ◌≡◌, refl, ap, subst, sym, ◌∙◌, ◌⊎◌, inl, inr, true, false, List, [], ◌∷◌, String, Bool-cases,
  Option-cases, ◌==◌, string_eq, arith, has, add, has-add,
}
use browserkit.Common.Assoc.{Assoc, lookup, insert, contains_key, lookup-insert}
use browserkit.Daemon.Session.{SessionTab}
use browserkit.Daemon.Targets.Owner.{IsActive}
use browserkit.Daemon.Persist.{PersistedSessionTabV1, PersistedSessionV1, into_tab, into_tabs}
use browserkit.Daemon.Persist.Validate.{
  Check, and_then, is_padded, check_name, check_host, check_mode, Seen, check_tab, check_tabs,
  check_active, check_session,
}

pub and_then-passed :
    {A B : Type 0} (c : Check A) (f : A → Check B) (b : B)
    → and_then c f ≡ inr b
    → (a : A) × (c ≡ inr a) × (f a ≡ inr b)
and_then-passed (inl e) f b h = cc
and_then-passed (inr a) f b h = (a, refl, h)

-- What a pass over the tabs has found, and the map that a restore builds of them.
pub record AreFresh (mine all mine' all' : List String) (tabs : Assoc String SessionTab)
    : Type 0 where
  pub keys : (t : String) → contains_key t tabs ≡ has t mine'
  pub kept : (t : String) → has t all ≡ true → has t all' ≡ true
  pub fresh :
      (t : String)
      → has t mine' ≡ true
      → (has t mine ≡ true) ⊎ ((has t all ≡ false) × (has t all' ≡ true))

List-cases : {A : Type 0} (l : List A) → (l ≡ []) ⊎ ((x : A) × (xs : List A) × (l ≡ x ∷ xs))
List-cases [] = inl refl
List-cases (x ∷ xs) = inr (x, xs, refl)

module _ (trim : String → String) where
  -- A tab that passes has a trimmed target that no session has named.
  check_tab-passed :
      (p : PersistedSessionV1) (tab : PersistedSessionTabV1) (mine all : List String) (seen : Seen)
      → check_tab trim p tab (mine, all) ≡ inr seen
      → (has tab.target_id all ≡ false) × (seen ≡ (add tab.target_id mine, add tab.target_id all))
  unfolding check_tab is_padded
  check_tab-passed p tab mine all seen h =
      ground (arith, string_eq.beq_iff (trim tab.target_id) tab.target_id)

  check_tabs-passed :
      (p : PersistedSessionV1) (ts : List PersistedSessionTabV1) (mine all mine' all' : List String)
      (m : Assoc String SessionTab)
      → ((t : String) → contains_key t m ≡ has t mine)
      → check_tabs trim p ts (mine, all) ≡ inr (mine', all')
      → AreFresh mine all mine' all' (into_tabs ts m)
  unfolding check_tabs into_tabs
  check_tabs-passed p [] mine all mine' all' m keys h =
      let same : mine ≡ mine' = ground arith in
      let same_all : all ≡ all' = ground arith in
      record {
        keys = λ t. keys t ∙ ap (has t) same;
        kept = λ t there. sym (ap (has t) same_all) ∙ there;
        fresh = λ t there. inl (ap (has t) same ∙ there);
      }
  check_tabs-passed p (tab ∷ ts) mine all mine' all' m keys h =
      let (seen, first, rest) =
        and_then-passed (check_tab trim p tab (mine, all)) (check_tabs trim p ts) (mine', all') h in
      let (free, same) = check_tab-passed p tab mine all seen first in
      let target = tab.target_id in
      let next : check_tabs trim p ts (add target mine, add target all) ≡ inr (mine', all') =
        ap (check_tabs trim p ts) (sym same) ∙ rest in
      let found =
        check_tabs-passed p ts (add target mine) (add target all) mine' all'
          (insert target (into_tab tab) m)
          (λ t.
            ground (arith, lookup-insert target t (into_tab tab) m, has-add target t mine, keys t))
          next in
      record {
        keys = found.keys;
        kept = λ t there. found.kept t (ground (arith, has-add target t all));
        fresh = λ t there. elim (found.fresh t there) [
          | inr (out, into) ↦ inr (ground (arith, has-add target t all), into)
          | inl old ↦ elim (Bool-cases (target == t)) [
            | inl e ↦
                let is = (string_eq.beq_iff target t).0 e in
                inr (
                  subst (λ x. has x all ≡ false) is free,
                  found.kept t (ground (arith, has-add target t all)),
                )
            | inr e ↦ inl (ground (arith, has-add target t mine))
          ]
        ];
      }

  -- What a session that passes adds, and that its restored session is valid.
  pub record IsAccepted (p : PersistedSessionV1) (all all' : List String) : Type 0 where
    pub mine : List String
    pub tabs : AreFresh [] all mine all' (into_tabs p.tabs [])
    pub active : IsActive p.active_target (into_tabs p.tabs [])
    pub trimmed : trim p.name ≡ p.name

  check_active-passed :
      (p : PersistedSessionV1) (mine all seen : List String)
      → ((t : String) → contains_key t (into_tabs p.tabs []) ≡ has t mine)
      → check_active trim p (mine, all) ≡ inr seen
      → (seen ≡ all) × IsActive p.active_target (into_tabs p.tabs [])
  unfolding check_active into_tabs
  check_active-passed p mine all seen keys h = elim (Option-cases p.active_target) [
    | inl e ↦ elim (List-cases p.tabs) [
      | inl none_left ↦ (ground arith, rw (e, none_left) refl)
      | inr (t, ts, some_left) ↦ ground arith
    ]
    | inr (a, e) ↦
        let listed : has a mine ≡ true = ground arith in (ground arith, rw e (keys a ∙ listed))
  ]

  pub check_session-passed :
      (p : PersistedSessionV1) (names all names' all' : List String)
      → check_session trim p (names, all) ≡ inr (names', all')
      → IsAccepted p all all'
  unfolding check_session check_name is_padded has lookup
  check_session-passed p names all names' all' h =
      let (n, name_ok, h1) = and_then-passed (check_name trim p names) _ (names', all') h in
      let (u, host_ok, h2) = and_then-passed (check_host trim p) _ (names', all') h1 in
      let (v, mode_ok, h3) = and_then-passed (check_mode trim p) _ (names', all') h2 in
      let (seen, tabs_ok, h4) =
        and_then-passed (check_tabs trim p p.tabs ([], all)) _ (names', all') h3 in
      let (all2, active_ok, h5) = and_then-passed (check_active trim p seen) _ (names', all') h4 in
      let found = check_tabs-passed p p.tabs [] all seen.0 seen.1 [] (λ t. refl) tabs_ok in
      let (same, active) = check_active-passed p seen.0 seen.1 all2 found.keys active_ok in
      let same_all : all2 ≡ all' = ground arith in
      record {
        mine = seen.0;
        tabs =
            subst (λ x. AreFresh [] all seen.0 x (into_tabs p.tabs [])) (sym same ∙ same_all) found;
        active = active;
        trimmed = ground (arith, string_eq.beq_iff (trim p.name) p.name);
      }
