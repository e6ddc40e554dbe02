-- ===== src/Daemon/Targets/Owner.antt =====
-- Who owns a target, in the state of src/daemon/target_lifecycle.rs: the number of sessions that
-- hold it, and the invariant of the sessions.
use browserkit.Common.{
  ℕ, ◌≤◌, ◌≡◌, refl, Bool, true, false, Option, none, some, [], ◌∷◌, String, arith, if◌then◌else◌,
  ◌==◌, string_eq, Bool-cases, Option-cases, inl, inr,
}
use browserkit.Common.Assoc.{
  Assoc, lookup, modify, remove, contains_key, first_key, total, total-modify, modify_absent,
  UniqueKeys, AllValues, AllValues-modify, modify-UniqueKeys, insert-UniqueKeys, remove-UniqueKeys,
  lookup-insert, lookup-remove, lookup-modify,
}
use browserkit.Daemon.Session.{Session, SessionTab, touch, without_tab, is_target}
use browserkit.Daemon.Targets.{find_owner, add_reservation, drop_reservation, track_tab, retitle}

abbrev pub one_if : Bool → ℕ
one_if true = 1
one_if false = 0

abbrev pub has_tab : String → Session → ℕ
has_tab t s = one_if (contains_key t s.tabs)

-- How many sessions hold a target.
abbrev pub owners : String → Assoc String Session → ℕ
owners t = total (has_tab t)

abbrev pub IsActive : Option String → Assoc String SessionTab → Type 0
IsActive none tabs = tabs ≡ []
IsActive (some t) tabs = contains_key t tabs ≡ true

-- A session names a tab once, and its active target is one of its tabs: none exactly if it has none.
pub record TabsValid (s : Session) : Type 0 where
  pub unique : UniqueKeys s.tabs
  pub active : IsActive s.active_target s.tabs

-- Sessions have distinct names, their tabs are valid, and a target is in one session at most.
pub record Inv (m : Assoc String Session) : Type 0 where
  pub names : UniqueKeys m
  pub tabs : AllValues TabsValid m
  pub single : (t : String) → owners t m ≤ 1

pub find_owner-none :
    (t : String) (m : Assoc String Session) → find_owner t m ≡ none → owners t m ≡ 0
unfolding find_owner
find_owner-none t [] h = refl
find_owner-none t ((n, s) ∷ m) h = ground (arith, find_owner-none t m)

pub find_owner-contains :
    (t n : String) (m : Assoc String Session)
    → UniqueKeys m
    → find_owner t m ≡ some n
    → (s : Session) × (lookup n m ≡ some s) × (contains_key t s.tabs ≡ true)
unfolding find_owner lookup
find_owner-contains t n [] u h = cc
find_owner-contains t n ((k, s) ∷ m) u h = elim (Bool-cases (contains_key t s.tabs)) [
  | inl e ↦ (s, ground (arith, string_eq.beq_iff k n), e)
  | inr e ↦
      let (v, found, has) = find_owner-contains t n m u.1 (rw e at h) in
      (v, ground (arith, string_eq.beq_iff k n), has)
]

-- A change of one session that adds no tab.
owners-modify-le :
    (t n : String) (f : Session → Session) (m : Assoc String Session)
    → ((s : Session) → has_tab t (f s) ≤ has_tab t s)
    → owners t (modify n f m) ≤ owners t m
owners-modify-le t n f m h = elim (Option-cases (lookup n m)) [
  | inl e ↦ rw (modify_absent n f m e) (omega arith)
  | inr (s, e) ↦ omega (arith, total-modify (has_tab t) n f s m e, h s)
]

pub modify-Inv :
    (n : String) (f : Session → Session) (m : Assoc String Session)
    → ((s : Session) → TabsValid s → TabsValid (f s))
    → ((t : String) → owners t (modify n f m) ≤ 1)
    → Inv m
    → Inv (modify n f m)
modify-Inv n f m keep one v = record {
  names = modify-UniqueKeys n f m v.names;
  tabs = AllValues-modify TabsValid n f m keep v.tabs;
  single = one;
}

-- A change of one session after which it holds no tab that it did not hold.
pub shrink-Inv :
    (n : String) (f : Session → Session) (m : Assoc String Session)
    → ((s : Session) → TabsValid s → TabsValid (f s))
    → ((t : String) (s : Session) → has_tab t (f s) ≤ has_tab t s)
    → Inv m
    → Inv (modify n f m)
shrink-Inv n f m keep less v =
    modify-Inv n f m keep (λ t. omega (arith, owners-modify-le t n f m (less t), v.single t)) v

pub add_reservation-TabsValid : (s : Session) → TabsValid s → TabsValid (add_reservation s)
unfolding add_reservation
add_reservation-TabsValid s v = record { unique = v.unique; active = v.active }

pub drop_reservation-TabsValid : (s : Session) → TabsValid s → TabsValid (drop_reservation s)
unfolding drop_reservation
drop_reservation-TabsValid s v = record { unique = v.unique; active = v.active }

pub track_tab-TabsValid :
    (now : ℕ) (tab : SessionTab) (s : Session) → TabsValid s → TabsValid (track_tab now tab s)
unfolding track_tab
track_tab-TabsValid now tab s v = record {
  unique = insert-UniqueKeys tab.target_id tab s.tabs v.unique;
  active = ground (
    arith,
    lookup-insert tab.target_id tab.target_id tab s.tabs,
    string_eq.beq_iff tab.target_id tab.target_id,
  );
}

pub has_tab-track_tab :
    (t : String) (now : ℕ) (tab : SessionTab) (s : Session)
    → has_tab t (track_tab now tab s) ≡ (if tab.target_id == t then 1 else has_tab t s)
unfolding track_tab
has_tab-track_tab t now tab s = ground (arith, lookup-insert tab.target_id t tab s.tabs)

first_key-IsActive : (m : Assoc String SessionTab) → IsActive (first_key m) m
unfolding lookup
first_key-IsActive [] = refl
first_key-IsActive ((k, v) ∷ m) = ground (arith, string_eq.beq_iff k k)

IsActive-remove :
    (t : String) (o : Option String) (m : Assoc String SessionTab)
    → IsActive o m
    → IsActive (if is_target t o then first_key (remove t m) else o) (remove t m)
IsActive-remove t none m h = rw h (unfold remove in refl)
IsActive-remove t (some a) m h = elim (Bool-cases (a == t)) [
  | inl e ↦ rw e (first_key-IsActive (remove t m))
  | inr e ↦ rw e (ground (arith, lookup-remove t a m, string_eq.beq_iff t a, string_eq.beq_iff a t))
]

pub without_tab-TabsValid :
    (now : ℕ) (t : String) (s : Session) → TabsValid s → TabsValid (touch now (without_tab t s))
unfolding touch
without_tab-TabsValid now t s v = record {
  unique = remove-UniqueKeys t s.tabs v.unique;
  active = IsActive-remove t s.active_target s.tabs v.active;
}

pub has_tab-without_tab :
    (u : String) (now : ℕ) (t : String) (s : Session)
    → has_tab u (touch now (without_tab t s)) ≡ (if t == u then 0 else has_tab u s)
unfolding touch
has_tab-without_tab u now t s = ground (arith, lookup-remove t u s.tabs)

IsActive-modify :
    (t : String) (f : SessionTab → SessionTab) (o : Option String) (m : Assoc String SessionTab)
    → IsActive o m
    → IsActive o (modify t f m)
IsActive-modify t f none m h = rw h (unfold modify in refl)
IsActive-modify t f (some a) m h = ground (arith, lookup-modify t a f m)

pub retitle-TabsValid :
    (now : ℕ) (t url title : String) (s : Session)
    → TabsValid s
    → TabsValid (retitle now t url title s)
unfolding retitle
retitle-TabsValid now t url title s v = record {
  unique = modify-UniqueKeys t _ s.tabs v.unique;
  active = IsActive-modify t _ s.active_target s.tabs v.active;
}

pub has_tab-retitle :
    (u : String) (now : ℕ) (t url title : String) (s : Session)
    → has_tab u (retitle now t url title s) ≡ has_tab u s
unfolding retitle
has_tab-retitle u now t url title s =
    ground (arith, lookup-modify t u (λ tab. record tab { url = url; title = title }) s.tabs)
