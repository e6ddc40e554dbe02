-- ===== src/Daemon/Session/Tabs.antt =====
-- The tabs of one session of src/daemon/session.rs.
use browserkit.Common.{
  ◌≡◌, arith, suc, Bool, true, false, ◌||◌, if◌then◌else◌, ◌∙◌, string_eq, ℕ, refl, List, [], ◌∷◌,
  String,
}
use browserkit.Common.Assoc.{contains_key, length-insert}
use browserkit.Daemon.Error.{ok, err, chrome_disconnected}
use browserkit.Daemon.Session.{
  check_connected, tab_count, Session, new_default, new_isolated, touch, add_tab, remove_tab,
  mark_disconnected,
}
use browserkit.Daemon.Targets.{track_tab}
use browserkit.Daemon.Targets.Owner.{TabsValid, track_tab-TabsValid, without_tab-TabsValid}

pub data Change : Type 0 where
  adds : (now : ℕ) (target_id url title : String) → Change
  removes : (now : ℕ) (target_id : String) → Change
  touches : (now : ℕ) → Change
  disconnects : Change

pub change : Session → Change → Session
change s (adds now target_id url title) = add_tab now target_id url title s
change s (removes now target_id) = remove_tab now target_id s
change s (touches now) = touch now s
change s disconnects = mark_disconnected s

pub changes : Session → List Change → Session
changes s [] = s
changes s (c ∷ cs) = changes (change s c) cs

change-TabsValid : (s : Session) (c : Change) → TabsValid s → TabsValid (change s c)
unfolding change
change-TabsValid s (adds now t url title) v =
    unfold add_tab track_tab in track_tab-TabsValid now _ s v
change-TabsValid s (removes now t) v = unfold remove_tab in without_tab-TabsValid now t s v
change-TabsValid s (touches now) v = unfold touch in record { unique = v.unique; active = v.active }
change-TabsValid s disconnects v =
    unfold mark_disconnected in record { unique = v.unique; active = v.active }

changes_keep : (s : Session) (cs : List Change) → TabsValid s → TabsValid (changes s cs)
unfolding changes
changes_keep s [] v = v
changes_keep s (c ∷ cs) v = changes_keep (change s c) cs (change-TabsValid s c v)

-- Whatever is done to a new session, default or isolated: no tab is named twice, the active target is
-- one of the tabs, and there is no active target exactly if there is no tab.
pub changes-TabsValid :
    (now : ℕ) (name host context : String) (cs : List Change)
    → TabsValid (changes (new_default now host) cs)
      × TabsValid (changes (new_isolated now name host context) cs)
unfolding new_default new_isolated
changes-TabsValid now name host context cs = (
  changes_keep _ cs (record { unique = tt; active = refl }),
  changes_keep _ cs (record { unique = tt; active = refl }),
)

abbrev has_disconnects : List Change → Bool
has_disconnects [] = false
has_disconnects (disconnects ∷ cs) = true
has_disconnects (c ∷ cs) = has_disconnects cs

-- A session is refused as disconnected exactly if it was so at first or was marked since.
pub check_connected-changes :
    (s : Session) (cs : List Change)
    → check_connected (changes s cs)
      ≡ (if s.disconnected || has_disconnects cs then err chrome_disconnected else ok tt)
unfolding check_connected changes change add_tab remove_tab touch mark_disconnected
check_connected-changes s [] = ground arith
check_connected-changes s (adds now t url title ∷ cs) =
    check_connected-changes (add_tab now t url title s) cs
check_connected-changes s (removes now t ∷ cs) = check_connected-changes (remove_tab now t s) cs
check_connected-changes s (touches now ∷ cs) = check_connected-changes (touch now s) cs
check_connected-changes s (disconnects ∷ cs) =
    check_connected-changes (mark_disconnected s) cs ∙ ground arith

-- A tab that is added counts once, however often it is added.
pub tab_count-add_tab :
    (now : ℕ) (t url title : String) (s : Session)
    → tab_count (add_tab now t url title s)
      ≡ (if contains_key t s.tabs then tab_count s else suc (tab_count s))
unfolding tab_count add_tab touch
tab_count-add_tab now t url title s = length-insert t _ s.tabs
