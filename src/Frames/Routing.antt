-- ===== src/Frames/Routing.antt =====
-- What the routes of child sessions and the navigations change in `FrameGraph` of
-- src/runtime/frame.rs.
pub mod Oopif
use browserkit.Common.{
  ℕ, ◌+◌, ◌%◌, ◌^◌, ◌≡◌, ◌≢◌, ◌↔◌, refl, ◌⊎◌, inl, inr, Bool, true, false, not, ◌&&◌, Option, none,
  some, String, if◌then◌else◌, is_some, Bool-cases, Option-cases, ◌==◌, beq_refl, string_eq, arith,
}
use browserkit.Common.Assoc.{lookup, modify, lookup-modify}
use browserkit.Lifecycle.Version.{LifecycleSnapshot}
use browserkit.Frames.Graph.{
  FrameRecord, FrameGraph, names, fresh, adopt, waiting_children, attach, attach_record, add_child,
  crosses, commit, navigate,
}
use browserkit.Frames.Routes.{
  parent, loader_id, snapshot, route_session, routed, route_to_session, names_other,
  can_route_oopif, route_oopif,
}
use browserkit.Frames.Links.Attached.{attached, lookup-attach_record}

-- A link to the parent leaves all but the children.
pub lookup-attach :
    (id x : String) (p : Option String) (g : FrameGraph)
    → (r : FrameRecord)
    → (if id == x then some (attached g.main_session_id id p g.frames) else lookup x g.frames)
      ≡ some r
    → (s : FrameRecord) × (lookup x (attach id p g).frames ≡ some s)
      × (s ≡ record r { children = s.children })
unfolding attach add_child
lookup-attach id x none g r h =
    (r, ground (arith, lookup-attach_record g.main_session_id id x none g.frames), refl)
lookup-attach id x (some p) g r h =
    let m = attach_record g.main_session_id id (some p) g.frames in
    let there : lookup x m ≡ some r =
      ground (arith, lookup-attach_record g.main_session_id id x (some p) g.frames) in
    elim (Bool-cases (p == x)) [
      | inl e ↦ (add_child id r, ground (arith, lookup-modify p x (add_child id) m), refl)
      | inr e ↦ (r, ground (arith, lookup-modify p x (add_child id) m), refl)
    ]

pub lookup-attach_absent :
    (id x : String) (p : Option String) (g : FrameGraph)
    → id == x ≡ false
    → lookup x g.frames ≡ none
    → lookup x (attach id p g).frames ≡ none
unfolding attach
lookup-attach_absent id x none g e h =
    ground (arith, lookup-attach_record g.main_session_id id x none g.frames)
lookup-attach_absent id x (some p) g e h = ground (
  arith,
  lookup-attach_record g.main_session_id id x (some p) g.frames,
  lookup-modify p x (add_child id) (attach_record g.main_session_id id (some p) g.frames),
)

-- Another frame's route is not changed.
pub route_session-attach :
    (id x : String) (p : Option String) (g : FrameGraph)
    → id == x ≡ false
    → route_session x (attach id p g) ≡ route_session x g
unfolding route_session
route_session-attach id x p g e = elim (Option-cases (lookup x g.frames)) [
  | inl absent ↦ ground (arith, lookup-attach_absent id x p g)
  | inr (r, there) ↦ let (s, ls, es) = lookup-attach id x p g r (rw e there) in ground arith
]

-- A known frame keeps its document and its route, and its parent when it has one.
pub lookup-attach_known :
    (id x : String) (p : Option String) (g : FrameGraph) (r : FrameRecord)
    → lookup x g.frames ≡ some r
    → (s : FrameRecord) × (lookup x (attach id p g).frames ≡ some s)
      × (s.document_epoch ≡ r.document_epoch)
      × (s.loader_id ≡ r.loader_id)
      × (s.route_session_id ≡ r.route_session_id)
unfolding attached adopt
lookup-attach_known id x p g r h = elim (Bool-cases (id == x)) [
  | inl e ↦
      let same = (string_eq.beq_iff id x).0 e in
      let known : lookup id g.frames ≡ some r = ground arith in
      let after = adopt p (waiting_children id g.frames) r in
      let (s, ls, es) = lookup-attach id x p g after (rw (e, attached, known) refl) in
      (s, ls, ground arith, ground arith, ground arith)
  | inr e ↦
      let (s, ls, es) = lookup-attach id x p g r (rw e h) in
      (s, ls, ground arith, ground arith, ground arith)
]

-- The document is replaced exactly if there was a loader and the new one is another.
crosses_iff :
    (was : Option String) (loader : String)
    → (crosses was loader ≡ true) ↔ ((old : String) × (was ≡ some old) × (old ≢ loader))
unfolding crosses
crosses_iff none loader = (λ e. cc, λ (old, e, d). cc)
crosses_iff (some old) loader = (
  λ e. (old, refl, λ same. ground (arith, string_eq.beq_iff old loader)),
  λ (o, e, d). ground (arith, string_eq.beq_iff old loader),
)

-- The call's answer looks at the loader that the frame had before, also when it was not known.
navigate-crosses :
    (id loader : String) (p : Option String) (g : FrameGraph)
    → (navigate id p loader g).1 ≡ crosses (loader_id id g) loader
unfolding navigate loader_id attached adopt fresh crosses
navigate-crosses id loader p g =
    let (s, ls, es) =
      lookup-attach id id p g (attached g.main_session_id id p g.frames) (rw (beq_refl id) refl) in
    elim (Option-cases (lookup id g.frames)) [ inl e ↦ ground arith | inr (r, e) ↦ ground arith ]

-- What a navigation does to the version of each frame that is known: the epoch of the frame that
-- navigates grows by one, on 64 bits, exactly when the call says that the document was replaced.
-- No other epoch changes. The call says so exactly if the frame that navigates had a loader before
-- and that loader is not the new one.
pub navigate-snapshot :
    (id x loader : String) (p : Option String) (generation : ℕ) (g : FrameGraph)
    (was : LifecycleSnapshot)
    → snapshot x generation g ≡ some was
    → (snapshot x generation (navigate id p loader g).0
        ≡ some (
            if id == x && (navigate id p loader g).1
            then record was { document_epoch = (was.document_epoch + 1) % 2 ^ 64 }
            else was))
      × (((navigate id p loader g).1 ≡ true)
          ↔ ((old : String) × (loader_id id g ≡ some old) × (old ≢ loader)))
unfolding snapshot navigate commit
navigate-snapshot id x loader p generation g was h = elim (Option-cases (lookup x g.frames)) [
  | inl absent ↦ cc
  | inr (r, there) ↦
      let (s, ls, es, el, er) = lookup-attach_known id x p g r there in
      let answered : ((navigate id p loader g).1 ≡ true)
          ↔ ((old : String) × (loader_id id g ≡ some old) × (old ≢ loader)) =
        rw (navigate-crosses id loader p g) (crosses_iff (loader_id id g) loader) in
      elim (Bool-cases (id == x)) [
        | inl e ↦
            let same = (string_eq.beq_iff id x).0 e in
            (ground (arith, lookup-modify id x (commit loader) (attach id p g).frames), answered)
        | inr e ↦
            (ground (arith, lookup-modify id x (commit loader) (attach id p g).frames), answered)
      ]
]
