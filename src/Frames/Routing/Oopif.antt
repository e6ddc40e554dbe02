-- ===== src/Frames/Routing/Oopif.antt =====
-- `FrameGraph::route_oopif` of src/runtime/frame.rs: a frame that another process serves.
use browserkit.Common.{
  ◌≡◌, refl, ◌∙◌, inl, inr, true, false, Option, none, some, String, Bool-cases, Option-cases, ◌==◌,
  beq_refl, string_eq, arith,
}
use browserkit.Common.Assoc.{lookup, lookup-modify}
use browserkit.Frames.Graph.{FrameGraph, fresh, adopt, waiting_children, attach}
use browserkit.Frames.Routes.{
  parent, route_session, routed, route_to_session, names_other, can_route_oopif, route_oopif,
}
use browserkit.Frames.Links.Attached.{attached}
use browserkit.Frames.Routing.{lookup-attach, route_session-attach}

-- The attached frame has the parent of the event, unless it had another.
attach-parent :
    (id p : String) (g : FrameGraph)
    → names_other (parent id g) p ≡ false
    → parent id (attach id (some p) g) ≡ some p
unfolding parent attached adopt fresh
attach-parent id p g h = elim (Option-cases (lookup id g.frames)) [
  | inl e ↦
      let after =
        adopt (some p) (waiting_children id g.frames) (fresh g.main_session_id (some p)) in
      let (s, ls, es) = lookup-attach id id (some p) g after (rw (beq_refl id, attached, e) refl) in
      ground arith
  | inr (r, e) ↦
      let after = adopt (some p) (waiting_children id g.frames) r in
      let (s, ls, es) = lookup-attach id id (some p) g after (rw (beq_refl id, attached, e) refl) in
      elim (Option-cases r.parent) [
        | inl none_e ↦ ground arith
        | inr (q, some_e) ↦ ground (arith, string_eq.beq_iff q p)
      ]
]

-- It keeps it when the page is told of the frame without one.
attach-parent_kept :
    (id p : String) (g : FrameGraph) → parent id g ≡ some p → parent id (attach id none g) ≡ some p
unfolding parent attached adopt
attach-parent_kept id p g h = elim (Option-cases (lookup id g.frames)) [
  | inl e ↦ cc
  | inr (r, e) ↦
      let after = adopt none (waiting_children id g.frames) r in
      let (s, ls, es) = lookup-attach id id none g after (rw (beq_refl id, attached, e) refl) in
      ground arith
]

-- A frame with a parent is there, and takes the new route.
route_to_session-effect :
    (id session p : String) (target : Option String) (g : FrameGraph)
    → parent id g ≡ some p
    → (route_session id (route_to_session id session target g).0 ≡ some session)
      × (parent id (route_to_session id session target g).0 ≡ some p)
unfolding route_to_session routed parent route_session
route_to_session-effect id session p target g h =
    let kept = attach-parent_kept id p g h in
    elim (Option-cases (lookup id (attach id none g).frames)) [
      | inl e ↦ ground arith
      | inr (r, e) ↦ (
        ground (
          arith,
          lookup-modify id id (routed session target) (attach id none g).frames,
          beq_refl id,
        ),
        ground (
          arith,
          lookup-modify id id (routed session target) (attach id none g).frames,
          beq_refl id,
        ),
      )
    ]

pub route_session-route_to_session :
    (id x session : String) (target : Option String) (g : FrameGraph)
    → id == x ≡ false
    → route_session x (route_to_session id session target g).0 ≡ route_session x g
unfolding route_to_session route_session
route_session-route_to_session id x session target g e =
    let kept = route_session-attach id x none g e in
    elim (Option-cases (lookup id (attach id none g).frames)) [
      | inl h ↦ ground arith
      | inr (r, h) ↦
          ground (arith, lookup-modify id x (routed session target) (attach id none g).frames)
    ]

-- What a frame must satisfy that a child session may serve.
can_route-parts :
    (id q : String) (parent_session : Option String) (g : FrameGraph)
    → can_route_oopif id (some q) parent_session g ≡ true
    → (route_session q g ≡ parent_session) × (names_other (parent id g) q ≡ false)
unfolding can_route_oopif route_session parent
can_route-parts id q parent_session g h = elim (Option-cases (lookup q g.frames)) [
  | inl e ↦ ground arith
  | inr (r, e) ↦ elim (Option-cases parent_session) [
    | inl none_e ↦ ground arith
    | inr (s, some_e) ↦ (
      ground (arith, string_eq.beq_iff s r.route_session_id),
      elim (Option-cases (lookup id g.frames)) [
        | inl e' ↦ ground arith
        | inr (w, e') ↦ ground arith
      ],
    )
  ]
]

-- When `route_oopif` succeeds, it was given a parent whose commands go through the session that the
-- event came from; then the frame is a child of that parent, its commands go through the new
-- session, and no other frame's route has changed.
pub route_oopif-effect :
    (id : String) (p parent_session : Option String) (session target : String) (g : FrameGraph)
    → (route_oopif id p parent_session session target g).1 ≡ true
    → (parent_id : String) × (p ≡ some parent_id)
      × (route_session parent_id g ≡ parent_session)
      × (parent id (route_oopif id p parent_session session target g).0 ≡ some parent_id)
      × (route_session id (route_oopif id p parent_session session target g).0 ≡ some session)
      × ((x : String)
          → id == x ≡ false
          → route_session x (route_oopif id p parent_session session target g).0
            ≡ route_session x g)
unfolding route_oopif
route_oopif-effect id none parent_session session target g h = cc
route_oopif-effect id (some q) parent_session session target g h =
    elim (Bool-cases (can_route_oopif id (some q) parent_session g)) [
      | inl e ↦
          let (there, free) = can_route-parts id q parent_session g e in
          let before = attach id (some q) g in
          let (route, child) =
            route_to_session-effect id session q (some target) before (attach-parent id q g free) in
          rw (e, route_oopif)
            (
              q,
              refl,
              there,
              child,
              route,
              λ x other.
                  route_session-route_to_session id x session (some target) before other
                  ∙ route_session-attach id x (some q) g other,
            )
      | inr e ↦ ground arith
    ]
