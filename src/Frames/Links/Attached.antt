-- ===== src/Frames/Links/Attached.antt =====
-- What `FrameGraph::attach` of src/runtime/frame.rs leaves, and the links of the frames after it.
use browserkit.Common.{
  ◌≡◌, refl, ap, subst, sym, ◌∙◌, ◌⊎◌, inl, inr, true, ◌||◌, Option, none, some, [], ◌∷◌, String,
  if◌then◌else◌, Bool-cases, Option-cases, ◌==◌, beq_refl, string_eq, arith, has, add, has-add,
  has-add_all,
}
use browserkit.Common.Assoc.{lookup, insert, modify, lookup-insert, lookup-modify}
use browserkit.Frames.Graph.{
  FrameRecord, Frames, FrameGraph, names, waiting_children, fresh, adopt, add_child, ensure,
  attach_record, attach, commit, navigate,
}
use browserkit.Frames.Links.{IsLinked, IsGrowth, modify-IsLinked}

pub has-waiting_children :
    (id child : String) (r : FrameRecord) (m : Frames)
    → lookup child m ≡ some r
    → r.parent ≡ some id
    → has child (waiting_children id m) ≡ true
unfolding lookup waiting_children
has-waiting_children id child r [] hl hp = cc
has-waiting_children id child r ((k, w) ∷ m) hl hp = elim (Bool-cases (k == child)) [
  | inl e ↦
      let named : names w.parent id ≡ true = ground (arith, beq_refl id) in
      rw named (
        has-add k child (waiting_children id m)
        ∙ ap (λ b. b || has child (waiting_children id m)) e)
  | inr e ↦
      let rest = has-waiting_children id child r m (rw e at hl) hp in
      ground (arith, has-add k child (waiting_children id m))
]

-- The record that `attach` leaves, before the link to the parent.
unfoldable pub attached : String → String → Option String → Frames → FrameRecord
attached session id parent m = elim (lookup id m) [
  | none ↦ adopt parent (waiting_children id m) (fresh session parent)
  | some r ↦ adopt parent (waiting_children id m) r
]

pub lookup-attach_record :
    (session id wanted : String) (parent : Option String) (m : Frames)
    → lookup wanted (attach_record session id parent m)
      ≡ (if id == wanted then some (attached session id parent m) else lookup wanted m)
unfolding attach_record ensure attached
lookup-attach_record session id wanted parent m = elim (Option-cases (lookup id m)) [
  | inl e ↦ rw e (
      ground (
        arith,
        beq_refl id,
        lookup-modify id wanted (adopt parent (waiting_children id m))
            (insert id (fresh session parent) m),
        lookup-insert id wanted (fresh session parent) m,
        string_eq.beq_iff id wanted,
      ))
  | inr (r, e) ↦ rw e (
      ground (
        arith,
        lookup-modify id wanted (adopt parent (waiting_children id m)) m,
        string_eq.beq_iff id wanted,
      ))
]

-- A child that waited is adopted.
has-attached :
    (session id child : String) (parent : Option String) (m : Frames)
    → has child (waiting_children id m) ≡ true
    → has child (attached session id parent m).children ≡ true
unfolding attached adopt fresh
has-attached session id child parent m h = elim (Option-cases (lookup id m)) [
  | inl e ↦ rw (e, attached) (ground (arith, has-add_all (waiting_children id m) child []))
  | inr (r, e) ↦
      rw (e, attached) (ground (arith, has-add_all (waiting_children id m) child r.children))
]

-- The parent of the attached frame is the one it had, or the one of the event.
attached-parent :
    (session id parent_id : String) (parent : Option String) (m : Frames)
    → (attached session id parent m).parent ≡ some parent_id
    → (parent ≡ some parent_id)
      ⊎ ((r : FrameRecord) × (lookup id m ≡ some r) × (r.parent ≡ some parent_id))
unfolding attached adopt fresh
attached-parent session id parent_id parent m h = elim (Option-cases (lookup id m)) [
  | inl e ↦ elim (Option-cases parent) [
    | inl none_e ↦ ground arith
    | inr (p, some_e) ↦ ground arith
  ]
  | inr (r, e) ↦ elim (Option-cases r.parent) [
    | inl none_e ↦ inl (ground arith)
    | inr (p, some_e) ↦ inr (r, e, ground arith)
  ]
]

-- A frame that had its parent before the event is among its children after it.
attach_record-keeps :
    (session id child parent_id : String) (parent : Option String) (r p : FrameRecord) (m : Frames)
    → IsLinked m
    → lookup child m ≡ some r
    → r.parent ≡ some parent_id
    → lookup parent_id (attach_record session id parent m) ≡ some p
    → has child p.children ≡ true
unfolding IsLinked
attach_record-keeps session id child parent_id parent r p m linked hr hp hq =
    elim (Bool-cases (id == parent_id)) [
      | inl e ↦
          let same = (string_eq.beq_iff id parent_id).0 e in
          let adopted =
            has-attached session id child parent m
              (has-waiting_children id child r m hr (hp ∙ ap some (sym same))) in
          ground (arith, lookup-attach_record session id parent_id parent m)
      | inr e ↦
          let there : lookup parent_id m ≡ some p =
            ground (arith, lookup-attach_record session id parent_id parent m) in
          linked child parent_id r p hr hp there
    ]

-- Before the link to the parent, only the attached frame can miss among its children.
attach_record-IsLinked :
    (session id : String) (parent : Option String) (m : Frames)
    → IsLinked m
    → (child parent_id : String) (r p : FrameRecord)
    → lookup child (attach_record session id parent m) ≡ some r
    → r.parent ≡ some parent_id
    → lookup parent_id (attach_record session id parent m) ≡ some p
    → (has child p.children ≡ true) ⊎ ((id ≡ child) × (parent ≡ some parent_id))
attach_record-IsLinked session id parent m linked child parent_id r p hr hp hq =
    elim (Bool-cases (id == child)) [
      | inl e ↦
          let held : (attached session id parent m).parent ≡ some parent_id =
            ground (arith, lookup-attach_record session id child parent m) in
          let same = (string_eq.beq_iff id child).0 e in
          elim (attached-parent session id parent_id parent m held) [
            | inl given ↦ inr (same, given)
            | inr (r', l', p') ↦ inl (
                attach_record-keeps session id child parent_id parent r' p m linked
                  (subst (λ x. lookup x m ≡ some r') same l') p' hq)
          ]
      | inr e ↦
          let there : lookup child m ≡ some r =
            ground (arith, lookup-attach_record session id child parent m) in
          inl (attach_record-keeps session id child parent_id parent r p m linked there hp hq)
    ]

-- A record after the link to the parent has a record before it, with the same parent.
linked-parent :
    (k id wanted : String) (r : FrameRecord) (m : Frames)
    → lookup wanted (modify k (add_child id) m) ≡ some r
    → (w : FrameRecord) × (lookup wanted m ≡ some w)
      × (w.parent ≡ r.parent)
      × (r.children ≡ (if k == wanted then add id w.children else w.children))
unfolding add_child
linked-parent k id wanted r m h = elim (Option-cases (lookup wanted m)) [
  | inl e ↦ ground (arith, lookup-modify k wanted (add_child id) m)
  | inr (w, e) ↦ (
    w,
    e,
    ground (arith, lookup-modify k wanted (add_child id) m),
    ground (arith, lookup-modify k wanted (add_child id) m),
  )
]

pub attach-IsLinked :
    (id : String) (parent : Option String) (g : FrameGraph)
    → IsLinked g.frames
    → IsLinked (attach id parent g).frames
unfolding attach IsLinked
attach-IsLinked id none g linked child parent_id r p hr hp hq =
    elim (attach_record-IsLinked g.main_session_id id none g.frames linked child parent_id r p hr hp
      hq) [ inl h ↦ h | inr (same, given) ↦ cc ]
attach-IsLinked id (some named) g linked child parent_id r p hr hp hq =
    let m = attach_record g.main_session_id id (some named) g.frames in
    let (r', lr, pr, cr) = linked-parent named id child r m hr in
    let (p', lp, pp, cp) = linked-parent named id parent_id p m hq in
    elim (attach_record-IsLinked g.main_session_id id (some named) g.frames linked child parent_id
      r' p' lr (pr ∙ hp) lp) [
        | inl h ↦ ground (arith, has-add id child p'.children)
        | inr (same, given) ↦
            ground (arith, has-add id child p'.children, beq_refl id, beq_refl parent_id)
      ]

pub commit-IsGrowth : (loader : String) → IsGrowth (commit loader)
unfolding commit IsGrowth
commit-IsGrowth loader r = (refl, λ child h. h)

pub navigate-IsLinked :
    (id : String) (parent : Option String) (loader : String) (g : FrameGraph)
    → IsLinked g.frames
    → IsLinked (navigate id parent loader g).0.frames
unfolding navigate
navigate-IsLinked id parent loader g linked =
    modify-IsLinked id (commit loader) (attach id parent g).frames (commit-IsGrowth loader)
      (attach-IsLinked id parent g linked)
