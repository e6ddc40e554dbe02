-- ===== src/Frames/Links.antt =====
-- The links of `FrameGraph` of src/runtime/frame.rs: a frame whose parent is known is among the
-- children of that parent, in whatever order the events of the two arrive.
pub mod Attached
use browserkit.Common.{
  ◌≡◌, refl, ap, subst, sym, ◌∙◌, ◌⊎◌, inl, inr, true, ◌||◌, Option, none, some, [], ◌∷◌, String,
  if◌then◌else◌, Bool-cases, Option-cases, ◌==◌, beq_refl, string_eq, arith, has, add, has-add,
  has-add_all, has-discard,
}
use browserkit.Common.Assoc.{
  lookup, insert, remove, modify, lookup-insert, lookup-remove, lookup-modify,
}
use browserkit.Frames.Graph.{
  FrameRecord, Frames, FrameGraph, names, waiting_children, fresh, adopt, add_child, ensure,
  attach_record, attach, commit, navigate, drop_child,
}

-- A frame whose parent has a record is among the children of that record.
unfoldable pub IsLinked : Frames → Type 0
IsLinked m =
    (id parent_id : String) (r p : FrameRecord)
    → lookup id m ≡ some r
    → r.parent ≡ some parent_id
    → lookup parent_id m ≡ some p
    → has id p.children ≡ true

-- A change of one record that keeps its parent and drops no child.
unfoldable pub IsGrowth : (FrameRecord → FrameRecord) → Type 0
IsGrowth f =
    (r : FrameRecord)
    → ((f r).parent ≡ r.parent)
      × ((child : String) → has child r.children ≡ true → has child (f r).children ≡ true)

pub modify-IsLinked :
    (k : String) (f : FrameRecord → FrameRecord) (m : Frames)
    → IsGrowth f
    → IsLinked m
    → IsLinked (modify k f m)
unfolding IsLinked IsGrowth
modify-IsLinked k f m grow linked id parent_id r p hr hp hq = elim (Option-cases (lookup id m)) [
  | inl e ↦ ground (arith, lookup-modify k id f m)
  | inr (r', e) ↦ elim (Option-cases (lookup parent_id m)) [
    | inl e' ↦ ground (arith, lookup-modify k parent_id f m)
    | inr (p', e') ↦
        let same : r.parent ≡ r'.parent = ground (arith, lookup-modify k id f m, (grow r').0) in
        let was = linked id parent_id r' p' e (sym same ∙ hp) e' in
        ground (arith, lookup-modify k parent_id f m, (grow p').1 id was)
  ]
]

pub remove-IsLinked : (k : String) (m : Frames) → IsLinked m → IsLinked (remove k m)
unfolding IsLinked
remove-IsLinked k m linked id parent_id r p hr hp hq =
    let r_was : lookup id m ≡ some r = ground (arith, lookup-remove k id m) in
    let p_was : lookup parent_id m ≡ some p = ground (arith, lookup-remove k parent_id m) in
    linked id parent_id r p r_was hp p_was

-- A frame that is gone can leave its parent's children.
pub drop_child-IsLinked :
    (k id : String) (m : Frames)
    → lookup id m ≡ none
    → IsLinked m
    → IsLinked (modify k (drop_child id) m)
unfolding IsLinked drop_child
drop_child-IsLinked k id m gone linked child parent_id r p hr hp hq =
    elim (Option-cases (lookup child m)) [
      | inl e ↦ ground (arith, lookup-modify k child (drop_child id) m)
      | inr (r', e) ↦ elim (Option-cases (lookup parent_id m)) [
        | inl e' ↦ ground (arith, lookup-modify k parent_id (drop_child id) m)
        | inr (p', e') ↦
            let same : r.parent ≡ r'.parent =
              ground (arith, lookup-modify k child (drop_child id) m) in
            let was = linked child parent_id r' p' e (sym same ∙ hp) e' in
            ground (
              arith,
              lookup-modify k parent_id (drop_child id) m,
              has-discard id child p'.children,
              string_eq.beq_iff id child,
            )
      ]
    ]
